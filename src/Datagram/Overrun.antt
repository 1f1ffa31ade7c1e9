-- ===== src/Datagram/Overrun.antt =====
-- When the bounds test of `decodeFrom` lets its copies run past the end of the source.
use schneeflocke.Base.{◌+◌, ◌≤◌, ◌<◌, ◌≡◌, ◌↔◌, arith, Bytes, length}
use schneeflocke.Datagram.{overrun, decode_from, from_network, max_length, u32_mod}

-- A source whose two lengths add up past 32 bits, and that is shorter than they say.
pub record WrapsAround (source : Bytes) : Type 0 where
  pub has_lengths : 8 ≤ length source
  pub header_fits : from_network source 0 ≤ max_length
  pub content_fits : from_network source 4 ≤ max_length
  pub wraps : u32_mod ≤ from_network source 0 + from_network source 4 + 8
  pub short : length source < 8 + from_network source 0 + from_network source 4

-- The copies leave the source exactly when the sum of the lengths wraps around.
pub decode_from-overrun_iff : (source : Bytes) → (decode_from source ≡ overrun) ↔ WrapsAround source
unfolding decode_from
decode_from-overrun_iff source = (λ h. ground arith, λ w. ground arith)
