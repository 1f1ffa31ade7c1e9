-- ===== src/Datagram/Tests.antt =====
-- The wire form at concrete datagrams.
use schneeflocke.Base.{◌≡◌, refl, ◌↔◌, some, [], ◌∷◌, ◌++◌, length, Bytes, codes, arith}
use schneeflocke.Datagram.{Datagram, encode, decode_from, decoded, overrun, encoded_size}
use schneeflocke.Datagram.Overrun.{WrapsAround, decode_from-overrun_iff}
use schneeflocke.Datagram.RoundTrip.{decode_from-encode}

abbrev ping : Datagram
ping = record { header = some (codes "ping"); content = some (codes "{}") }

ping_wire : encode ping ≡ some (0 ∷ 0 ∷ 0 ∷ 4 ∷ 0 ∷ 0 ∷ 0 ∷ 2 ∷ codes "ping{}")
unfolding encode
ping_wire = refl

decode_from-encode_example :
    (w : Bytes) × (encode ping ≡ some w)
    × (length w ≡ encoded_size ping)
    × (decode_from (w ++ codes "rest") ≡ decoded ping (encoded_size ping))
decode_from-encode_example =
    decode_from-encode ping (codes "rest") (omega arith) (omega arith)
      (unfold encoded_size in omega arith)

-- Both lengths are 2 ^ 31 - 1, and nothing follows.
abbrev huge : Bytes
huge = 127 ∷ 255 ∷ 255 ∷ 255 ∷ 127 ∷ 255 ∷ 255 ∷ 255 ∷ []

decode_from-overrun_iff_example : (decode_from huge ≡ overrun) ↔ WrapsAround huge
decode_from-overrun_iff_example = decode_from-overrun_iff huge

huge_overruns : decode_from huge ≡ overrun
unfolding decode_from
huge_overruns = refl
