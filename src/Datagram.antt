-- ===== src/Datagram.antt =====
-- libschnee/schnee/p2p/Datagram.cpp and Datagram.h: one packet of header and content, and its wire
-- form, two big-endian 32-bit lengths before both parts.
pub mod RoundTrip
pub mod Overrun
mod Tests
use schneeflocke.Base.{
  ℕ, ◌+◌, ◌*◌, ◌/◌, ◌%◌, ◌^◌, Option, none, some, [], ◌∷◌, ◌++◌, ltb, leb, if◌then◌else◌, length,
  take, drop, get_or, Bytes,
}
use schneeflocke.Channel.{bytes_of}
use schneeflocke.Error.{Error}

pub record Datagram : Type 0 where
  pub header : Option Bytes
  pub content : Option Bytes

abbrev pub u32_mod : ℕ
u32_mod = 2 ^ 32

abbrev pub max_length : ℕ
max_length = 2147483647

-- The four bytes of `htonl (n)`.
abbrev pub to_network : ℕ → Bytes
to_network n = n / 2 ^ 24 % 256 ∷ n / 2 ^ 16 % 256 ∷ n / 2 ^ 8 % 256 ∷ n % 256 ∷ []

-- `ntohl` of the four bytes at an offset.
abbrev pub from_network : Bytes → ℕ → ℕ
from_network b i =
    get_or b i 0 * 2 ^ 24
    + get_or b (i + 1) 0 * 2 ^ 16
    + get_or b (i + 2) 0 * 2 ^ 8
    + get_or b (i + 3) 0

unfoldable pub encode : Datagram → Option Bytes
encode d =
    let header_length = length (bytes_of d.header) in
    let content_length = length (bytes_of d.content) in
    if ltb max_length header_length
    then none
    else if ltb max_length content_length
    then none
    else some (
        to_network (header_length % u32_mod)
        ++ (to_network (content_length % u32_mod) ++ (bytes_of d.header ++ bytes_of d.content)))

pub encoded_size : Datagram → ℕ
encoded_size d = 8 + length (bytes_of d.header) + length (bytes_of d.content)

-- `overrun`: the source's iterators are moved past its end, which is undefined.
pub data Decoded : Type 0 where
  failed : Error → Decoded
  overrun : Decoded
  decoded : Datagram → ℕ → Decoded

-- `assign` of `[from, from + count)`.
copy_out : Bytes → ℕ → ℕ → Bytes
copy_out source from count = take count (drop from source)

-- The sum of the lengths and 8 is one of `uint32_t`.
unfoldable pub decode_from : Bytes → Decoded
unfolding copy_out
decode_from source =
    let header_length = from_network source 0 in
    let content_length = from_network source 4 in
    let total = (header_length + content_length + 8) % u32_mod in
    if ltb (length source) 8
    then failed Error.not_enough
    else if ltb max_length header_length
    then failed Error.invalid_argument
    else if ltb max_length content_length
    then failed Error.invalid_argument
    else if ltb (length source) total
    then failed Error.not_enough
    else if ltb (length source) (8 + header_length + content_length)
    then overrun
    else decoded
        (record {
          header = some (copy_out source 8 header_length);
          content = some (copy_out source (8 + header_length) content_length);
        })
        total
