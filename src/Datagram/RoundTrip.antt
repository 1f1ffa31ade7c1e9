-- ===== src/Datagram/RoundTrip.antt =====
-- Decoding what was encoded.
use schneeflocke.Base.{
  ℕ, suc, ◌+◌, ◌*◌, ◌/◌, ◌%◌, ◌^◌, ◌≤◌, ◌<◌, ◌≡◌, refl, ap, ap₂, ◌∙◌, some, ◌∷◌, ◌++◌, append_assoc,
  arith, length, take, drop, length-append, take-append, drop-append, Bytes, ltb-eq-false,
}
use schneeflocke.Channel.{bytes_of}
use schneeflocke.Datagram.{
  Datagram, decoded, encode, decode_from, encoded_size, to_network, from_network, max_length,
  u32_mod,
}

pub from_network-to_network :
    (n : ℕ)
    → n < u32_mod
    → n / 2 ^ 24 % 256 * 2 ^ 24 + n / 2 ^ 16 % 256 * 2 ^ 16 + n / 2 ^ 8 % 256 * 2 ^ 8 + n % 256 ≡ n
from_network-to_network n h = omega arith

-- The wire form: both lengths, then both parts.
abbrev pub wire : Bytes → Bytes → Bytes
wire h c = to_network (length h) ++ (to_network (length c) ++ (h ++ c))

abbrev pub Fits : Bytes → Type 0
Fits b = length b ≤ max_length

pub encode-wire :
    (d : Datagram)
    → Fits (bytes_of d.header)
    → Fits (bytes_of d.content)
    → encode d ≡ some (wire (bytes_of d.header) (bytes_of d.content))
unfolding encode
encode-wire d h c =
    let keep_h : length (bytes_of d.header) % u32_mod ≡ length (bytes_of d.header) = omega arith in
    let keep_c : length (bytes_of d.content) % u32_mod ≡ length (bytes_of d.content) =
      omega arith in
    rw
      (
        ltb-eq-false max_length (length (bytes_of d.header)) h,
        ltb-eq-false max_length (length (bytes_of d.content)) c,
      )
      (ap some (
        ap₂ (λ n m. to_network n ++ (to_network m ++ (bytes_of d.header ++ bytes_of d.content)))
          keep_h keep_c))

-- The branch of a source that holds all that its lengths promise.
decode_from_enough :
    (source : Bytes) (n m : ℕ)
    → from_network source 0 ≡ n
    → from_network source 4 ≡ m
    → n ≤ max_length
    → m ≤ max_length
    → n + m + 8 < u32_mod
    → 8 + n + m ≤ length source
    → decode_from source
      ≡ decoded
          (record {
            header = some (take n (drop 8 source));
            content = some (take m (drop (8 + n) source));
          })
          (8 + n + m)
unfolding decode_from
decode_from_enough source n m e f hn hm fit long =
    let whole : (n + m + 8) % u32_mod ≡ 8 + n + m = omega arith in
    rw
      (
        e,
        f,
        ltb-eq-false (length source) 8 (omega arith),
        ltb-eq-false max_length n hn,
        ltb-eq-false max_length m hm,
        whole,
        ltb-eq-false (length source) (8 + n + m) long,
      )
      refl

take_middle : (h c rest : Bytes) → take (length c) (drop (length h) (h ++ (c ++ rest))) ≡ c
take_middle h c rest = rw (drop-append h (c ++ rest)) (take-append c rest)

drop_eight :
    (n : ℕ) (a b c d e f g h : ℕ) (rest : Bytes)
    → drop (8 + n) (a ∷ b ∷ c ∷ d ∷ e ∷ f ∷ g ∷ h ∷ rest) ≡ drop n rest
drop_eight n a b c d e f g h rest =
    ap (λ (k : ℕ). drop k (a ∷ b ∷ c ∷ d ∷ e ∷ f ∷ g ∷ h ∷ rest))
      (let e : 8 + n ≡ suc (suc (suc (suc (suc (suc (suc (suc n))))))) = omega arith in e)

decode_from-wire :
    (h c rest : Bytes)
    → Fits h
    → Fits c
    → 8 + length h + length c < u32_mod
    → decode_from (wire h c ++ rest)
      ≡ decoded (record { header = some h; content = some c }) (8 + length h + length c)
decode_from-wire h c rest fh fc fit =
    decode_from_enough (wire h c ++ rest) (length h) (length c)
      (from_network-to_network (length h) (omega arith))
      (from_network-to_network (length c) (omega arith)) fh fc (omega arith)
      (omega (arith, length-append (h ++ c) rest, length-append h c))
    ∙ ap₂ (λ x y. decoded (record { header = some x; content = some y }) (8 + length h + length c))
        (rw (append_assoc h c rest) (take-append h (c ++ rest)))
        (rw (drop_eight (length h)) (rw (append_assoc h c rest) (take_middle h c rest)))

-- Decoding an encoded datagram gives both parts back and counts the bytes used, whatever follows.
pub decode_from-encode :
    (d : Datagram) (rest : Bytes)
    → Fits (bytes_of d.header)
    → Fits (bytes_of d.content)
    → encoded_size d < u32_mod
    → (w : Bytes) × (encode d ≡ some w)
      × (length w ≡ encoded_size d)
      × (decode_from (w ++ rest)
          ≡ decoded
              (record { header = some (bytes_of d.header); content = some (bytes_of d.content) })
              (encoded_size d))
unfolding encoded_size
decode_from-encode d rest fh fc fit =
    let h = bytes_of d.header in
    let c = bytes_of d.content in
    (
      wire h c,
      encode-wire d fh fc,
      omega (arith, length-append h c),
      decode_from-wire h c rest fh fc fit,
    )
