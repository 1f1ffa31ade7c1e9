-- ===== src/BufferedReader/Contract.antt =====
-- `read` is the `read` of a channel.
use schneeflocke.Base.{
  ℕ, zero, suc, append-nil, ◌≤◌, ◌<◌, ◌≡◌, refl, sym, ◌∙◌, true, inl, inr, Bool-cases, [], ◌∷◌,
  ◌++◌, arith, ltb, leb, leb→le, ◌==◌, ◌||◌, length, take, take_all, take-append-drop, length-take,
  Bytes,
}
use schneeflocke.ByteArray.{l_truncate-drop}
use schneeflocke.BufferedReader.{BufferedReader, read, read_tail, peek}
use schneeflocke.Channel.{Channel, MaxSize, bytes_of}

read_tail_buffer : (b : BufferedReader) → (read_tail b).input_buffer ≡ b.input_buffer
unfolding read_tail
read_tail_buffer b = ground arith

take_nothing : (n : ℕ) (xs : Bytes) → (n == 0 || length xs == 0) ≡ true → take n xs ≡ []
take_nothing zero xs h = refl
take_nothing (suc n) [] h = refl
take_nothing (suc n) (x ∷ xs) h = absurd (ground arith)

-- A read hands out exactly the oldest bytes asked for, and keeps the others in order.
pub read_prefix :
    (b : BufferedReader) (n : ℕ)
    → let (got, b') = read b (MaxSize.at_most n) in
      (bytes_of got ≡ take n b.input_buffer) × (bytes_of got ++ b'.input_buffer ≡ b.input_buffer)
unfolding read
read_prefix b n = elim (Bool-cases (n == 0 || length b.input_buffer == 0)) [
  | inl nothing ↦ rw nothing (sym (take_nothing n b.input_buffer nothing), refl)
  | inr something ↦ rw something (elim (Bool-cases (ltb n (length b.input_buffer))) [
    | inl part ↦ rw part (
      refl,
      rw (read_tail_buffer, l_truncate-drop n b.input_buffer (ground arith))
          (take-append-drop n b.input_buffer),
    )
    | inr all ↦ rw all (
      sym (take_all n b.input_buffer (ground arith)),
      rw read_tail_buffer (append-nil b.input_buffer),
    )
  ])
]

-- What `peek` shows is what the next read with the same size hands out, if that size is positive.
pub peek-read :
    (b : BufferedReader) (n : ℕ)
    → 0 < n
    → peek b (MaxSize.at_most n) ≡ bytes_of (read b (MaxSize.at_most n)).0
unfolding peek
peek-read b n h = elim (Bool-cases (leb (length b.input_buffer) n)) [
  | inl all ↦ rw all (sym ((read_prefix b n).0 ∙ take_all n b.input_buffer (leb→le _ _ all)))
  | inr part ↦ rw part (sym (read_prefix b n).0)
]

pub read_splits_lem :
    (b : BufferedReader) (n : ℕ)
    → b.input_buffer
      ≡ bytes_of (read b (MaxSize.at_most n)).0 ++ (read b (MaxSize.at_most n)).1.input_buffer
read_splits_lem b n = sym (read_prefix b n).1

pub read_bound_lem :
    (b : BufferedReader) (n : ℕ) → length (bytes_of (read b (MaxSize.at_most n)).0) ≤ n
read_bound_lem b n = rw (read_prefix b n).0 (omega (arith, length-take n b.input_buffer))

take-eq-nil : (n : ℕ) (xs : Bytes) → 0 < n → take n xs ≡ [] → xs ≡ []
take-eq-nil zero xs h e = absurd (omega arith)
take-eq-nil (suc n) [] h e = refl
take-eq-nil (suc n) (x ∷ xs) h e = cc

pub read_progress_lem :
    (b : BufferedReader) (n : ℕ)
    → 0 < n
    → bytes_of (read b (MaxSize.at_most n)).0 ≡ []
    → b.input_buffer ≡ []
read_progress_lem b n h e = take-eq-nil n b.input_buffer h (sym (read_prefix b n).0 ∙ e)

-- The buffered reader as a channel.
abbrev pub reader_channel : Channel
reader_channel = record {
  State = BufferedReader;
  pending = λ b. b.input_buffer;
  read = read;
  read_splits = read_splits_lem;
  read_bound = read_bound_lem;
  read_progress = read_progress_lem;
}
