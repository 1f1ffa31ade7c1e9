-- ===== src/ByteArray.antt =====
-- libschnee/schnee/tools/ByteArray.cpp: the byte vector's own operations.
mod Tests
use schneeflocke.Base.{
  ℕ, ◌+◌, ◌-◌, ◌≤◌, ◌<◌, ◌≡◌, refl, sym, ap, ◌∙◌, inl, inr, take_all, Bool, true, false, ◌&&◌, ◌||◌,
  List, [], ◌∷◌, ◌++◌, arith, ltb, ◌==◌, if◌then◌else◌, length, take, drop, length-take,
  length-drop, take-append, Bytes, same_iff, ◌⊎◌, ◌↔◌, Bool-cases, ==_iff, min, same, append_assoc,
  suc, zero,
}

-- `::memmove (dst + 0, dst + pos, n)` inside one buffer.
move_front : ℕ → ℕ → Bytes → Bytes
move_front pos n buffer = take n (drop pos buffer) ++ drop n buffer

pub l_truncate : ℕ → Bytes → Bytes
unfolding move_front
l_truncate pos buffer =
    let before = length buffer in
    let after = before - pos in
    if pos == before then [] else take after (move_front pos after buffer)

pub printable : Bytes → Bool
unfolding same
printable [] = true
printable (c ∷ rest) =
    let later = printable rest in
    if c == b'\t' || c == b'\n' || c == b'\r'
    then later
    else if c == 0x0 && same rest []
    then later
    else if ltb c 0x20
    then false
    else later

drop_all {ℓ} : {A : Type ℓ} (xs : List A) → drop (length xs) xs ≡ []
drop_all [] = refl
drop_all (x ∷ xs) = drop_all xs

-- The moves inside the buffer amount to cutting off the first `pos` bytes.
pub l_truncate-drop :
    (pos : ℕ) (buffer : Bytes) → pos ≤ length buffer → l_truncate pos buffer ≡ drop pos buffer
unfolding l_truncate
l_truncate-drop pos buffer h = elim (Bool-cases (pos == length buffer)) [
  | inl all ↦ rw all (rw ((==_iff pos (length buffer)).0 all) (sym (drop_all buffer)))
  | inr partial ↦ rw partial (
      ap (λ (n : ℕ). take n (take n (drop pos buffer) ++ drop n buffer))
        (sym (length-drop pos buffer))
      ∙ ap
          (λ (xs : Bytes).
            take (length (drop pos buffer)) (xs ++ drop (length (drop pos buffer)) buffer))
          (take_all (length (drop pos buffer)) (drop pos buffer) (omega arith))
      ∙ take-append (drop pos buffer) _)
]

-- What a printed array may hold: text, tabs and line ends, and one zero at the very end.
abbrev pub IsText : Bytes → Type 0
IsText [] = Unit {0}
IsText (c ∷ rest) =
    ((0x20 ≤ c) ⊎ (c ≡ b'\t') ⊎ (c ≡ b'\n') ⊎ (c ≡ b'\r') ⊎ ((c ≡ 0) × (rest ≡ []))) × IsText rest

printable-IsText : (b : Bytes) → printable b ≡ true → IsText b
unfolding printable
printable-IsText [] h = tt
printable-IsText (c ∷ rest) h = ground (arith, same_iff rest [], printable-IsText rest)

IsText-printable : (b : Bytes) → IsText b → printable b ≡ true
unfolding printable
IsText-printable [] h = refl
IsText-printable (c ∷ rest) h = ground (arith, same_iff rest [], IsText-printable rest h.1)

-- An array is printable exactly when each byte is text, or a zero that ends it.
printable_iff : (b : Bytes) → (printable b ≡ true) ↔ IsText b
printable_iff b = (printable-IsText b, IsText-printable b)
