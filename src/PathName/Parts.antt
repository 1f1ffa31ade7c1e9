-- ===== src/PathName/Parts.antt =====
-- A path and its parts.
use schneeflocke.Base.{
  ℕ, zero, suc, ◌==◌, ◌≡◌, refl, ap, ◌⊎◌, inl, inr, ==_iff, Bool-cases, Option-cases, true, false,
  none, some, [], ◌∷◌, ◌++◌, if◌then◌else◌, arith, Bytes, take, drop,
}
use schneeflocke.PathName.{slash, find, head, sub_path, has_sub_path}

-- A character found at the front is the front.
find_zero : (c x : ℕ) (p : Bytes) → find c (x ∷ p) ≡ some 0 → x ≡ c
unfolding find
find_zero c x p e = elim (Bool-cases (x == c)) [
  | inl here ↦ (==_iff x c).0 here
  | inr later ↦ elim (Option-cases (find c p)) [
    | inl missing ↦ ground arith
    | inr (j, found) ↦ ground arith
  ]
]

-- One found later is not the front, and stands in the rest.
find-suc :
    (c x : ℕ) (p : Bytes) (i : ℕ)
    → find c (x ∷ p) ≡ some (suc i)
    → ((x == c) ≡ false) × (find c p ≡ some i)
unfolding find
find-suc c x p i e = elim (Bool-cases (x == c)) [
  | inl here ↦ ground arith
  | inr later ↦ elim (Option-cases (find c p)) [
    | inl missing ↦ ground arith
    | inr (j, found) ↦ ground arith
  ]
]

-- Where the first character stands, the text splits, and before it there is none.
find-some :
    (c : ℕ) (p : Bytes) (i : ℕ)
    → find c p ≡ some i
    → (p ≡ take i p ++ (c ∷ drop (suc i) p)) × (find c (take i p) ≡ none)
unfolding find
find-some c [] i e = cc
find-some c (x ∷ p) zero e = (ap (λ y. y ∷ p) (find_zero c x p e), refl)
find-some c (x ∷ p) (suc i) e =
    let (later, found) = find-suc c x p i e in
    let (splits, before) = find-some c p i found in (ap (λ q. x ∷ q) splits, ground arith)

-- The head has no slash. With a sub path, the path is the head, a slash and the sub path; without
-- one it is the head, and the sub path is empty.
pub head-sub_path :
    (p : Bytes)
    → (find slash (head p) ≡ none)
      × (p ≡ (if has_sub_path p then head p ++ (slash ∷ sub_path p) else head p))
      × ((has_sub_path p ≡ true) ⊎ (sub_path p ≡ []))
unfolding head sub_path has_sub_path
head-sub_path p = elim (Option-cases (find slash p)) [
  | inl missing ↦ (ground arith, ground arith, ground arith)
  | inr (i, found) ↦
      let (splits, before) = find-some slash p i found in
      (ground arith, ground arith, inl (ground arith))
]
