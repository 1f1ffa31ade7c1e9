-- ===== src/Base/Ids.antt =====
-- `std::map` from numbers, in the order of its keys.
use Prim.Native.Nat.{ℕ, ◌≤◌}
use mathlib.Core.Path.{◌≡◌, refl}
use mathlib.Core.Logic.{inl, inr}
use mathlib.Core.List.{List, [], ◌∷◌}
use mathlib.Core.Option.{Option, none, some}
use native.Mathlib.Omega.{arith}
use schneeflocke.Base.Tests.{◌==◌, ltb, if◌then◌else◌, Option-cases}

pub record Numbered (V : Type 0) : Type 0 where
  pub key : ℕ
  pub value : V

abbrev pub IdMap : Type 0 → Type 0
IdMap V = List (Numbered V)

module _ {V : Type 0} where
  unfoldable pub find : ℕ → IdMap V → Option V
  find k [] = none
  find k (e ∷ m) = if e.key == k then some e.value else find k m

  unfoldable pub put : ℕ → V → IdMap V → IdMap V
  put k v [] = record { key = k; value = v } ∷ []
  put k v (e ∷ m) =
      let rest = put k v m in
      if e.key == k
      then record { key = k; value = v } ∷ m
      else if ltb k e.key
      then record { key = k; value = v } ∷ e ∷ m
      else e ∷ rest

  unfoldable pub remove : ℕ → IdMap V → IdMap V
  remove k [] = []
  remove k (e ∷ m) = let rest = remove k m in if e.key == k then rest else e ∷ rest

  -- `rbegin`, the entry with the highest key.
  unfoldable pub highest : IdMap V → Option (Numbered V)
  highest [] = none
  highest (e ∷ m) = elim (highest m) [
    | none ↦ some e
    | some b ↦ if ltb e.key b.key then some b else some e
  ]

  pub find-put :
      (k j : ℕ) (v : V) (m : IdMap V) → find j (put k v m) ≡ (if k == j then some v else find j m)
  unfolding find put
  find-put k j v [] = refl
  find-put k j v (e ∷ m) = ground (arith, find-put k j v m)

  pub find-remove :
      (k j : ℕ) (m : IdMap V) → find j (remove k m) ≡ (if k == j then none else find j m)
  unfolding find remove
  find-remove k j [] = ground arith
  find-remove k j (e ∷ m) = ground (arith, find-remove k j m)

  pub highest-find :
      (m : IdMap V) (e : Numbered V) → highest m ≡ some e → find e.key m ≡ some e.value
  unfolding find highest
  highest-find [] e h = cc
  highest-find (x ∷ m) e h = elim (Option-cases (highest m)) [
    | inl none_left ↦ ground (arith, none_left, h)
    | inr (b, found) ↦ ground (arith, found, h, highest-find m b found)
  ]

  pub absent_of_empty : (m : IdMap V) → highest m ≡ none → (k : ℕ) → find k m ≡ none
  unfolding find highest
  absent_of_empty [] h k = refl
  absent_of_empty (x ∷ m) h k = ground (arith, h)

  pub highest-le :
      (m : IdMap V) (e : Numbered V) (k : ℕ) (v : V)
      → highest m ≡ some e
      → find k m ≡ some v
      → k ≤ e.key
  unfolding find highest
  highest-le [] e k v h f = cc
  highest-le (x ∷ m) e k v h f = elim (Option-cases (highest m)) [
    | inl none_left ↦ ground (arith, none_left, h, f, absent_of_empty m none_left k)
    | inr (b, found) ↦ ground (arith, found, h, f, highest-le m b k v found)
  ]
