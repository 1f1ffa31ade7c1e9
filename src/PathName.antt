-- ===== src/PathName.antt =====
-- libschnee/schnee/tools/Path.cpp and Path.h: a path is its string; a slash separates its parts.
-- `boost::replace_all` is not the repository's: the functions that use it take it as an argument.
pub mod Parts
mod Tests
use mathlib.Core.List.{reverse}
use mathlib.Core.Option
use schneeflocke.Base.{
  ℕ, zero, suc, ◌+◌, ◌-◌, ◌==◌, Bool, true, false, ◌&&◌, Option, none, some, List, [], ◌∷◌, ◌++◌,
  if◌then◌else◌, leb, Bytes, length, take, drop, get_or,
}

abbrev pub slash : ℕ
slash = b'/'

-- `std::string::find (c)`, the first place of a character.
unfoldable pub find : ℕ → Bytes → Option ℕ
find c [] = none
find c (x ∷ p) = if x == c then some 0 else Option.map suc (find c p)

-- `std::string::rfind (c)`, the last one.
unfoldable pub rfind : ℕ → Bytes → Option ℕ
rfind c [] = none
rfind c (x ∷ p) = elim (rfind c p) [
  | some i ↦ some (suc i)
  | none ↦ if x == c then some 0 else none
]

unfoldable pub head : Bytes → Bytes
head p = elim (find slash p) [ none ↦ p | some i ↦ take i p ]

unfoldable pub tail : Bytes → Bytes
tail p = elim (rfind slash p) [ none ↦ p | some i ↦ drop (suc i) p ]

unfoldable pub sub_path : Bytes → Bytes
sub_path p = elim (find slash p) [ none ↦ [] | some i ↦ drop (suc i) p ]

unfoldable pub has_sub_path : Bytes → Bool
has_sub_path p = elim (find slash p) [ none ↦ false | some _ ↦ true ]

-- The slashes that a walk from the back meets first.
leading_slashes : Bytes → ℕ
leading_slashes [] = 0
leading_slashes (x ∷ p) = if x == slash then suc (leading_slashes p) else 0

unfoldable pub remove_trailing_slashes : Bytes → Bytes
unfolding leading_slashes
remove_trailing_slashes p = take (length p - leading_slashes (reverse p)) p

-- The test of the loop: the path ends in "/.".
ends_in_dot : Bytes → Bool
ends_in_dot p =
    leb 2 (length p) && (get_or p (length p - 2) 0 == slash && get_or p (length p - 1) 0 == b'.')

-- Each round takes two characters off.
strip_dots : ℕ → Bytes → Bytes
unfolding ends_in_dot
strip_dots zero p = p
strip_dots (suc fuel) p =
    let shorter = strip_dots fuel (take (length p - 2) p) in if ends_in_dot p then shorter else p

module _ (replace_all : Bytes → Bytes → Bytes → Bytes) where
  unfoldable pub shrink : Bytes → Bytes
  shrink p = replace_all p (slash ∷ slash ∷ []) (slash ∷ [])

  unfoldable pub normalize : Bytes → Bytes
  unfolding shrink remove_trailing_slashes strip_dots
  normalize p = let q = remove_trailing_slashes (shrink p) in strip_dots (length q) q

  -- `operator+`.
  unfoldable pub join : Bytes → Bytes → Bytes
  unfolding shrink
  join a b = shrink (a ++ (slash ∷ b))
