-- ===== src/Range.antt =====
-- The `Range` of libschnee/schnee/p2p/DataSharingElements.h: bytes `from` up to `to`, in `int64_t`.
mod Tests
use schneeflocke.Base.{
  ℕ, suc, ◌+◌, ◌-◌, ◌≤◌, ◌≡◌, refl, ◌⊎◌, Bool, true, false, ◌&&◌, arith, leb, ◌==◌, if◌then◌else◌,
}
use schneeflocke.Base.Int.{
  ℤ, pos, negsuc, pos_part, neg_part, sub_ℕ, ◌-ℤ◌, ◌≤ℤ◌, leb_ℤ, ltb_ℤ, eq_ℤ, eq_ℤ_iff,
}

pub record Range : Type 0 where
  pub from : ℤ
  pub to : ℤ

-- Both ends 0, the range of a default request, as the commented-out member of the struct has it;
-- the one that is called is generated.
unfoldable pub is_default : Range → Bool
is_default r = eq_ℤ r.from (pos 0) && eq_ℤ r.to (pos 0)

unfoldable pub is_valid : Range → Bool
is_valid r = leb_ℤ (pos 0) r.from && (leb_ℤ (pos 0) r.to && leb_ℤ r.from r.to)

unfoldable pub range_length : Range → ℤ
range_length r = r.to -ℤ r.from

unfoldable pub in_range : Range → Range → Bool
unfolding is_valid
in_range a r = is_valid a && (leb_ℤ r.from a.from && leb_ℤ a.to r.to)

clip : ℤ → Range → ℤ
clip x r = if ltb_ℤ x r.from then r.from else if ltb_ℤ r.to x then r.to else x

unfoldable pub clip_to : Range → Range → Range
unfolding clip
clip_to a r = record { from = clip a.from r; to = clip a.to r }

-- Clipping a valid range to a valid one gives a range inside it, and keeps a range that is inside.
pub clip_to-in_range :
    (a r : Range)
    → is_valid a ≡ true
    → is_valid r ≡ true
    → (in_range (clip_to a r) r ≡ true) × ((in_range a r ≡ false) ⊎ (clip_to a r ≡ a))
unfolding is_valid in_range clip_to
clip_to-in_range a r h k = ground arith
