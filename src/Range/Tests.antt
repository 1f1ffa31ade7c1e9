-- ===== src/Range/Tests.antt =====
-- A range clipped to a file of ten bytes.
use schneeflocke.Base.{◌≡◌, refl}
use schneeflocke.Base.Int.{pos}
use schneeflocke.Range.{Range, clip_to}

abbrev wanted : Range
wanted = record { from = pos 4; to = pos 20 }

abbrev whole : Range
whole = record { from = pos 0; to = pos 10 }

clip_to_test : clip_to wanted whole ≡ record { from = pos 4; to = pos 10 }
unfolding clip_to
clip_to_test = refl
