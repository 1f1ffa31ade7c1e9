-- ===== src/PathName/Tests.antt =====
-- Tests of the paths.
use schneeflocke.Base.{◌≡◌, refl, Bytes, codes}
use schneeflocke.PathName.{rfind, tail, remove_trailing_slashes, strip_dots}

abbrev nested : Bytes
nested = codes "a/b/c"

tail_example : tail nested ≡ codes "c"
unfolding tail rfind
tail_example = refl

trailing_example : remove_trailing_slashes (codes "a/b//") ≡ codes "a/b"
unfolding remove_trailing_slashes
trailing_example = refl

strip_dots_example : strip_dots 5 (codes "a/./.") ≡ codes "a"
unfolding strip_dots
strip_dots_example = refl
