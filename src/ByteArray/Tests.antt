-- ===== src/ByteArray/Tests.antt =====
-- The byte array at concrete arrays.
use schneeflocke.Base.{◌≡◌, refl, true, false, [], ◌∷◌, ◌++◌, codes, same}
use schneeflocke.ByteArray.{l_truncate, printable}

l_truncate_test : l_truncate 4 (codes "GET /x") ≡ codes "/x"
unfolding l_truncate
l_truncate_test = refl

-- A zero ends a text, and does not stand inside one.
printable_test : printable (codes "ok\n" ++ (0 ∷ [])) ≡ true
unfolding printable same
printable_test = refl

unprintable_test : printable (0 ∷ codes "ok\n") ≡ false
unfolding printable same
unprintable_test = refl
