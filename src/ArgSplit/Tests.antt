-- ===== src/ArgSplit/Tests.antt =====
-- Tests of argSplit.
use schneeflocke.Base.{◌≡◌, refl, List, [], ◌∷◌, Bytes, codes}
use schneeflocke.ArgSplit.{arg_split, split_char, split_chars, push_built, add_char}
use schneeflocke.ArgSplit.RoundTrip.{line, arg_split-line}

abbrev words : List Bytes
words = codes "say" ∷ codes "a b" ∷ (b'"' ∷ []) ∷ []

plain_example : arg_split (codes "say  a b") ≡ codes "say" ∷ codes "a" ∷ codes "b" ∷ []
unfolding arg_split split_char split_chars push_built add_char
plain_example = refl

arg_split-line_example : arg_split (line words) ≡ words
arg_split-line_example = arg_split-line words (cc, (cc, (cc, tt)))
