-- ===== src/ArgSplit/RoundTrip.antt =====
-- Arguments written in quotes are read back.
use schneeflocke.Base.{
  ℕ, ◌==◌, ◌≡◌, ◌≢◌, refl, ap, sym, ◌∙◌, inl, inr, Bool-cases, true, false, List, [], ◌∷◌, ◌++◌,
  append_assoc, append-nil, if◌then◌else◌, Bytes, All, arith,
}
use schneeflocke.ArgSplit.{State, push_built, add_char, split_char, split_chars, arg_split}

-- A quote and a backslash get a backslash in front.
unfoldable pub escape_char : ℕ → Bytes
escape_char c =
    if c == b'"' then b'\\' ∷ b'"' ∷ [] else if c == b'\\' then b'\\' ∷ b'\\' ∷ [] else c ∷ []

unfoldable pub escape : Bytes → Bytes
unfolding escape_char
escape [] = []
escape (c ∷ cs) = escape_char c ++ escape cs

unfoldable pub enclose : Bytes → Bytes
unfolding escape
enclose a = b'"' ∷ (escape a ++ (b'"' ∷ []))

unfoldable pub line : List Bytes → Bytes
line [] = []
line (a ∷ rest) = enclose a ++ (b' ' ∷ line rest)

split_chars-append :
    (a b : Bytes) (s : State) → split_chars (a ++ b) s ≡ split_chars b (split_chars a s)
unfolding split_chars
split_chars-append [] b s = refl
split_chars-append (c ∷ a) b s = split_chars-append a b (split_char c s)

abbrev inside : Bytes → List Bytes → State
inside build args = record { quoted = true; escaped = false; build = build; args = args }

split-escape_char :
    (c : ℕ) (build : Bytes) (args : List Bytes)
    → split_chars (escape_char c) (inside build args) ≡ inside (build ++ (c ∷ [])) args
unfolding split_chars split_char add_char escape_char
split-escape_char c build args = elim (Bool-cases (c == b'"')) [
  | inl quote ↦ ground (arith, quote)
  | inr other ↦ elim (Bool-cases (c == b'\\')) [
    | inl backslash ↦ ground (arith, other, backslash)
    | inr plain ↦ elim (Bool-cases (c == b' ')) [
      | inl space ↦ ground (arith, space)
      | inr letter ↦ ground (arith, other, plain, letter)
    ]
  ]
]

split-escape :
    (a build : Bytes) (args : List Bytes)
    → split_chars (escape a) (inside build args) ≡ inside (build ++ a) args
unfolding split_chars escape
split-escape [] build args = ap (λ (b : Bytes). inside b args) (sym (append-nil build))
split-escape (c ∷ a) build args =
    split_chars-append (escape_char c) (escape a) (inside build args)
    ∙ ap (split_chars (escape a)) (split-escape_char c build args)
    ∙ split-escape a (build ++ (c ∷ [])) args
    ∙ ap (λ (b : Bytes). inside b args) (append_assoc build (c ∷ []) a)

abbrev between : Bytes → List Bytes → State
between build args = record { quoted = false; escaped = false; build = build; args = args }

split-enclose :
    (a : Bytes) (args : List Bytes) → split_chars (enclose a) (between [] args) ≡ between a args
unfolding split_chars split_char enclose
split-enclose a args =
    split_chars-append (escape a) (b'"' ∷ []) (inside [] args)
    ∙ ap (split_chars (b'"' ∷ [])) (split-escape a [] args)

split-space :
    (a : Bytes) (args : List Bytes)
    → a ≢ []
    → split_char b' ' (between a args) ≡ between [] (args ++ (a ∷ []))
unfolding split_char push_built
split-space [] args some_char = absurd (some_char refl)
split-space (c ∷ a) args some_char = refl

split-line :
    (words : List Bytes) (args : List Bytes)
    → All (λ a. a ≢ []) words
    → split_chars (line words) (between [] args) ≡ between [] (args ++ words)
unfolding split_chars line
split-line [] args some_chars = ap (between []) (sym (append-nil args))
split-line (a ∷ rest) args (some_char, some_chars) =
    split_chars-append (enclose a) (b' ' ∷ line rest) (between [] args)
    ∙ ap (split_chars (b' ' ∷ line rest)) (split-enclose a args)
    ∙ ap (split_chars (line rest)) (split-space a args some_char)
    ∙ split-line rest (args ++ (a ∷ [])) some_chars
    ∙ ap (between []) (append_assoc args (a ∷ []) rest)

-- Arguments of at least one character each, whatever the characters, written in quotes with a
-- backslash before each quote and backslash, and a space behind each argument, are read back.
pub arg_split-line : (words : List Bytes) → All (λ a. a ≢ []) words → arg_split (line words) ≡ words
unfolding arg_split push_built
arg_split-line words some_chars = ap push_built (split-line words [] some_chars)
