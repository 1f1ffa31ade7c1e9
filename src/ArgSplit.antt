-- ===== src/ArgSplit.antt =====
-- `argSplit` of libschnee/schnee/tools/ArgSplit.cpp: a command line into its arguments.
mod RoundTrip
mod Tests
use schneeflocke.Base.{
  ℕ, ◌==◌, ◌&&◌, Bool, true, false, not, List, [], ◌∷◌, ◌++◌, if◌then◌else◌, Bytes,
}

-- The variables of the loop: `build` is the argument so far, `args` those that are over.
pub record State : Type 0 where
  pub quoted : Bool
  pub escaped : Bool
  pub build : Bytes
  pub args : List Bytes

abbrev pub empty_state : State
empty_state = record { quoted = false; escaped = false; build = []; args = [] }

-- `push_back`, unless nothing was built.
unfoldable pub push_built : State → List Bytes
push_built s = elim s.build [ [] ↦ s.args | _ ∷ _ ↦ s.args ++ (s.build ∷ []) ]

unfoldable pub add_char : ℕ → State → State
add_char c s = record s { build = s.build ++ (c ∷ []); escaped = false }

-- One round of the loop.
unfoldable pub split_char : ℕ → State → State
unfolding push_built add_char
split_char c s =
    if c == b' ' && not (s.quoted)
    then record s { args = push_built s; build = [] }
    else if c == b'"' && not (s.escaped)
    then record s { quoted = not (s.quoted) }
    else if c == b'"' && s.escaped
    then add_char b'"' s
    else if c == b'\\' && not (s.escaped)
    then record s { escaped = true }
    else if c == b'\\' && s.escaped
    then add_char b'\\' s
    else add_char c s

unfoldable pub split_chars : Bytes → State → State
split_chars [] s = s
split_chars (c ∷ cs) s = split_chars cs (split_char c s)

unfoldable pub arg_split : Bytes → List Bytes
unfolding split_chars push_built
arg_split input = push_built (split_chars input empty_state)
