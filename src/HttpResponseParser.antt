-- ===== src/HttpResponseParser.antt =====
-- libschnee/schnee/net/http/impl/HttpResponseParser.cpp and .h: responses out of the bytes that come
-- in. `lexical_cast` is boost's, an argument. Numbers of `sscanf` are unbounded: what it does with
-- one that does not fit is undefined.
pub mod Consume
pub mod Lines
pub mod Termination
pub mod Hang
pub mod Chunks
pub mod Partial
mod Tests
use schneeflocke.Base.{
  ℕ, zero, suc, ◌+◌, ◌-◌, ◌*◌, ◌==◌, ◌&&◌, ◌||◌, Bool, true, false, not, Option, none, some, List,
  [], ◌∷◌, ◌++◌, if◌then◌else◌, ltb, leb, Bytes, codes, same, Map, lookup, insert, length, take,
  drop,
}
use schneeflocke.Base.Int.{ℤ, pos, negsuc}
use schneeflocke.Error.{Error}
use schneeflocke.PathName.{find}

pub data HttpVersion : Type 0 where
  http_unknown http_10 http_11 : HttpVersion

pub data State : Type 0 where
  start in_headers in_content chunk_begin in_chunk in_footers : State

-- The parser, with the response it fills.
pub record Parser : Type 0 where
  pub ready : Bool
  pub result : Error
  pub state : State
  pub next_scan : ℕ
  pub content_length : ℕ
  pub content_length_set : Bool
  pub chunked : Bool
  pub input : Bytes
  pub result_code : ℤ
  pub http_version : HttpVersion
  pub headers : Map Bytes
  pub content : Option Bytes

-- The constructor leaves `mChunkedEncoding` as the memory was.
abbrev pub new_parser : Bool → Parser
new_parser memory = record {
  ready = false;
  result = Error.no_error;
  state = State.start;
  next_scan = 0;
  content_length = 0;
  content_length_set = false;
  chunked = memory;
  input = [];
  result_code = pos 0;
  http_version = HttpVersion.http_unknown;
  headers = [];
  content = none;
}

-- Where the scan for the end of a line stops: at a zero, at the end of a line and behind it, or
-- before the last byte.
pub data Scan : Type 0 where
  bad_at : ℕ → Scan
  line_at : ℕ → ℕ → Scan
  more_at : ℕ → Scan

unfoldable pub scan_line : ℕ → Bytes → Scan
scan_line i [] = more_at i
scan_line i (c ∷ []) = more_at i
scan_line i (c ∷ d ∷ rest) =
    let later = scan_line (suc i) (d ∷ rest) in
    if c == 0
    then bad_at i
    else if c == b'\n' || (c == b'\r' && d == b'\n')
    then line_at i (if c == b'\r' then i + 2 else i + 1)
    else later

-- The result, and the line: the one before if the scan is at a zero.
unfoldable pub consume_line : Bytes → Parser → Bool × Bytes × Parser
unfolding scan_line
consume_line line p = elim (scan_line p.next_scan (drop p.next_scan p.input)) [
  | bad_at i ↦ (true, line, record p { ready = true; result = Error.bad_protocol; next_scan = i })
  | line_at i skip ↦ (true, take i p.input, record p { input = drop skip p.input; next_scan = 0 })
  | more_at i ↦ (false, line, record p { next_scan = i })
]

unfoldable pub fail : Error → Parser → Parser
fail e p = record p { ready = true; result = e }

-- `isspace`.
is_space : ℕ → Bool
is_space c = c == b' ' || (leb 9 c && leb c 13)

skip_space : Bytes → Bytes
unfolding is_space
skip_space [] = []
skip_space (c ∷ s) = let rest = skip_space s in if is_space c then rest else c ∷ s

digit : ℕ → Option ℕ
digit c = if leb b'0' c && leb c b'9' then some (c - b'0') else none

hex_digit : ℕ → Option ℕ
unfolding digit
hex_digit c =
    if leb b'a' c && leb c b'f'
    then some (c - 87)
    else if leb b'A' c && leb c b'F'
    then some (c - 55)
    else digit c

-- The digits at the front, after `n`.
digits : (ℕ → Option ℕ) → ℕ → ℕ → Bytes → ℕ
digits value base n [] = n
digits value base n (c ∷ s) = elim (value c) [
  | none ↦ n
  | some d ↦ digits value base (base * n + d) s
]

number : (ℕ → Option ℕ) → ℕ → Bytes → Option ℕ
unfolding digits
number value base [] = none
number value base (c ∷ s) = elim (value c) [ none ↦ none | some d ↦ some (digits value base d s) ]

to_ℤ : Bool → ℕ → ℤ
to_ℤ true zero = pos 0
to_ℤ true (suc n) = negsuc n
to_ℤ false n = pos n

sign : Bytes → Bool × Bytes
sign [] = (false, [])
sign (c ∷ s) = if c == b'-' then (true, s) else if c == b'+' then (false, s) else (false, c ∷ s)

-- `%d`.
scan_decimal : Bytes → Option ℤ
unfolding skip_space sign number digit to_ℤ
scan_decimal s =
    let (minus, t) = sign (skip_space s) in
    elim (number digit 10 t) [ none ↦ none | some n ↦ some (to_ℤ minus n) ]

-- What follows a "0x".
hex_prefix : Bytes → Bytes
hex_prefix [] = []
hex_prefix (c ∷ []) = c ∷ []
hex_prefix (c ∷ d ∷ s) = if c == b'0' && (d == b'x' || d == b'X') then s else c ∷ (d ∷ s)

-- `%x`, into an `unsigned int`.
unfoldable pub scan_hex : Bytes → Option ℕ
unfolding skip_space sign number hex_digit hex_prefix
scan_hex s =
    let (minus, t) = sign (skip_space s) in
    elim (number hex_digit 16 (hex_prefix t)) [
      | none ↦ none
      | some n ↦ some (if minus && ltb 0 n then 4294967296 - n else n)
    ]

strip : Bytes → Bytes → Option Bytes
strip [] s = some s
strip (c ∷ p) [] = none
strip (c ∷ p) (d ∷ s) = let rest = strip p s in if c == d then rest else none

-- `sscanf (line, "<protocol> %d", ...)`.
pub scan_status : Bytes → Bytes → Option ℤ
unfolding strip scan_decimal skip_space
scan_status protocol line = elim (strip protocol line) [ none ↦ none | some s ↦ scan_decimal s ]

skip_blanks : Bytes → Bytes
skip_blanks [] = []
skip_blanks (c ∷ s) = let rest = skip_blanks s in if c == b' ' then rest else c ∷ s

unfoldable pub split_header : Bytes → Option (Bytes × Bytes)
unfolding skip_blanks
split_header s = elim (find b':' s) [
  | none ↦ none
  | some i ↦ elim (skip_blanks (drop (suc i) s)) [
    | [] ↦ none
    | c ∷ v ↦ if c == 0 then none else some (take i s, c ∷ v)
  ]
]
