-- ===== src/HttpResponseParser/Consume.antt =====
-- `HttpResponseParser::consume` and `push`.
use schneeflocke.Base.{
  ℕ, zero, suc, ◌&&◌, ◌||◌, Bool, true, false, not, Option, none, some, [], ◌∷◌, ◌++◌,
  if◌then◌else◌, ltb, Bytes, codes, same, lookup, insert, length, take, drop,
}
use schneeflocke.Base.Int.{ℤ, pos, eq_ℤ}
use schneeflocke.Error.{Error}
use schneeflocke.HttpResponseParser.{
  HttpVersion, State, Parser, consume_line, fail, scan_hex, scan_status, split_header,
}

-- A round of the loop: `again` is a `break` out of the `switch`, with the line; `done` a `return`.
pub data Round : Type 0 where
  again : Bytes → Parser → Round
  done : Parser → Round

unfoldable pub is_empty : Bytes → Bool
is_empty [] = true
is_empty (_ ∷ _) = false

-- `if (!suc || mReady) return`.
unfoldable pub with_line : Bytes → Parser → (Bytes → Parser → Round) → Round
unfolding consume_line
with_line line p k =
    let (got, l, q) = consume_line line p in if not got || q.ready then done q else k l q

unfoldable pub started : HttpVersion → ℤ → Bytes → Parser → Round
started version code l q =
    let r = record q { result_code = code; http_version = version } in
    again l (if eq_ℤ code (pos 100) then r else record r { state = State.in_headers })

unfoldable pub start_line : Bytes → Parser → Round
unfolding started fail
start_line l q = elim (scan_status (codes "HTTP/1.0") l) [
  | some n ↦ started HttpVersion.http_10 n l q
  | none ↦ elim (scan_status (codes "HTTP/1.1") l) [
    | some n ↦ started HttpVersion.http_11 n l q
    | none ↦ done (fail Error.bad_protocol q)
  ]
]

unfoldable pub is_chunked : Bytes → Bool
is_chunked te =
    same te (codes "chunked") || (same te (codes "Chunked") || same te (codes "CHUNKED"))

unfoldable pub in_content : Parser → Parser
in_content q =
    let size = q.content_length in
    elim q.content [
      | none ↦ record q { content = some (take size q.input); input = drop size q.input }
      | some old ↦ record q { content = some (old ++ take size q.input); input = drop size q.input }
    ]

-- `in_content` of the code replaces what was there.
unfoldable pub all_content : Parser → Parser
unfolding in_content
all_content q = record (in_content (record q { content = none })) {
  ready = true;
  result = Error.no_error;
}

unfoldable pub chunk_line : Bytes → Parser → Round
unfolding fail
chunk_line l q = if is_empty l then again l q else elim (scan_hex l) [
  | none ↦ done (fail Error.bad_protocol q)
  | some zero ↦ again l (record q { state = State.in_footers })
  | some (suc n) ↦ again l (record q { content_length = suc n; state = State.in_chunk })
]

unfoldable pub footer_line : Bytes → Parser → Round
footer_line [] q = done (record q { ready = true })
footer_line (c ∷ l) q = again (c ∷ l) q

module _ (lexical_cast : Bytes → Option ℕ) where
  unfoldable pub read_length : Parser → Parser
  read_length q = elim (lookup (codes "Content-Length") q.headers) [
    | none ↦ q
    | some text ↦ elim (lexical_cast text) [
      | none ↦ q
      | some n ↦ record q { content_length = n; content_length_set = true }
    ]
  ]

  unfoldable pub read_encoding : Parser → Parser
  unfolding is_chunked
  read_encoding q = elim (lookup (codes "Transfer-Encoding") q.headers) [
    | none ↦ q
    | some te ↦ if is_chunked te then record q { chunked = true; state = State.chunk_begin } else q
  ]

  unfoldable pub header_line : Bytes → Parser → Round
  unfolding read_length read_encoding fail
  header_line [] q =
      let r = read_encoding (read_length (record q { state = State.in_content })) in
      if not (r.content_length_set) && not (r.chunked)
      then done (fail Error.bad_protocol r)
      else again [] r
  header_line (c ∷ l) q = elim (split_header (c ∷ l)) [
    | none ↦ done (fail Error.bad_protocol q)
    | some kv ↦ again (c ∷ l) (record q { headers = insert kv.0 kv.1 q.headers })
  ]

  unfoldable pub round : State → Bytes → Parser → Round
  unfolding with_line start_line header_line all_content in_content chunk_line footer_line fail
  round State.start line p = if is_empty p.input then done p else with_line line p start_line
  round State.in_headers line p = if is_empty p.input then done p else with_line line p header_line
  round State.in_content line p =
      if ltb (length p.input) p.content_length then done p else done (all_content p)
  round State.chunk_begin line p =
      let (got, l, q) = consume_line line p in
      if is_empty p.input
      then done p
      else if got
      then chunk_line l q
      else done (fail Error.bad_protocol q)
  round State.in_chunk line p =
      if ltb (length p.input) p.content_length
      then done p
      else again line (record (in_content p) { state = State.chunk_begin })
  round State.in_footers line p = with_line line p footer_line

  -- `while (true)`, at most so many rounds: `none` if they do not suffice.
  unfoldable pub consume : ℕ → Bytes → Parser → Option Parser
  unfolding round
  consume zero line p = none
  consume (suc n) line p = elim (round p.state line p) [
    | done q ↦ some q
    | again l q ↦ consume n l q
  ]

  unfoldable pub push : ℕ → Bytes → Parser → Option Parser
  unfolding consume fail
  push n more p =
      let q = record p { input = p.input ++ more } in
      if ltb 16777216 (length q.input)
      then some (record q { ready = true; result = Error.too_much })
      else consume n [] q
