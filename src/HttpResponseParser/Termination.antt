-- ===== src/HttpResponseParser/Termination.antt =====
-- When `consume` returns, and when not.
use schneeflocke.Base.{
  ℕ, zero, suc, ◌≤◌, ◌<◌, ◌==◌, ◌||◌, ◌≡◌, ◌≢◌, refl, sym, ap, ◌∙◌, subst, ◌⊎◌, inl, inr, Bool,
  true, false, not, Bool-cases, Option, some, [], ◌∷◌, ◌++◌, ltb, ltb→lt, Bytes, length, drop,
  length-drop, All, arith,
}
use schneeflocke.Error.{Error}
use schneeflocke.HttpResponseParser.{State, Parser, Scan, scan_line, consume_line, fail}
use schneeflocke.HttpResponseParser.Consume.{
  Round, with_line, is_empty, started, start_line, header_line, read_length, read_encoding,
  in_content, chunk_line, round, consume, push, footer_line,
}

unfoldable pub NoZero : Bytes → Type 0
NoZero = All (λ c. (c == 0) ≡ false)

drop-NoZero : (n : ℕ) (s : Bytes) → NoZero s → NoZero (drop n s)
unfolding NoZero
drop-NoZero zero s h = h
drop-NoZero (suc n) [] h = h
drop-NoZero (suc n) (c ∷ s) (_, h) = drop-NoZero n s h

scan_line-line_at :
    (s : Bytes) (i j k : ℕ) → scan_line i s ≡ Scan.line_at j k → (i < k) × (0 < length s)
unfolding scan_line
scan_line-line_at [] i j k e = ground arith
scan_line-line_at (c ∷ []) i j k e = ground arith
scan_line-line_at (c ∷ d ∷ s) i j k e =
    (ground (arith, (scan_line-line_at (d ∷ s) (suc i) j k)), omega arith)

-- Without a zero the scan finds none.
scan_line-bad_at : (s : Bytes) (i j : ℕ) → NoZero s → scan_line i s ≢ Scan.bad_at j
unfolding scan_line NoZero
scan_line-bad_at [] i j h = ground arith
scan_line-bad_at (c ∷ []) i j h = ground arith
scan_line-bad_at (c ∷ d ∷ s) i j (nonzero, h) =
    ground (arith, nonzero, scan_line-bad_at (d ∷ s) (suc i) j h)

Scan-cases :
    (x : Scan)
    → ((i : ℕ) × (x ≡ Scan.bad_at i))
      ⊎ (((i : ℕ) × (k : ℕ) × (x ≡ Scan.line_at i k)) ⊎ ((i : ℕ) × (x ≡ Scan.more_at i)))
Scan-cases (Scan.bad_at i) = inl (i, refl)
Scan-cases (Scan.line_at i k) = inr (inl (i, k, refl))
Scan-cases (Scan.more_at i) = inr (inr (i, refl))

abbrev scanned : Parser → Scan
scanned p = scan_line p.next_scan (drop p.next_scan p.input)

-- A line found takes something off the input.
consume_line-shorter :
    (line : Bytes) (p : Parser)
    → NoZero p.input
    → (consume_line line p).0 ≡ true
    → length (consume_line line p).2.input < length p.input
unfolding consume_line
consume_line-shorter line p h got = elim (Scan-cases (scanned p)) [
  | inl (i, bad) ↦ absurd (scan_line-bad_at _ _ i (drop-NoZero p.next_scan p.input h) bad)
  | inr (inr (i, more)) ↦ ground (arith, more, got)
  | inr (inl (i, k, found)) ↦
      let (behind, some_left) =
        scan_line-line_at (drop p.next_scan p.input) p.next_scan i k found in
      ground
        (arith, found, behind, some_left, length-drop k p.input, length-drop p.next_scan p.input)
]

consume_line-NoZero :
    (line : Bytes) (p : Parser) → NoZero p.input → NoZero (consume_line line p).2.input
unfolding consume_line
consume_line-NoZero line p h = elim (Scan-cases (scanned p)) [
  | inl (i, bad) ↦ subst (λ (s : Bytes). NoZero s) {x = p.input} (ground (arith, bad)) h
  | inr (inr (i, more)) ↦ subst (λ (s : Bytes). NoZero s) {x = p.input} (ground (arith, more)) h
  | inr (inl (i, k, found)) ↦
      subst (λ (s : Bytes). NoZero s) {x = drop k p.input} (ground (arith, found))
        (drop-NoZero k p.input h)
]

-- A chunk that is awaited has a length.
unfoldable pub chunk_ok : State → ℕ → Bool
chunk_ok State.in_chunk n = ltb 0 n
chunk_ok _ n = true

consume_line-chunk_ok :
    (line : Bytes) (p : Parser)
    → chunk_ok (consume_line line p).2.state (consume_line line p).2.content_length
      ≡ chunk_ok p.state p.content_length
unfolding consume_line
consume_line-chunk_ok line p = ground arith

start_line-again :
    (l m : Bytes) (p q : Parser)
    → chunk_ok p.state p.content_length ≡ true
    → start_line l p ≡ Round.again m q
    → (q.input ≡ p.input) × (chunk_ok q.state q.content_length ≡ true)
unfolding start_line started fail chunk_ok
start_line-again l m p q h e = ground arith

chunk_line-again :
    (l m : Bytes) (p q : Parser)
    → chunk_ok p.state p.content_length ≡ true
    → chunk_line l p ≡ Round.again m q
    → (q.input ≡ p.input) × (chunk_ok q.state q.content_length ≡ true)
unfolding chunk_line fail chunk_ok is_empty
chunk_line-again l m p q h e = ground arith

footer_line-again :
    (l m : Bytes) (p q : Parser)
    → chunk_ok p.state p.content_length ≡ true
    → footer_line l p ≡ Round.again m q
    → (q.input ≡ p.input) × (chunk_ok q.state q.content_length ≡ true)
unfolding footer_line
footer_line-again [] m p q h e = ground arith
footer_line-again (c ∷ l) m p q h e = ground arith

-- What every round that goes on keeps, with less input.
record Goes (p q : Parser) : Type 0 where
  shorter : length q.input < length p.input
  nonzero : NoZero q.input
  ok : chunk_ok q.state q.content_length ≡ true

line-Goes :
    (line : Bytes) (p q : Parser)
    → NoZero p.input
    → (consume_line line p).0 ≡ true
    → (q.input ≡ (consume_line line p).2.input) × (chunk_ok q.state q.content_length ≡ true)
    → Goes p q
line-Goes line p q h got (same, ok) = record {
  shorter = omega (arith, consume_line-shorter line p h got, ap (λ (s : Bytes). length s) same);
  nonzero = subst (λ (s : Bytes). NoZero s) (sym same) (consume_line-NoZero line p h);
  ok = ok;
}

with_line-Goes :
    (line l : Bytes) (p q : Parser) (k : Bytes → Parser → Round)
    → ((m n : Bytes) (r t : Parser)
        → chunk_ok r.state r.content_length ≡ true
        → k m r ≡ Round.again n t
        → (t.input ≡ r.input) × (chunk_ok t.state t.content_length ≡ true))
    → NoZero p.input
    → chunk_ok p.state p.content_length ≡ true
    → with_line line p k ≡ Round.again l q
    → Goes p q
unfolding with_line
with_line-Goes line l p q k keeps h ok e =
    elim (Bool-cases (not (consume_line line p).0 || (consume_line line p).2.ready)) [
      | inl stop ↦ ground (arith, stop, e)
      | inr go ↦ line-Goes line p q h (ground (arith, go)) (
          keeps (consume_line line p).1 l (consume_line line p).2 q
            (consume_line-chunk_ok line p ∙ ok) (ground (arith, go, e)))
    ]

Round-cases :
    (x : Round)
    → ((q : Parser) × (x ≡ Round.done q)) ⊎ ((l : Bytes) × (q : Parser) × (x ≡ Round.again l q))
Round-cases (Round.done q) = inl (q, refl)
Round-cases (Round.again l q) = inr (l, q, refl)

ltb_false→le : (a b : ℕ) → ltb a b ≡ false → b ≤ a
ltb_false→le a b h = ground arith

in_chunk-Goes :
    (line l : Bytes) (p q : Parser)
    → NoZero p.input
    → ltb 0 p.content_length ≡ true
    → ltb (length p.input) p.content_length ≡ false
    → Round.again line (record (in_content p) { state = State.chunk_begin }) ≡ Round.again l q
    → Goes p q
unfolding in_content chunk_ok
in_chunk-Goes line l p q h size full e =
    let input : q.input ≡ drop p.content_length p.input = ground (arith, e) in
    let awaits : q.state ≡ State.chunk_begin = ground (arith, e) in
    record {
      shorter = omega (
        arith,
        ltb→lt 0 p.content_length size,
        ltb_false→le (length p.input) p.content_length full,
        length-drop p.content_length p.input,
        ap (λ (s : Bytes). length s) input,
      );
      nonzero =
          subst (λ (s : Bytes). NoZero s) (sym input) (drop-NoZero p.content_length p.input h);
      ok = ap (λ (s : State). chunk_ok s q.content_length) awaits;
    }

module _ (lexical_cast : Bytes → Option ℕ) where
  header_line-again :
      (l m : Bytes) (p q : Parser)
      → chunk_ok p.state p.content_length ≡ true
      → header_line lexical_cast l p ≡ Round.again m q
      → (q.input ≡ p.input) × (chunk_ok q.state q.content_length ≡ true)
  unfolding header_line read_length read_encoding fail chunk_ok
  header_line-again [] m p q h e = ground arith
  header_line-again (c ∷ l) m p q h e = ground arith

  round-Goes :
      (st : State) (line l : Bytes) (p q : Parser)
      → NoZero p.input
      → chunk_ok p.state p.content_length ≡ true
      → st ≡ p.state
      → round lexical_cast st line p ≡ Round.again l q
      → Goes p q
  unfolding round chunk_ok
  round-Goes State.start line l p q h ok at e = elim (Bool-cases (is_empty p.input)) [
    | inl empty ↦ ground (arith, empty, e)
    | inr some_input ↦
        with_line-Goes line l p q start_line (λ m n r t. start_line-again m n r t) h ok
          (ground (arith, some_input, e))
  ]
  round-Goes State.in_headers line l p q h ok at e = elim (Bool-cases (is_empty p.input)) [
    | inl empty ↦ ground (arith, empty, e)
    | inr some_input ↦
        with_line-Goes line l p q (header_line lexical_cast) (λ m n r t. header_line-again m n r t)
          h ok (ground (arith, some_input, e))
  ]
  round-Goes State.in_content line l p q h ok at e = ground (arith, e)
  round-Goes State.chunk_begin line l p q h ok at e = elim (Bool-cases (is_empty p.input)) [
    | inl empty ↦ ground (arith, empty, e)
    | inr some_input ↦ elim (Bool-cases (consume_line line p).0) [
      | inr none_found ↦ ground (arith, some_input, none_found, e)
      | inl got ↦ line-Goes line p q h got (
          chunk_line-again (consume_line line p).1 l (consume_line line p).2 q
            (consume_line-chunk_ok line p ∙ ok) (ground (arith, some_input, got, e)))
    ]
  ]
  round-Goes State.in_chunk line l p q h ok at e =
      elim (Bool-cases (ltb (length p.input) p.content_length)) [
        | inl short ↦ ground (arith, short, e)
        | inr full ↦
            let some_size : ltb 0 p.content_length ≡ true =
              subst (λ (s : State). Path Bool (chunk_ok s p.content_length) true) (sym at) ok in
            in_chunk-Goes line l p q h some_size full (ground (arith, full, e))
      ]
  round-Goes State.in_footers line l p q h ok at e =
      with_line-Goes line l p q footer_line (λ m n r t. footer_line-again m n r t) h ok e

  consume-enough :
      (n : ℕ) (line : Bytes) (p : Parser)
      → NoZero p.input
      → chunk_ok p.state p.content_length ≡ true
      → length p.input < n
      → (q : Parser) × (consume lexical_cast n line p ≡ some q)
  unfolding consume
  consume-enough zero line p h ok enough = absurd (omega arith)
  consume-enough (suc n) line p h ok enough =
      elim (Round-cases (round lexical_cast p.state line p)) [
        | inl (q, over) ↦ (q, rw (over, consume) refl)
        | inr (l, q, goes) ↦
            let g = round-Goes p.state line l p q h ok refl goes in
            let (r, e) = consume-enough n l q g.nonzero g.ok (omega (arith, g.shorter)) in
            (r, rw (goes, consume) e)
      ]

  -- Bytes without a zero come in, to a parser that does not wait for an empty chunk: `push`
  -- returns, after one round for each byte of the buffer and one more at the most.
  pub push-returns :
      (more : Bytes) (p : Parser)
      → NoZero (p.input ++ more)
      → chunk_ok p.state p.content_length ≡ true
      → (q : Parser) × (push lexical_cast (suc (length (p.input ++ more))) more p ≡ some q)
  unfolding push
  push-returns more p h ok = elim (Bool-cases (ltb 16777216 (length (p.input ++ more)))) [
    | inl long ↦
        (record p { ready = true; result = Error.too_much; input = p.input ++ more }, rw long refl)
    | inr fits ↦
        let (q, e) =
          consume-enough (suc (length (p.input ++ more))) [] (record p { input = p.input ++ more })
            h ok (omega arith) in
        (q, rw fits e)
  ]
