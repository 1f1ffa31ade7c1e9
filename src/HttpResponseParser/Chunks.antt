-- ===== src/HttpResponseParser/Chunks.antt =====
-- Chunked content is put together.
use schneeflocke.Base.{
  ℕ, suc, ◌≡◌, refl, sym, ap, ◌∙◌, subst, ◌||◌, Bool, true, false, not, Option, Option-cases, inl,
  inr, none, some, List, [], ◌∷◌, ◌++◌, append_assoc, append-nil, if◌then◌else◌, ltb, Bytes, codes,
  length, take-append, drop-append, length-append, All, arith,
}
use schneeflocke.Error.{Error}
use schneeflocke.HttpResponseParser.{State, Parser, consume_line, scan_hex, fail}
use schneeflocke.HttpResponseParser.Consume.{
  Round, with_line, is_empty, in_content, chunk_line, footer_line, round, consume, push,
}
use schneeflocke.HttpResponseParser.Lines.{IsClean, clean, crlf, consume_line-clean}

-- The line with a chunk's length, and its bytes.
pub record Chunk : Type 0 where
  pub line : Bytes
  pub first : ℕ
  pub others : Bytes

abbrev pub bytes : Chunk → Bytes
bytes c = c.first ∷ c.others

-- The line tells the length.
pub record IsChunk (c : Chunk) : Type 0 where
  pub clean_line : IsClean c.line
  pub tells : scan_hex c.line ≡ some (suc (length c.others))

-- The chunks, the last line, no footers, and what follows.
unfoldable pub encode_chunks : List Chunk → Bytes → Bytes
encode_chunks [] rest = codes "0" ++ crlf ([] ++ crlf rest)
encode_chunks (c ∷ cs) rest = c.line ++ crlf (bytes c ++ ([] ++ crlf (encode_chunks cs rest)))

unfoldable pub contents : List Chunk → Bytes
contents [] = []
contents (c ∷ cs) = bytes c ++ contents cs

unfoldable pub gathered : Option Bytes → Bytes
gathered none = []
gathered (some b) = b

-- Three rounds for a chunk, and two for the end.
unfoldable pub rounds : List Chunk → ℕ
rounds [] = 2
rounds (c ∷ cs) = suc (suc (suc (rounds cs)))

abbrev at : Bytes → Parser → Parser
at input p = record p { state = State.chunk_begin; ready = false; input = input; next_scan = 0 }

is_empty-crlf : (l rest : Bytes) → is_empty (l ++ crlf rest) ≡ false
unfolding is_empty
is_empty-crlf [] rest = refl
is_empty-crlf (c ∷ l) rest = refl

chunk_line-tells :
    (l : Bytes) (n : ℕ) (q : Parser)
    → scan_hex l ≡ some (suc n)
    → chunk_line l q ≡ Round.again l (record q { content_length = suc n; state = State.in_chunk })
unfolding chunk_line is_empty scan_hex
chunk_line-tells [] n q e = cc
chunk_line-tells (c ∷ l) n q e = rw (e, chunk_line) refl

nil-IsClean : IsClean []
unfolding IsClean
nil-IsClean = tt

zero-IsClean : IsClean (codes "0")
unfolding IsClean clean
zero-IsClean = (refl, tt)

zero_line :
    (q : Parser)
    → chunk_line (codes "0") q ≡ Round.again (codes "0") (record q { state = State.in_footers })
unfolding chunk_line scan_hex is_empty
zero_line q = refl

module _ (lexical_cast : Bytes → Option ℕ) where
  got_round :
      (line l : Bytes) (p q : Parser)
      → is_empty p.input ≡ false
      → consume_line line p ≡ (true, l, q)
      → round lexical_cast State.chunk_begin line p ≡ chunk_line l q
  unfolding round
  got_round line l p q some_input e =
      subst
        (λ (x : Bool × Bytes × Parser).
          Path Round
            (if is_empty p.input
              then Round.done p
              else if x.0
              then chunk_line x.1 x.2
              else Round.done (fail Error.bad_protocol x.2))
            (chunk_line l q))
        (sym e) (rw some_input refl)

  length_round :
      (line l rest : Bytes) (p : Parser)
      → IsClean l
      → round lexical_cast State.chunk_begin line (at (l ++ crlf rest) p) ≡ chunk_line l (at rest p)
  length_round line l rest p h =
      got_round line l (at (l ++ crlf rest) p) (at rest p) (is_empty-crlf l rest)
        (consume_line-clean line l rest (at [] p) h)

  empty_line : (p : Parser) (rest : Bytes) → chunk_line [] (at rest p) ≡ Round.again [] (at rest p)
  unfolding chunk_line is_empty
  empty_line p rest = refl

  bytes_round :
      (line rest : Bytes) (c : Chunk) (p : Parser)
      → p.input ≡ bytes c ++ rest
      → p.content_length ≡ length (bytes c)
      → (content : Option Bytes) × (round lexical_cast State.in_chunk line p
          ≡ Round.again line
              (record p { state = State.chunk_begin; content = content; input = rest }))
        × (gathered content ≡ gathered p.content ++ bytes c)
  unfolding round in_content gathered
  bytes_round line rest c p input size = elim (Option-cases p.content) [
    | inl new ↦ (
      some (bytes c),
      ground (
        arith,
        new,
        input,
        size,
        take-append (bytes c) rest,
        drop-append (bytes c) rest,
        length-append (bytes c) rest,
      ),
      ground (arith, new),
    )
    | inr (old, more) ↦ (
      some (old ++ bytes c),
      ground (
        arith,
        more,
        input,
        size,
        take-append (bytes c) rest,
        drop-append (bytes c) rest,
        length-append (bytes c) rest,
      ),
      ground (arith, more),
    )
  ]

  -- One chunk: its line, its bytes, and the end of line behind them.
  chunk_rounds :
      (n : ℕ) (line rest : Bytes) (c : Chunk) (p : Parser)
      → IsChunk c
      → (q : Parser) × (consume lexical_cast
            (suc (suc (suc n)))
            line
            (at (c.line ++ crlf (bytes c ++ ([] ++ crlf rest))) p)
          ≡ consume lexical_cast n [] (at rest q))
        × (q.result ≡ p.result)
        × (gathered q.content ≡ gathered p.content ++ bytes c)
  unfolding consume
  chunk_rounds n line rest c p h =
      let waiting = record p {
        state = State.in_chunk;
        ready = false;
        next_scan = 0;
        content_length = suc (length c.others);
        input = bytes c ++ ([] ++ crlf rest);
      } in
      let first : round lexical_cast State.chunk_begin line
            (at (c.line ++ crlf (bytes c ++ ([] ++ crlf rest))) p)
          ≡ Round.again c.line waiting =
        length_round line c.line (bytes c ++ ([] ++ crlf rest)) p h.clean_line
        ∙ chunk_line-tells c.line (length c.others) (at (bytes c ++ ([] ++ crlf rest)) p) h.tells in
      let (content, second, joined) = bytes_round c.line ([] ++ crlf rest) c waiting refl refl in
      let q = record waiting { content = content } in
      let third : round lexical_cast State.chunk_begin c.line (at ([] ++ crlf rest) q)
          ≡ Round.again [] (at rest q) =
        length_round c.line [] rest q nil-IsClean ∙ empty_line q rest in
      (q, rw (first, consume, second, third) refl, refl, joined)

  last_round :
      (line rest : Bytes) (p : Parser)
      → round lexical_cast State.in_footers line
          (record (at ([] ++ crlf rest) p) { state = State.in_footers })
        ≡ Round.done (record (at rest p) { state = State.in_footers; ready = true })
  unfolding round with_line footer_line
  last_round line rest p =
      subst
        (λ (x : Bool × Bytes × Parser).
          Path Round (if not x.0 || x.2.ready then Round.done x.2 else footer_line x.1 x.2)
            (Round.done (record (at rest p) { state = State.in_footers; ready = true })))
        (sym (
          consume_line-clean line [] rest (record (at [] p) { state = State.in_footers })
            nil-IsClean))
        refl

  end_rounds :
      (line rest : Bytes) (p : Parser)
      → consume lexical_cast 2 line (at (codes "0" ++ crlf ([] ++ crlf rest)) p)
        ≡ some (record (at rest p) { state = State.in_footers; ready = true })
  unfolding consume
  end_rounds line rest p =
      let first : round lexical_cast State.chunk_begin line
            (at (codes "0" ++ crlf ([] ++ crlf rest)) p)
          ≡ Round.again (codes "0") (record (at ([] ++ crlf rest) p) { state = State.in_footers }) =
        length_round line (codes "0") ([] ++ crlf rest) p zero-IsClean
        ∙ zero_line (at ([] ++ crlf rest) p) in
      rw (first, consume) refl

  consume-chunks :
      (cs : List Chunk) (line rest : Bytes) (p : Parser)
      → All IsChunk cs
      → (q : Parser) × (consume lexical_cast (rounds cs) line (at (encode_chunks cs rest) p)
          ≡ some q)
        × (q.ready ≡ true)
        × (q.result ≡ p.result)
        × (q.input ≡ rest)
        × (gathered q.content ≡ gathered p.content ++ contents cs)
  unfolding encode_chunks contents rounds
  consume-chunks [] line rest p h = (
    record (at rest p) { state = State.in_footers; ready = true },
    end_rounds line rest p,
    refl,
    refl,
    refl,
    sym (append-nil (gathered p.content)),
  )
  consume-chunks (c ∷ cs) line rest p (h, hs) =
      let (q, run, same, joined) = chunk_rounds (rounds cs) line (encode_chunks cs rest) c p h in
      let (r, runs, ready, result, input, all) = consume-chunks cs [] rest q hs in
      (
        r,
        run ∙ runs,
        ready,
        result ∙ same,
        input,
        all
            ∙ ap (λ (b : Bytes). b ++ contents cs) joined
            ∙ append_assoc (gathered p.content) (bytes c) (contents cs),
      )

  -- Chunked content that is all there is put together: where the length of a chunk is awaited and
  -- the bytes that come are chunks, each behind a line that tells its length, then a 0 and no
  -- footers, and are within the buffer's limit, `push` ends ready and without a new error, with
  -- the bytes of all chunks added to the content, and what follows is left in the buffer.
  pub push-chunks :
      (cs : List Chunk) (rest : Bytes) (p : Parser)
      → p.state ≡ State.chunk_begin
      → p.ready ≡ false
      → p.next_scan ≡ 0
      → p.input ≡ []
      → All IsChunk cs
      → ltb 16777216 (length (encode_chunks cs rest)) ≡ false
      → (q : Parser) × (push lexical_cast (rounds cs) (encode_chunks cs rest) p ≡ some q)
        × (q.ready ≡ true)
        × (q.result ≡ p.result)
        × (q.input ≡ rest)
        × (gathered q.content ≡ gathered p.content ++ contents cs)
  unfolding push
  push-chunks cs rest p state ready scan input hs fits =
      let x = encode_chunks cs rest in
      let same : Path Parser (record p { input = p.input ++ x }) (at x p) =
        ground (arith, state, ready, scan, input) in
      let short : ltb 16777216 (length (p.input ++ x)) ≡ false =
        subst (λ (i : Bytes). Path Bool (ltb 16777216 (length (i ++ x))) false) (sym input) fits in
      let (q, run, over, result, left, all) = consume-chunks cs [] rest p hs in
      (q, rw short (ap (consume lexical_cast (rounds cs) []) same ∙ run), over, result, left, all)
