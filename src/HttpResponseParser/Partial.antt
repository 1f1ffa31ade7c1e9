-- ===== src/HttpResponseParser/Partial.antt =====
-- A line that has not come in whole.
use schneeflocke.Base.{
  ℕ, suc, ◌≡◌, refl, subst, true, false, Option, some, [], ◌∷◌, ltb, Bytes, length, arith,
}
use schneeflocke.Error.{Error}
use schneeflocke.HttpResponseParser.{State, Parser, Scan, scan_line, consume_line, fail}
use schneeflocke.HttpResponseParser.Consume.{is_empty, round, consume, push}
use schneeflocke.HttpResponseParser.Lines.{IsClean, clean}

scan_line-more : (l : Bytes) (i : ℕ) → IsClean l → (n : ℕ) × (scan_line i l ≡ Scan.more_at n)
unfolding scan_line IsClean clean
scan_line-more [] i h = (i, refl)
scan_line-more (c ∷ []) i h = (i, refl)
scan_line-more (c ∷ d ∷ l) i (ok, h) =
    let (n, more) = scan_line-more (d ∷ l) (suc i) h in (n, ground (arith, ok, more))

abbrev here : Parser → Parser
here p = record p { state = State.chunk_begin; next_scan = 0; input = [] }

module _ (lexical_cast : Bytes → Option ℕ) where
  partial_line :
      (n i c : ℕ) (l : Bytes) (p : Parser)
      → scan_line 0 (c ∷ l) ≡ Scan.more_at i
      → ltb 16777216 (length (c ∷ l)) ≡ false
      → push lexical_cast (suc n) (c ∷ l) (here p)
        ≡ some (record (here p) {
          ready = true;
          result = Error.bad_protocol;
          input = c ∷ l;
          next_scan = i;
        })
  unfolding push consume round consume_line fail is_empty
  partial_line n i c l p more fits = rw (fits, push, consume, round, consume_line, more) refl

  -- Where the line with a chunk's length is awaited, a first part of it that comes in by itself,
  -- without the end of the line, is taken for an error of the protocol.
  pub push-partial_line :
      (n c : ℕ) (l : Bytes) (p : Parser)
      → p.state ≡ State.chunk_begin
      → p.next_scan ≡ 0
      → p.input ≡ []
      → IsClean (c ∷ l)
      → ltb 16777216 (length (c ∷ l)) ≡ false
      → (q : Parser) × (push lexical_cast (suc n) (c ∷ l) p ≡ some q)
        × (q.ready ≡ true)
        × (q.result ≡ Error.bad_protocol)
  unfolding push consume round consume_line fail is_empty
  push-partial_line n c l p state scan input h fits =
      let (i, more) = scan_line-more (c ∷ l) 0 h in
      (
        record p { ready = true; result = Error.bad_protocol; input = c ∷ l; next_scan = i },
        subst
            (λ (r : Parser). Path (Option Parser) (push lexical_cast (suc n) (c ∷ l) r) (
              some (record r {
                ready = true;
                result = Error.bad_protocol;
                input = c ∷ l;
                next_scan = i;
              })))
            {x = here p} (ground (arith, state, scan, input)) (partial_line n i c l p more fits),
        refl,
        refl,
      )
