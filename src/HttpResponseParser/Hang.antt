-- ===== src/HttpResponseParser/Hang.antt =====
-- Input on which `consume` never returns.
use schneeflocke.Base.{
  ℕ, zero, suc, ◌≡◌, refl, subst, true, false, Option, none, [], ◌∷◌, ◌++◌, ltb, Bytes, length,
  arith,
}
use schneeflocke.Error.{Error}
use schneeflocke.HttpResponseParser.{State, Parser, scan_line, consume_line}
use schneeflocke.HttpResponseParser.Consume.{is_empty, chunk_line, round, consume, push}

stuck : ℕ → Bytes → Parser → Parser
stuck d rest p = record p { state = State.chunk_begin; next_scan = 0; input = 0 ∷ d ∷ rest }

module _ (lexical_cast : Bytes → Option ℕ) where
  stuck-hangs :
      (n d : ℕ) (rest : Bytes) (p : Parser) → consume lexical_cast n [] (stuck d rest p) ≡ none
  unfolding consume round consume_line chunk_line scan_line is_empty stuck
  stuck-hangs zero d rest p = refl
  stuck-hangs (suc n) d rest p =
      stuck-hangs n d rest (record p { ready = true; result = Error.bad_protocol })

  consume-hangs :
      (n d : ℕ) (rest : Bytes) (p : Parser)
      → p.state ≡ State.chunk_begin
      → p.next_scan ≡ 0
      → p.input ≡ 0 ∷ d ∷ rest
      → consume lexical_cast n [] p ≡ none
  unfolding stuck
  consume-hangs n d rest p at scan zero_first =
      subst (λ (q : Parser). Path (Option Parser) (consume lexical_cast n [] q) none)
        {x = stuck d rest p} (ground (arith, at, scan, zero_first)) (stuck-hangs n d rest p)

  -- Where a line with a chunk's length is awaited and the next byte is a zero, with another byte
  -- behind it, `push` never returns, unless the buffer is over its limit.
  pub push-hangs :
      (n d : ℕ) (more rest : Bytes) (p : Parser)
      → p.state ≡ State.chunk_begin
      → p.next_scan ≡ 0
      → p.input ++ more ≡ 0 ∷ d ∷ rest
      → ltb 16777216 (length (p.input ++ more)) ≡ false
      → push lexical_cast n more p ≡ none
  unfolding push
  push-hangs n d more rest p at scan zero_first fits =
      rw fits (consume-hangs n d rest (record p { input = p.input ++ more }) at scan zero_first)
