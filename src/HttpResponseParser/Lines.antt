-- ===== src/HttpResponseParser/Lines.antt =====
-- `consumeLine` on a line that is there.
use schneeflocke.Base.{
  ℕ, suc, ◌+◌, ◌≡◌, refl, ap, ◌∙◌, ◌==◌, ◌&&◌, Bool, true, not, [], ◌∷◌, ◌++◌, Bytes, length, drop,
  take-append, All, arith,
}
use schneeflocke.HttpResponseParser.{Parser, Scan, scan_line, consume_line}

-- Neither a zero nor a character of a line's end.
unfoldable pub clean : ℕ → Bool
clean c = not (c == 0) && (not (c == b'\n') && not (c == b'\r'))

unfoldable pub IsClean : Bytes → Type 0
IsClean = All (λ c. clean c ≡ true)

abbrev pub crlf : Bytes → Bytes
crlf rest = b'\r' ∷ (b'\n' ∷ rest)

scan_line-clean :
    (l rest : Bytes) (i : ℕ)
    → IsClean l
    → scan_line i (l ++ crlf rest) ≡ Scan.line_at (i + length l) (i + length l + 2)
unfolding scan_line IsClean clean
scan_line-clean [] rest i h = ground arith
scan_line-clean (c ∷ []) rest i (ok, h) = ground (arith, ok)
scan_line-clean (c ∷ d ∷ l) rest i (ok, h) =
    ground (arith, ok, scan_line-clean (d ∷ l) rest (suc i) h)

suc_add : (n : ℕ) → suc n + 2 ≡ suc (n + 2)
suc_add n = omega arith

zero_add : (n : ℕ) → 0 + n ≡ n
zero_add n = omega arith

drop-crlf : (l rest : Bytes) → drop (length l + 2) (l ++ crlf rest) ≡ rest
drop-crlf [] rest = refl
drop-crlf (c ∷ l) rest =
    ap (λ (n : ℕ). drop n (c ∷ (l ++ crlf rest))) (suc_add (length l)) ∙ drop-crlf l rest

-- A clean line with its end is taken off the front of the input.
pub consume_line-clean :
    (line l rest : Bytes) (p : Parser)
    → IsClean l
    → consume_line line (record p { input = l ++ crlf rest; next_scan = 0 })
      ≡ (true, l, record p { input = rest; next_scan = 0 })
unfolding consume_line
consume_line-clean line l rest p h =
    rw
      (
        scan_line-clean l rest 0 h,
        consume_line,
        zero_add (length l),
        take-append l (crlf rest),
        drop-crlf l rest,
      )
      refl
