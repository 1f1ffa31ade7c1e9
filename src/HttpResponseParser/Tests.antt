-- ===== src/HttpResponseParser/Tests.antt =====
-- Tests of the response parser.
use schneeflocke.Base.{ℕ, ◌≡◌, refl, true, false, Option, none, some, [], ◌∷◌, ◌++◌, Bytes, codes}
use schneeflocke.Error.{Error}
use schneeflocke.HttpResponseParser.{State, Parser, new_parser, scan_hex}
use schneeflocke.HttpResponseParser.Consume.{push}
use schneeflocke.HttpResponseParser.Chunks.{
  Chunk, IsChunk, encode_chunks, contents, gathered, rounds, push-chunks,
}
use schneeflocke.HttpResponseParser.Lines.{IsClean, clean}
use schneeflocke.HttpResponseParser.Partial.{push-partial_line}
use schneeflocke.HttpResponseParser.Hang.{push-hangs}
use schneeflocke.HttpResponseParser.Termination.{NoZero, chunk_ok, push-returns}

abbrev no_length : Bytes → Option ℕ
no_length text = none

abbrev waiting : Parser
waiting = record (new_parser true) { state = State.chunk_begin }

abbrev snow : Chunk
snow = record { line = codes "4;a"; first = b's'; others = codes "now" }

snow-IsChunk : IsChunk snow
unfolding IsClean clean scan_hex
snow-IsChunk = record { clean_line = (refl, (refl, (refl, tt))); tells = refl }

push-chunks_example :
    (q : Parser) × (push no_length
        (rounds (snow ∷ []))
        (encode_chunks (snow ∷ []) (codes "x"))
        waiting
      ≡ some q)
    × (q.ready ≡ true)
    × (q.result ≡ Error.no_error)
    × (q.input ≡ codes "x")
    × (gathered q.content ≡ gathered none ++ contents (snow ∷ []))
unfolding encode_chunks
push-chunks_example =
    push-chunks no_length (snow ∷ []) (codes "x") waiting refl refl refl refl (snow-IsChunk, tt)
      refl

push-returns_example : (q : Parser) × (push no_length 3 (codes "ab") (new_parser false) ≡ some q)
unfolding NoZero chunk_ok
push-returns_example =
    push-returns no_length (codes "ab") (new_parser false) (refl, (refl, tt)) refl

push-hangs_example : push no_length 1000 (0 ∷ 1 ∷ []) waiting ≡ none
push-hangs_example = push-hangs no_length 1000 1 (0 ∷ 1 ∷ []) [] waiting refl refl refl refl

push-partial_line_example :
    (q : Parser) × (push no_length 1 (codes "4") waiting ≡ some q)
    × (q.ready ≡ true)
    × (q.result ≡ Error.bad_protocol)
unfolding IsClean clean
push-partial_line_example =
    push-partial_line no_length 0 b'4' [] waiting refl refl refl (refl, tt) refl
