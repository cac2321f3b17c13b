-- ===== src/HttpParser/Chunks.antt =====
-- `http_parser_execute` of http_parser.c over input that arrives in pieces.
use c_http_server.Prelude.{
  ℕ, ◌+◌, Bool-cases, Option, none, some, List, [], ◌∷◌, ◌++◌, Bytes, ◌≡◌, refl, inl, inr, ◌∙◌, ap,
  sym, arith,
}
use mathlib.Core.List.{flatten}
use c_http_server.HttpParser.{is_terminal, HttpRequestParser}
use c_http_server.HttpParser.Execute.{Outcome, outcome, http_parser_execute}
use c_http_server.HttpParser.Run.{
  consume, run_from, run, run_from_terminal, http_parser_execute-run,
}

-- A caller that hands over one piece after another and adds up what was consumed.
pub execute_chunks : HttpRequestParser → List Bytes → Option Outcome
execute_chunks p [] = http_parser_execute p []
execute_chunks p (chunk ∷ chunks) = elim (http_parser_execute p chunk) [
  | none ↦ none
  | some o ↦ elim (execute_chunks o.parser chunks) [
    | none ↦ none
    | some r ↦ some (outcome r.result r.parser (o.consumed + r.consumed))
  ]
]

pub run_from_shift :
    (k i : ℕ) (p : HttpRequestParser) (bytes : Bytes)
    → run_from (k + i) p bytes
      ≡ (let o = run_from i p bytes in outcome o.result o.parser (k + o.consumed))
unfolding run_from
run_from_shift k i p [] = refl
run_from_shift k i p (c ∷ cs) = elim (Bool-cases (is_terminal p.state)) [
  | inl stop ↦ simp stop
  | inr live ↦ simp live (
      ap (λ n. run_from n (consume p c) cs) (omega arith)
      ∙ run_from_shift k (i + 1) (consume p c) cs)
]

-- A terminal parser takes nothing, so the pieces may be run one after the other in every case.
pub run_from-append :
    (i : ℕ) (p : HttpRequestParser) (xs ys : Bytes)
    → run_from i p (xs ++ ys) ≡ run_from (run_from i p xs).consumed (run_from i p xs).parser ys
unfolding run_from
run_from-append i p [] ys = refl
run_from-append i p (c ∷ cs) ys = elim (Bool-cases (is_terminal p.state)) [
  | inl stop ↦ simp stop (sym (run_from_terminal i p ys stop))
  | inr live ↦ simp live (run_from-append (i + 1) (consume p c) cs ys)
]

pub run-append :
    (p : HttpRequestParser) (xs ys : Bytes)
    → run p (xs ++ ys) ≡ (
        let o = run p xs in
        let r = run o.parser ys in outcome r.result r.parser (o.consumed + r.consumed))
run-append p xs ys =
    run_from-append 0 p xs ys
    ∙ ap (λ n. run_from n (run p xs).parser ys) (omega arith)
    ∙ run_from_shift (run p xs).consumed 0 (run p xs).parser ys

-- The outcome does not depend on how the caller split the input: handing over the pieces one by
-- one gives the result, the parser and the number of consumed bytes of one call on all of them,
-- from every state of the parser.
pub execute_chunks-flatten :
    (p : HttpRequestParser) (chunks : List Bytes)
    → execute_chunks p chunks ≡ http_parser_execute p (flatten chunks)
unfolding execute_chunks flatten
execute_chunks-flatten p [] = refl
execute_chunks-flatten p (chunk ∷ chunks) = simp (
  execute_chunks,
  http_parser_execute-run,
  execute_chunks-flatten (run p chunk).parser chunks,
  run-append p chunk (flatten chunks),
)
