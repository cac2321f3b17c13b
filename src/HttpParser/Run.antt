-- ===== src/HttpParser/Run.antt =====
-- `http_parser_execute` of http_parser.c against a recursion on the bytes, with no fuel.
use c_http_server.Prelude.{
  ◌≤◌, Bool-cases, ℕ, zero, suc, ◌+◌, ◌*◌, ◌<◌, true, false, some, [], ◌∷◌, Bytes, ◌≡◌, refl, ◌||◌,
  inl, inr, ◌∙◌, ap, arith, ◌==◌, if◌then◌else◌, length,
}
use c_http_server.HttpParser.{
  is_terminal, HttpParseResult, parse_incomplete, parse_complete, parse_error, HttpParserState,
  state_method, state_header_value_sp, state_header_value, state_done, state_error,
  HttpRequestParser,
}
use c_http_server.HttpParser.Step.{goto, on_header_value, step_in, step}
use c_http_server.HttpParser.Execute.{
  Outcome, outcome, execute_loop, next_round, execute_in, http_parser_execute,
}

-- What one byte does, a second run of the `switch` on it included.
unfoldable pub consume_in : HttpParserState → HttpRequestParser → ℕ → HttpRequestParser
consume_in state_header_value_sp p c =
    if c == b' ' || c == b'\t' then p else on_header_value (goto state_header_value p) c
consume_in s p c = (step_in s p c).0

abbrev pub consume : HttpRequestParser → ℕ → HttpRequestParser
consume p c = consume_in p.state p c

abbrev pub result_of : HttpParserState → HttpParseResult
result_of state_done = parse_complete
result_of state_error = parse_error
result_of _ = parse_incomplete

-- Consumes bytes until a terminal state, counting from `i`.
unfoldable pub run_from : ℕ → HttpRequestParser → Bytes → Outcome
run_from i p [] = outcome (result_of p.state) p i
run_from i p (c ∷ cs) =
    let rest = run_from (i + 1) (consume p c) cs in
    if is_terminal p.state then outcome (result_of p.state) p i else rest

-- The same, entered at `http_parser_execute`.
abbrev pub run : HttpRequestParser → Bytes → Outcome
run p bytes = run_from 0 p bytes

pub run_from_terminal :
    (i : ℕ) (p : HttpRequestParser) (bytes : Bytes)
    → is_terminal p.state ≡ true
    → run_from i p bytes ≡ outcome (result_of p.state) p i
unfolding run_from
run_from_terminal i p [] h = refl
run_from_terminal i p (c ∷ cs) h = rw h

step_advance :
    (s : HttpParserState) (p : HttpRequestParser) (c : ℕ)
    → (step_in s p c).1 ≡ true
    → (step_in s p c).0 ≡ consume_in s p c
unfolding step_in consume_in
step_advance state_header_value_sp p c h = ground arith
step_advance _ p c h = refl

step_stay :
    (s : HttpParserState) (p : HttpRequestParser) (c : ℕ)
    → (step_in s p c).1 ≡ false
    → ((step_in s p c).0 ≡ goto state_header_value p)
      × (consume_in s p c ≡ consume (goto state_header_value p) c)
      × (s ≡ state_header_value_sp)
unfolding step_in consume_in
step_stay state_header_value_sp p c h = ground arith
step_stay state_method p c h = ground arith
step_stay _ p c h = ground arith

result_of_live : (s : HttpParserState) → is_terminal s ≡ false → result_of s ≡ parse_incomplete
result_of_live state_done h = cc
result_of_live state_error h = cc
result_of_live _ h = refl

-- The exit tests at the end of a round.
settle :
    (s : HttpParserState) (f : ℕ) (q : HttpRequestParser) (cs : Bytes) (j : ℕ)
    → q.state ≡ s
    → (is_terminal s ≡ false → execute_loop f q cs j ≡ some (run_from j q cs))
    → next_round (execute_loop f) q cs j ≡ some (run_from j q cs)
unfolding next_round
settle state_error f q cs j e h = rw (run_from_terminal j q cs (ap is_terminal e), e)
settle state_done f q cs j e h = rw (run_from_terminal j q cs (ap is_terminal e), e)
settle _ f q cs j e h = simp (e, next_round) (h refl)

-- Rounds needed: two for a byte, but one less when the first byte is already being re-run.
abbrev needs : HttpParserState → Bytes → ℕ
needs state_header_value bytes = 2 * length bytes
needs _ bytes = 2 * length bytes + 1

needs-le : (s : HttpParserState) (bytes : Bytes) → needs s bytes ≤ 2 * length bytes + 1
needs-le state_header_value bytes = omega arith
needs-le _ bytes = omega arith

needs-cons : (s : HttpParserState) (c : ℕ) (cs : Bytes) → 2 * length cs + 2 ≤ needs s (c ∷ cs)
needs-cons state_header_value c cs = omega arith
needs-cons _ c cs = omega arith

run_from_re_run :
    (i : ℕ) (p : HttpRequestParser) (c : ℕ) (cs : Bytes)
    → is_terminal p.state ≡ false
    → consume_in p.state p c ≡ consume (goto state_header_value p) c
    → run_from i (goto state_header_value p) (c ∷ cs) ≡ run_from i p (c ∷ cs)
unfolding run_from
run_from_re_run i p c cs h e = simp (h, e)

execute_loop-run :
    (f i : ℕ) (p : HttpRequestParser) (bytes : Bytes)
    → is_terminal p.state ≡ false
    → needs p.state bytes < suc f
    → 0 < f
    → execute_loop f p bytes i ≡ some (run_from i p bytes)
unfolding execute_loop run_from
execute_loop-run zero i p bytes h fuel pos = elim pos [ ]
execute_loop-run (suc f) i p [] h fuel pos = rw (result_of_live p.state h)
execute_loop-run (suc f) i p (c ∷ cs) h fuel pos = elim (Bool-cases (step p c).1) [
  | inl adv ↦
      rw (adv, h, step_advance p.state p c adv)
        (settle _ f (consume p c) cs (i + 1) refl λ live.
          execute_loop-run f (i + 1) (consume p c) cs live
            (omega (arith, needs-le (consume p c).state cs, needs-cons p.state c cs))
            (omega (arith, needs-cons p.state c cs)))
  | inr stay ↦
      let (moved, same, here) = step_stay p.state p c stay in
      let less : needs p.state (c ∷ cs) ≡ 2 * length (c ∷ cs) + 1 = rw here in
      let next = goto state_header_value p in
      rw (stay, moved)
        (settle state_header_value f next (c ∷ cs) i refl
            (λ live. execute_loop-run f i next (c ∷ cs) live (omega arith) (omega arith))
          ∙ ap some (run_from_re_run i p c cs h same))
]

execute_in-run :
    (s : HttpParserState) (p : HttpRequestParser) (bytes : Bytes)
    → p.state ≡ s
    → execute_in s p bytes ≡ some (run p bytes)
unfolding execute_in
execute_in-run state_done p bytes e = rw (run_from_terminal 0 p bytes (ap is_terminal e), e)
execute_in-run state_error p bytes e = rw (run_from_terminal 0 p bytes (ap is_terminal e), e)
execute_in-run _ p bytes e =
    execute_loop-run _ 0 p bytes (ap is_terminal e) (omega (arith, needs-le p.state bytes))
      (omega arith)

-- The fuel is enough: the call always returns, with what the recursion on the bytes gives.
pub http_parser_execute-run :
    (p : HttpRequestParser) (bytes : Bytes) → http_parser_execute p bytes ≡ some (run p bytes)
http_parser_execute-run p bytes = unfold http_parser_execute in execute_in-run p.state p bytes refl
