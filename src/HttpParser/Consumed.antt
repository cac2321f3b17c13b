-- ===== src/HttpParser/Consumed.antt =====
-- `*consumed` and the result of `http_parser_execute` of http_parser.c.
use c_http_server.Prelude.{
  ℕ, suc, ◌+◌, ◌-◌, ◌≤◌, ◌<◌, Bool-cases, true, false, some, [], ◌∷◌, ◌++◌, Bytes, ◌≡◌, ◌≢◌, refl,
  inl, inr, arith, length, take, ap, sym, ◌∙◌,
}
use c_http_server.HttpParser.{
  is_terminal, parse_incomplete, HttpParserState, state_done, state_error, HttpRequestParser,
}
use c_http_server.HttpParser.Execute.{Outcome, http_parser_execute}
use c_http_server.HttpParser.Run.{
  consume, result_of, run_from, run, run_from_terminal, http_parser_execute-run,
}

-- How many of the bytes a call has taken: none, by a parser that had finished; some, at whose last
-- one the request ended; or all, and the request goes on.
pub data Taken (p : HttpRequestParser) (bytes : Bytes) (o : Outcome) : Type 0 where
  nothing : is_terminal p.state ≡ true → o.consumed ≡ 0 → o.parser ≡ p → Taken p bytes o
  up_to_the_end :
      is_terminal p.state ≡ false
      → is_terminal o.parser.state ≡ true
      → 0 < o.consumed
      → Taken p bytes o
  everything :
      is_terminal p.state ≡ false
      → is_terminal o.parser.state ≡ false
      → o.consumed ≡ length bytes
      → Taken p bytes o

-- What the caller may rely on after a call on `bytes`.
pub record Accounts (p : HttpRequestParser) (bytes : Bytes) (o : Outcome) : Type 0 where
  pub within : o.consumed ≤ length bytes
  pub result_is : o.result ≡ result_of o.parser.state
  pub taken : Taken p bytes o

pub live_if_incomplete :
    (s : HttpParserState) → result_of s ≡ parse_incomplete → is_terminal s ≡ false
live_if_incomplete state_done h = cc
live_if_incomplete state_error h = cc
live_if_incomplete _ h = refl

pub run_from-result :
    (i : ℕ) (p : HttpRequestParser) (bytes : Bytes)
    → (run_from i p bytes).result ≡ result_of (run_from i p bytes).parser.state
unfolding run_from
run_from-result i p [] = refl
run_from-result i p (c ∷ cs) = elim (Bool-cases (is_terminal p.state)) [
  | inl stop ↦ simp stop
  | inr live ↦ simp live (run_from-result (i + 1) (consume p c) cs)
]

pub run_from-within :
    (i : ℕ) (p : HttpRequestParser) (bytes : Bytes)
    → (i ≤ (run_from i p bytes).consumed) × ((run_from i p bytes).consumed ≤ i + length bytes)
unfolding run_from
run_from-within i p [] = omega arith
run_from-within i p (c ∷ cs) = elim (Bool-cases (is_terminal p.state)) [
  | inl stop ↦ simp stop (omega arith)
  | inr live ↦ simp live (omega (arith, run_from-within (i + 1) (consume p c) cs))
]

run_from-all :
    (i : ℕ) (p : HttpRequestParser) (bytes : Bytes)
    → (run_from i p bytes).result ≡ parse_incomplete
    → (run_from i p bytes).consumed ≡ i + length bytes
unfolding run_from
run_from-all i p [] h = omega arith
run_from-all i p (c ∷ cs) h = elim (Bool-cases (is_terminal p.state)) [
  | inl stop ↦ let live = live_if_incomplete p.state (simp stop at h) in cc
  | inr live ↦ simp live (omega (arith, run_from-all (i + 1) (consume p c) cs (simp live at h)))
]

pub incomplete_if_live :
    (s : HttpParserState) → is_terminal s ≡ false → result_of s ≡ parse_incomplete
incomplete_if_live state_done h = cc
incomplete_if_live state_error h = cc
incomplete_if_live _ h = refl

terminal_if_finished : (s : HttpParserState) → result_of s ≢ parse_incomplete → is_terminal s ≡ true
terminal_if_finished state_done h = refl
terminal_if_finished state_error h = refl
terminal_if_finished _ h = absurd (h refl)

run_from_rest :
    (i : ℕ) (p : HttpRequestParser) (bytes other : Bytes)
    → (run_from i p bytes).result ≢ parse_incomplete
    → run_from i p (take ((run_from i p bytes).consumed - i) bytes ++ other) ≡ run_from i p bytes
unfolding run_from
run_from_rest i p [] other h =
    let none_taken : i - i ≡ 0 = omega arith in
    rw none_taken (run_from_terminal i p other (terminal_if_finished p.state h))
run_from_rest i p (c ∷ cs) other h = elim (Bool-cases (is_terminal p.state)) [
  | inl stop ↦
      let none_taken : i - i ≡ 0 = omega arith in
      simp (stop, none_taken) (run_from_terminal i p other stop)
  | inr live ↦
      let rest = run_from (i + 1) (consume p c) cs in
      let some_taken : rest.consumed - i ≡ suc (rest.consumed - (i + 1)) =
        omega (arith, run_from-within (i + 1) (consume p c) cs) in
      simp (live, some_taken) (run_from_rest (i + 1) (consume p c) cs other (simp live at h))
]

run-Taken : (p : HttpRequestParser) (bytes : Bytes) → Taken p bytes (run p bytes)
unfolding run_from
run-Taken p [] = elim (Bool-cases (is_terminal p.state)) [
  | inl stop ↦ nothing stop refl refl
  | inr live ↦ everything live live refl
]
run-Taken p (c ∷ cs) = elim (Bool-cases (is_terminal p.state)) [
  | inl stop ↦ simp stop (nothing stop refl refl)
  | inr live ↦
      let rest = run_from (0 + 1) (consume p c) cs in
      elim (Bool-cases (is_terminal rest.parser.state)) [
        | inl ended ↦
            simp live
              (up_to_the_end live ended (omega (arith, run_from-within (0 + 1) (consume p c) cs)))
        | inr goes_on ↦ simp live (
            everything live goes_on (
              omega (
                arith,
                run_from-all (0 + 1) (consume p c) cs
                    (run_from-result (0 + 1) (consume p c) cs ∙ incomplete_if_live _ goes_on),
              )))
      ]
]

run-Accounts : (p : HttpRequestParser) (bytes : Bytes) → Accounts p bytes (run p bytes)
run-Accounts p bytes = record {
  within = omega (arith, run_from-within 0 p bytes);
  result_is = run_from-result 0 p bytes;
  taken = run-Taken p bytes;
}

-- A call reports at most the bytes that it was given, and its result says which terminal state the
-- parser is in, if any. A parser that had finished takes nothing and does not change; any other one
-- takes all of the bytes if it has not finished behind them, and at least one if it has.
pub http_parser_execute-Accounts :
    (p : HttpRequestParser) (bytes : Bytes) (o : Outcome)
    → http_parser_execute p bytes ≡ some o
    → Accounts p bytes o
http_parser_execute-Accounts p bytes o e =
    let same : run p bytes ≡ o = cc (http_parser_execute-run p bytes) in
    rw same at (run-Accounts p bytes)

-- What stands behind the bytes that a finished call consumed was not looked at: after any other
-- bytes in its place the call returns the same.
pub http_parser_execute-rest :
    (p : HttpRequestParser) (bytes other : Bytes) (o : Outcome)
    → http_parser_execute p bytes ≡ some o
    → o.result ≢ parse_incomplete
    → http_parser_execute p (take o.consumed bytes ++ other) ≡ some o
http_parser_execute-rest p bytes other o e h =
    let same : run p bytes ≡ o = cc (http_parser_execute-run p bytes) in
    let cut : (run p bytes).consumed - 0 ≡ (run p bytes).consumed = omega arith in
    let unfinished : (run p bytes).result ≢ parse_incomplete =
      λ r. h (ap (λ (x : Outcome). x.result) (sym same) ∙ r) in
    rw http_parser_execute-run
      (rw (← same) (ap some (rw cut at (run_from_rest 0 p bytes other unfinished))))
