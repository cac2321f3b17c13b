-- ===== src/EventLoop/Streams.antt =====
-- The replies to a stream of input of event_loop.c, however it is cut into chunks.
use c_http_server.Prelude.{
  ℕ, zero, suc, ◌+◌, ◌≤◌, ◌<◌, true, false, inl, inr, List, [], ◌∷◌, ◌++◌, Bytes, length, take,
  drop, length-drop, take-append-drop, append_assoc, ◌≡◌, ◌≢◌, refl, sym, ◌∙◌, ap, arith,
}
use c_http_server.HttpParser.{
  HttpRequestParser, http_parser_init, is_terminal, parse_incomplete, parse_complete,
}
use c_http_server.HttpParser.Execute.{Outcome, http_parser_execute, http_parser_should_keep_alive}
use c_http_server.HttpParser.Run.{run, run_from, http_parser_execute-run}
use c_http_server.HttpParser.Chunks.{run-append}
use c_http_server.HttpParser.Consumed.{
  Accounts, nothing, up_to_the_end, everything, incomplete_if_live, live_if_incomplete,
  http_parser_execute-Accounts, http_parser_execute-rest,
}
use c_http_server.EventLoop.Serve.{Loop}
use c_http_server.EventLoop.Owed.Loops.{some_inj}
use c_http_server.EventLoop.Outcomes.{result-cases}
use c_http_server.EventLoop.Replies.{
  reply, routed, stays_open, behind, replies_from, replies_in, replies,
}

-- A call that ends a request takes a byte.
pub left_shorter :
    (p : HttpRequestParser) (input : Bytes) (o : Outcome)
    → is_terminal p.state ≡ false
    → Accounts p input o
    → o.result ≢ parse_incomplete
    → length (drop o.consumed input) < length input
left_shorter p input o live accounts ends = elim accounts.taken [
  | nothing finished none_taken same ↦ absurd cc
  | everything live' goes_on took ↦
      absurd (ends (accounts.result_is ∙ incomplete_if_live o.parser.state goes_on))
  | up_to_the_end live' over some_taken ↦
      omega (arith, length-drop o.consumed input, accounts.within)
]

module _ {A : Type 0} where
  drop_past : (n : ℕ) (xs ys : List A) → drop (length xs + n) (xs ++ ys) ≡ drop n ys
  drop_past n [] ys = let e : 0 + n ≡ n = omega arith in ap (λ k. drop k ys) e
  drop_past n (x ∷ xs) ys =
      let e : length (x ∷ xs) + n ≡ suc (length xs + n) = omega arith in
      ap (λ k. drop k (x ∷ (xs ++ ys))) e ∙ drop_past n xs ys

  drop_within : (n : ℕ) (xs ys : List A) → n ≤ length xs → drop n (xs ++ ys) ≡ drop n xs ++ ys
  drop_within zero xs ys h = refl
  drop_within (suc n) [] ys h = absurd (omega arith)
  drop_within (suc n) (x ∷ xs) ys h = drop_within n xs ys (omega arith)

module _ (loop : Loop) where
  -- Enough fuel is enough.
  pub replies_in-fuel :
      (fuel fuel' : ℕ) (p : HttpRequestParser) (input : Bytes)
      → is_terminal p.state ≡ false
      → length input < fuel
      → length input < fuel'
      → replies_in fuel loop p input ≡ replies_in fuel' loop p input
  unfolding replies_in replies_from
  replies_in-fuel zero fuel' p input live h h' = absurd (omega arith)
  replies_in-fuel (suc fuel) zero p input live h h' = absurd (omega arith)
  replies_in-fuel (suc fuel) (suc fuel') p [] live h h' = refl
  replies_in-fuel (suc fuel) (suc fuel') p (c ∷ cs) live h h' =
      let input = c ∷ cs in
      let o = run p input in
      let called = http_parser_execute-run p input in
      let accounts = http_parser_execute-Accounts p input o called in
      simp (called, replies_in)
        (elim (result-cases o.result) [
          | inl e ↦ simp (e, replies_from) refl
          | inr (inr e) ↦ simp (e, replies_from) refl
          | inr (inl e) ↦
              let shorter = left_shorter p input o live accounts (λ i. absurd cc) in
              ap (λ more. replies_from loop more o)
                (replies_in-fuel fuel fuel' http_parser_init (drop o.consumed input) refl
                  (omega arith) (omega arith))
        ])

  replies-run :
      (p : HttpRequestParser) (input : Bytes)
      → is_terminal p.state ≡ false
      → replies loop p input
        ≡ replies_from loop
            (replies loop http_parser_init (drop (run p input).consumed input))
            (run p input)
  unfolding replies_in replies_from run_from
  replies-run p [] live = let e = incomplete_if_live p.state live in simp (e, replies_from) refl
  replies-run p (c ∷ cs) live =
      let input = c ∷ cs in
      let o = run p input in
      let called = http_parser_execute-run p input in
      let accounts = http_parser_execute-Accounts p input o called in
      replies_in-fuel (length input + 1) (suc (length input)) p input live (omega arith)
        (omega arith)
      ∙ simp (called, replies_in)
          (elim (result-cases o.result) [
            | inl e ↦ simp (e, replies_from) refl
            | inr (inr e) ↦ simp (e, replies_from) refl
            | inr (inl e) ↦
                let shorter = left_shorter p input o live accounts (λ i. absurd cc) in
                ap (λ more. replies_from loop more o)
                  (replies_in-fuel (length input) (length (drop o.consumed input) + 1)
                    http_parser_init (drop o.consumed input) refl (omega arith) (omega arith))
          ])

  -- The parser that a connection is left with which has answered the requests of some input, and
  -- stays open.
  pub data Reads : HttpRequestParser → Bytes → HttpRequestParser → Type 0 where
    read_nothing : {p : HttpRequestParser} → Reads p [] p
    read_part :
        {p : HttpRequestParser} {input : Bytes}
        → (run p input).result ≡ parse_incomplete
        → Reads p input (run p input).parser
    read_one :
        {p q : HttpRequestParser} {input : Bytes}
        → (run p input).result ≡ parse_complete
        → stays_open loop (run p input).parser ≡ true
        → Reads http_parser_init (drop (run p input).consumed input) q
        → Reads p input q

  -- The replies to more input are those to its beginning, and then those to the rest.
  pub replies-append :
      (p q : HttpRequestParser) (xs ys : Bytes)
      → is_terminal p.state ≡ false
      → Reads p xs q
      → replies loop p (xs ++ ys) ≡ replies loop p xs ++ replies loop q ys
  unfolding replies_in replies_from
  replies-append p _ [] ys live read_nothing = refl
  replies-append p _ xs ys live (read_part part) =
      let o = run p xs in
      let r = run o.parser ys in
      let accounts = http_parser_execute-Accounts p xs o (http_parser_execute-run p xs) in
      let goes_on = live_if_incomplete o.parser.state (sym accounts.result_is ∙ part) in
      let took : o.consumed ≡ length xs = elim accounts.taken [
        | nothing finished none_taken same ↦ absurd cc
        | up_to_the_end live' over some_taken ↦ absurd cc
        | everything live' still all ↦ all
      ] in
      let past : drop (o.consumed + r.consumed) (xs ++ ys) ≡ drop r.consumed ys =
        ap (λ n. drop (n + r.consumed) (xs ++ ys)) took ∙ drop_past r.consumed xs ys in
      let none_yet : replies loop p xs ≡ [] =
        replies-run p xs live ∙ simp (part, replies_from) refl in
      replies-run p (xs ++ ys) live
      ∙ ap
          (λ (q : Outcome).
            replies_from loop (replies loop http_parser_init (drop q.consumed (xs ++ ys))) q)
          (run-append p xs ys)
      ∙ ap (λ m. replies_from loop (replies loop http_parser_init m) r) past
      ∙ sym (replies-run o.parser ys goes_on)
      ∙ ap (λ m. m ++ replies loop o.parser ys) (sym none_yet)
  replies-append p q xs ys live (read_one whole stay rest) =
      let o = run p xs in
      let left = drop o.consumed xs in
      let called = http_parser_execute-run p xs in
      let accounts = http_parser_execute-Accounts p xs o called in
      let again = http_parser_execute-rest p xs (left ++ ys) o called (λ i. absurd cc) in
      let cut : take o.consumed xs ++ (left ++ ys) ≡ xs ++ ys =
        sym (append_assoc (take o.consumed xs) left ys)
        ∙ ap (λ b. b ++ ys) (take-append-drop o.consumed xs) in
      let same : run p (xs ++ ys) ≡ o = some_inj (
        sym (http_parser_execute-run p (xs ++ ys))
        ∙ ap (http_parser_execute p) (sym cut)
        ∙ again) in
      let first = reply loop (routed loop o.parser) (http_parser_should_keep_alive o.parser) in
      let opened : (m : Bytes) → replies_from loop m o ≡ first ++ m =
        λ m. simp (whole, replies_from) (ap (λ b. first ++ behind b m) stay) in
      replies-run p (xs ++ ys) live
      ∙ ap
          (λ (x : Outcome).
            replies_from loop (replies loop http_parser_init (drop x.consumed (xs ++ ys))) x)
          same
      ∙ ap (λ m. replies_from loop (replies loop http_parser_init m) o)
          (drop_within o.consumed xs ys accounts.within)
      ∙ opened (replies loop http_parser_init (left ++ ys))
      ∙ ap (λ m. first ++ m) (replies-append http_parser_init q left ys refl rest)
      ∙ sym (append_assoc first (replies loop http_parser_init left) (replies loop q ys))
      ∙ ap (λ m. m ++ replies loop q ys)
          (sym (opened (replies loop http_parser_init left)) ∙ sym (replies-run p xs live))
