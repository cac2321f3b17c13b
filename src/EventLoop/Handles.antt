-- ===== src/EventLoop/Handles.antt =====
-- What `process_input` of event_loop.c comes to on a chunk of input.
use c_http_server.Prelude.{
  ℕ, zero, suc, ◌+◌, ◌<◌, true, false, inl, inr, Option, none, some, [], ◌∷◌, Bytes, ◌≡◌, ◌≢◌, refl,
  ◌∙◌, sym, arith, length, drop, length-drop,
}
use mathlib.Core.Path.{subst}
use c_http_server.HttpParser.{HttpRequestParser, http_parser_init, parse_incomplete, parse_complete}
use c_http_server.HttpParser.Run.{run, http_parser_execute-run}
use c_http_server.HttpParser.Consumed.{
  nothing, up_to_the_end, everything, live_if_incomplete, incomplete_if_live,
  http_parser_execute-Accounts,
}
use c_http_server.StaticFiles.Descriptors.{Descriptors}
use c_http_server.EventLoop.{Connection}
use c_http_server.EventLoop.Serve.{
  Loop, World, After, after, returns, respond, stash_pending_input, after_response, after_parse,
  process_input_loop, process_input,
}
use c_http_server.EventLoop.Owns.{Leaves, gone, waiting, ready}
use c_http_server.EventLoop.Answers.{respond-Leaves}
use c_http_server.EventLoop.Replies.Answered.{cut_off, to_resume, sent, respond-refused}
use c_http_server.EventLoop.Outcomes.{
  IsReading, Behind, behind_one, behind_more, ReadsTo, nothing_read, part_read, one_read, ended,
  paused, reads_on, handled, unanswered, HandlesInput, Handles-map, result-cases,
}

-- Behind the response to a request in error the connection does not read on.
refused_ends :
    (loop : Loop) (conn : Connection) (w : World) (a : After)
    → conn.file_fd ≡ none
    → respond loop true conn w ≡ some a
    → a.alive ≡ true
    → ¬ (a.conn.awaiting_writable ≡ false)
refused_ends loop conn w a no_fd e alive reading = elim (respond-refused loop conn w a no_fd e) [
  | cut_off dead rest sent_part ↦ cc
  | to_resume live writing stays owes ↦ cc
  | sent live goes_on stays fresh none_left all ↦ cc
]

module _ (base : Descriptors) (loop : Loop) (fuel : ℕ)
    (next : (conn : Connection) (input : Bytes) (w : World)
      → IsReading base conn w
      → length input < fuel
      → HandlesInput base conn.fd conn.parser input
          (process_input_loop fuel loop conn input w)) where
  -- The rest of the chunk, by a fresh parser.
  rest-HandlesInput :
      (fd : ℕ) (left : Bytes) (a : After)
      → length left < fuel
      → a.conn.fd ≡ fd
      → a.conn.parser ≡ http_parser_init
      → IsReading base a.conn a.world
      → HandlesInput base fd http_parser_init left
          (process_input_loop fuel loop a.conn left a.world)
  rest-HandlesInput fd left a short same fresh r =
      let run = process_input_loop fuel loop a.conn left a.world in
      subst (λ (n : ℕ). HandlesInput base n http_parser_init left run) same
        (subst (λ (q : HttpRequestParser). HandlesInput base a.conn.fd q left run) fresh
          (next a.conn left a.world r short))

  after_response-HandlesInput :
      (fd : ℕ) (p : HttpRequestParser) (input : Bytes) (o : Option After)
      → (run p input).result ≢ parse_incomplete
      → length (drop (run p input).consumed input) < fuel
      → ((a : After) → o ≡ some a → Leaves base fd a)
      → ((a : After)
          → o ≡ some a
          → a.alive ≡ true
          → a.conn.awaiting_writable ≡ false
          → (run p input).result ≡ parse_complete)
      → HandlesInput base fd p input
          (after_response (process_input_loop fuel loop) (drop (run p input).consumed input) o)
  unfolding after_response stash_pending_input
  after_response-HandlesInput fd p input none over short leaves whole = unanswered
  after_response-HandlesInput fd p input (some a) over short leaves whole =
      let left = drop (run p input).consumed input in
      let answered = after_response (process_input_loop fuel loop) left (some a) in
      elim (leaves a refl) [
        | gone dead closed ↦ simp dead (handled a (ended dead closed))
        | waiting live writing same owns ↦
            let stashed : After = record a { conn = stash_pending_input a.conn left } in
            let e : answered ≡ returns stashed = simp (live, writing) refl in
            subst (HandlesInput base fd p input) (sym e)
              (handled stashed (paused live writing same owns (behind_one over refl)))
        | ready live reading same no_file fresh owns ↦
            simp (live, reading)
              (Handles-map base fd (λ c. Behind c.pending_input http_parser_init left)
                (λ c. ReadsTo c.parser http_parser_init left) (λ c. Behind c.pending_input p input)
                (λ c. ReadsTo c.parser p input) _ (λ c. behind_more (whole a refl live reading))
                (λ c. one_read (whole a refl live reading))
                (rest-HandlesInput fd left a short same fresh (record {
                  reading = reading;
                  no_file = no_file;
                  live = rw fresh refl;
                  owns = owns;
                })))
      ]

  after_parse-HandlesInput :
      (conn : Connection) (input : Bytes) (w : World)
      → IsReading base conn w
      → length input < suc fuel
      → HandlesInput base conn.fd conn.parser input
          (after_parse (process_input_loop fuel loop) loop conn input w (run conn.parser input))
  unfolding after_parse
  after_parse-HandlesInput conn input w r short =
      let o = run conn.parser input in
      let accounts =
        http_parser_execute-Accounts conn.parser input o
          (http_parser_execute-run conn.parser input) in
      let parsed : Connection = record conn { parser = o.parser } in
      elim accounts.taken [
        | nothing finished none_taken same ↦ let l = r.live in absurd cc
        | everything live goes_on took ↦
            let e : o.result ≡ parse_incomplete =
              accounts.result_is ∙ incomplete_if_live o.parser.state goes_on in
            simp (e, after_parse)
              (handled (after true parsed w) (
                reads_on refl refl
                  (record {
                    reading = r.reading;
                    no_file = r.no_file;
                    live = goes_on;
                    owns = r.owns;
                  })
                  (part_read e refl)))
        | up_to_the_end live over some_taken ↦
            let shorter : length (drop o.consumed input) < fuel =
              omega (arith, length-drop o.consumed input, accounts.within) in
            elim (result-cases o.result) [
              | inl e ↦
                  let l = live_if_incomplete o.parser.state (sym accounts.result_is ∙ e) in
                  absurd cc
              | inr (inl e) ↦
                  simp (e, after_parse)
                    (after_response-HandlesInput conn.fd conn.parser input
                      (respond loop false parsed w) (λ i. absurd cc) shorter
                      (λ a s. respond-Leaves base loop parsed w r.no_file r.owns false a s)
                      (λ a s alive reading. e))
              | inr (inr e) ↦
                  simp (e, after_parse)
                    (after_response-HandlesInput conn.fd conn.parser input
                      (respond loop true parsed w) (λ i. absurd cc) shorter
                      (λ a s. respond-Leaves base loop parsed w r.no_file r.owns true a s)
                      (λ a s alive reading.
                        absurd (refused_ends loop parsed w a r.no_file s alive reading)))
            ]
      ]

process_input_loop-HandlesInput :
    (base : Descriptors) (loop : Loop) (fuel : ℕ) (conn : Connection) (input : Bytes) (w : World)
    → IsReading base conn w
    → length input < fuel
    → HandlesInput base conn.fd conn.parser input (process_input_loop fuel loop conn input w)
unfolding process_input_loop
process_input_loop-HandlesInput base loop zero conn input w r short = absurd (omega arith)
process_input_loop-HandlesInput base loop (suc fuel) conn [] w r short =
    handled (after true conn w) (reads_on refl refl r (nothing_read refl))
process_input_loop-HandlesInput base loop (suc fuel) conn (c ∷ cs) w r short =
    simp (http_parser_execute-run conn.parser (c ∷ cs), process_input_loop)
      (after_parse-HandlesInput base loop fuel (process_input_loop-HandlesInput base loop fuel) conn
        (c ∷ cs) w r short)

-- Handling a chunk leaves the connection in one of three states, if the kernel answers its
-- transfers: closed, and no descriptor of its own is open; paused on a response that the socket
-- does not take yet, where what is stashed is just what follows the last request parsed: the chunk
-- is one or more requests, of which only the last may be in error, and then the stash; or reading,
-- with the parser that the whole chunk leaves, behind complete requests, in the middle of a request
-- or at the start of one, and no file open.
-- So over any number of pipelined requests no descriptor leaks, and the loop over them ends.
pub process_input-Handles :
    (base : Descriptors) (loop : Loop) (conn : Connection) (input : Bytes) (w : World)
    → IsReading base conn w
    → HandlesInput base conn.fd conn.parser input (process_input loop conn input w)
unfolding process_input
process_input-Handles base loop conn input w r =
    process_input_loop-HandlesInput base loop (length input + 1) conn input w r (omega arith)
