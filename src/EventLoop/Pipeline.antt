-- ===== src/EventLoop/Pipeline.antt =====
-- The order of the responses that `process_input` of event_loop.c puts on the socket.
use c_http_server.Prelude.{
  ℕ, zero, suc, ◌+◌, ◌<◌, Bool, true, false, inl, inr, Option, none, some, [], ◌∷◌, ◌++◌, Bytes,
  length, drop, append-nil, append_assoc, ◌≡◌, refl, sym, ◌∙◌, ap, arith,
}
use mathlib.Core.Path.{subst}
use c_http_server.HttpParser.{HttpRequestParser, http_parser_init, is_terminal}
use c_http_server.HttpParser.Run.{run, http_parser_execute-run}
use c_http_server.HttpParser.Consumed.{live_if_incomplete, http_parser_execute-Accounts}
use c_http_server.EventLoop.{Connection}
use c_http_server.EventLoop.Routing.{bad_request}
use c_http_server.EventLoop.Owed.{owed}
use c_http_server.EventLoop.Serve.{
  Loop, World, After, after, returns, respond, file_content, stash_pending_input, after_response,
  after_parse, process_input_loop, process_input,
}
use c_http_server.EventLoop.Outcomes.{result-cases}
use c_http_server.EventLoop.Replies.{reply, behind, replies_from, replies_in, replies}
use c_http_server.EventLoop.Replies.Answered.{
  Answered, cut_off, to_resume, sent, respond-Answered, respond-refused,
}
use c_http_server.EventLoop.Sends.{
  all_sent, to_send, given_up, Sends, sends, not_answered, joined, Sends-from,
}
use c_http_server.EventLoop.Streams.{
  left_shorter, replies_in-fuel, Reads, read_nothing, read_part, read_one,
}

module _ (loop : Loop) where
  module _ (fuel : ℕ)
      (next : (conn : Connection) (input : Bytes) (w : World)
        → conn.awaiting_writable ≡ false
        → conn.file_fd ≡ none
        → is_terminal conn.parser.state ≡ false
        → length input < fuel
        → Sends loop conn.parser input
            (replies_in fuel loop conn.parser input)
            w.wire
            (process_input_loop fuel loop conn input w)) where
    same_more :
        (keep stay : Bool) (left : Bytes)
        → keep ≡ stay
        → length left < fuel
        → behind keep (replies loop http_parser_init left)
          ≡ behind stay (replies_in fuel loop http_parser_init left)
    same_more keep stay left kept short =
        ap (λ b. behind b (replies loop http_parser_init left)) kept
        ∙ ap (behind stay) (
            replies_in-fuel loop (length left + 1) fuel http_parser_init left refl (omega arith)
              short)

    after_response-Sends :
        (p : HttpRequestParser) (input : Bytes) (stay : Bool) (total wire left : Bytes)
        (o : Option After)
        → length left < fuel
        → (stay ≡ true
            → (q : HttpRequestParser) → Reads loop http_parser_init left q
            → Reads loop p input q)
        → ((a : After) → o ≡ some a → Answered loop stay total wire a)
        → Sends loop p input
            (total ++ behind stay (replies_in fuel loop http_parser_init left))
            wire
            (after_response (process_input_loop fuel loop) left o)
    unfolding after_response stash_pending_input
    after_response-Sends p input stay total wire left none short longer answers = not_answered
    after_response-Sends p input stay total wire left (some a) short longer answers =
        elim (answers a refl) [
          | cut_off dead rest e ↦
              let more = behind stay (replies_in fuel loop http_parser_init left) in
              simp dead (
                sends a (rest ++ more) (joined a.world.wire rest wire total more e) (given_up dead))
          | to_resume live writing kept e ↦
              let stashed : After = record a { conn = stash_pending_input a.conn left } in
              let e' : after_response (process_input_loop fuel loop) left (some a)
                  ≡ returns stashed =
                simp (live, writing) refl in
              subst (Sends loop p input _ wire) (sym e') (
                sends stashed _
                  (ap (λ m. a.world.wire ++ (owed (file_content loop a.conn.file_fd) a.conn ++ m))
                      (same_more a.conn.keep_alive_after_write stay left kept short)
                    ∙ joined a.world.wire (owed (file_content loop a.conn.file_fd) a.conn) wire
                        total (behind stay (replies_in fuel loop http_parser_init left)) e)
                  (to_send live writing refl))
          | sent live reading stay_is fresh no_fd e ↦
              let e' : after_response (process_input_loop fuel loop) left (some a)
                  ≡ process_input_loop fuel loop a.conn left a.world =
                simp (live, reading) refl in
              subst (Sends loop p input _ wire) (sym e') (
                Sends-from loop a.conn.parser p left input (replies_in fuel loop a.conn.parser left)
                  _ a.world.wire wire _
                  (λ q r.
                    longer stay_is q
                      (subst (λ (x : HttpRequestParser). Reads loop x left q) fresh r))
                  (ap (λ x. a.world.wire ++ replies_in fuel loop x left) fresh
                    ∙ ap (λ x. x ++ replies_in fuel loop http_parser_init left) e
                    ∙ append_assoc wire total (replies_in fuel loop http_parser_init left)
                    ∙ ap
                        (λ b.
                          wire ++ (total ++ behind b (replies_in fuel loop http_parser_init left)))
                        (sym stay_is))
                  (next a.conn left a.world reading no_fd (rw fresh refl) short))
        ]

    after_parse-Sends :
        (conn : Connection) (input : Bytes) (w : World)
        → conn.awaiting_writable ≡ false
        → conn.file_fd ≡ none
        → is_terminal conn.parser.state ≡ false
        → length input < suc fuel
        → (let o = run conn.parser input in
            Sends loop conn.parser input
              (replies_from loop (replies_in fuel loop http_parser_init (drop o.consumed input)) o)
              w.wire
              (after_parse (process_input_loop fuel loop) loop conn input w o))
    unfolding after_parse replies_from
    after_parse-Sends conn input w reading no_fd live short =
        let o = run conn.parser input in
        let accounts =
          http_parser_execute-Accounts conn.parser input o
            (http_parser_execute-run conn.parser input) in
        let parsed : Connection = record conn { parser = o.parser } in
        let left = drop o.consumed input in
        elim (result-cases o.result) [
          | inl e ↦
              let goes_on = live_if_incomplete o.parser.state (sym accounts.result_is ∙ e) in
              simp (e, after_parse, replies_from)
                (sends (after true parsed w) [] refl
                  (all_sent refl reading no_fd goes_on (read_part e) refl))
          | inr (inl e) ↦
              let h = left_shorter conn.parser input o live accounts (λ i. absurd cc) in
              simp (e, after_parse, replies_from)
                (after_response-Sends conn.parser input _ _ w.wire left
                  (respond loop false parsed w) (omega arith) (λ stay q r. read_one e stay r)
                  (λ a s. respond-Answered loop parsed w a no_fd s))
          | inr (inr e) ↦
              let h = left_shorter conn.parser input o live accounts (λ i. absurd cc) in
              simp (e, after_parse, replies_from)
                (Sends-from loop conn.parser conn.parser input input _ _ w.wire w.wire _ (λ q r. r)
                  (ap (λ x. w.wire ++ x) (append-nil _))
                  (after_response-Sends conn.parser input false (reply loop bad_request false)
                    w.wire left (respond loop true parsed w) (omega arith) (λ stay q r. absurd cc)
                    (λ a s. respond-refused loop parsed w a no_fd s)))
        ]

  process_input_loop-Sends :
      (fuel : ℕ) (conn : Connection) (input : Bytes) (w : World)
      → conn.awaiting_writable ≡ false
      → conn.file_fd ≡ none
      → is_terminal conn.parser.state ≡ false
      → length input < fuel
      → Sends loop conn.parser input
          (replies_in fuel loop conn.parser input)
          w.wire
          (process_input_loop fuel loop conn input w)
  unfolding process_input_loop replies_in
  process_input_loop-Sends zero conn input w reading no_fd live short = absurd (omega arith)
  process_input_loop-Sends (suc fuel) conn [] w reading no_fd live short =
      sends (after true conn w) [] refl (all_sent refl reading no_fd live read_nothing refl)
  process_input_loop-Sends (suc fuel) conn (c ∷ cs) w reading no_fd live short =
      let called = http_parser_execute-run conn.parser (c ∷ cs) in
      simp (called, process_input_loop, replies_in)
        (after_parse-Sends fuel (process_input_loop-Sends fuel) conn (c ∷ cs) w reading no_fd live
          short)

  -- The responses to the requests that end in a chunk go out in the order of the requests, one
  -- whole response after the other, and nothing else: what is on the socket when process_input
  -- returns, with what is still to come, is what was there before it, followed by the replies in
  -- that order. Nothing is to come where the connection reads on; where it is blocked, the rest of
  -- a response and the replies to the stashed input are, unless it will be closed behind the
  -- response; where it was closed, something may be missing at the end. The connection has to be
  -- one that reads, with no file and a parser that can go on.
  pub process_input-Sends :
      (conn : Connection) (input : Bytes) (w : World)
      → conn.awaiting_writable ≡ false
      → conn.file_fd ≡ none
      → is_terminal conn.parser.state ≡ false
      → Sends loop conn.parser input
          (replies loop conn.parser input)
          w.wire
          (process_input loop conn input w)
  unfolding process_input
  process_input-Sends conn input w reading no_fd live =
      process_input_loop-Sends (length input + 1) conn input w reading no_fd live (omega arith)
