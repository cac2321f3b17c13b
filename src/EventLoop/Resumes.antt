-- ===== src/EventLoop/Resumes.antt =====
-- The order of the responses behind an event that a socket of event_loop.c is writable.
use c_http_server.Prelude.{
  ℕ, Bool, Bool-cases, true, false, inl, inr, Option, Option-cases, [], ◌∷◌, ◌++◌, Bytes, length,
  ◌==◌, ◌≡◌, refl, sym, ◌∙◌, ap, arith,
}
use mathlib.Core.Path.{subst}
use c_http_server.HttpParser.{HttpRequestParser, http_parser_init, is_terminal}
use c_http_server.EventLoop.{Connection}
use c_http_server.EventLoop.Owed.{owed, Owes, Delivers}
use c_http_server.EventLoop.Flush.{Flushed, try_flush_response}
use c_http_server.EventLoop.Delivery.{Flush-cases, try_flush_response-Delivers}
use c_http_server.EventLoop.Serve.{
  Loop, World, After, after, returns, close_connection, finish_after_response_sent, file_content,
  process_input,
}
use c_http_server.EventLoop.Streams.{Reads, read_nothing}
use c_http_server.EventLoop.Handlers.{resume, flushed_pending, flush_pending_write}
use c_http_server.EventLoop.Replies.{behind, replies_in, replies}
use c_http_server.EventLoop.Replies.Answered.{Ended, ended_closed, ended_ready, finish-Ended}
use c_http_server.EventLoop.Sends.{
  all_sent, to_send, given_up, Sends, sends, not_answered, joined, Sends-from,
}
use c_http_server.EventLoop.Pipeline.{process_input-Sends}

module _ (loop : Loop) where
  -- The replies to what is stashed.
  abbrev pub later : Bool → Bytes → Bytes
  later stay pending = behind stay (replies loop http_parser_init pending)

  no_replies :
      (stay : Bool) (pending : Bytes) → length pending == 0 ≡ true → later stay pending ≡ []
  unfolding replies_in
  no_replies true [] e = refl
  no_replies false pending e = refl
  no_replies true (c ∷ cs) e = absurd (ground (arith, e))

  nothing_read :
      (pending : Bytes) (q : HttpRequestParser)
      → length pending == 0 ≡ true
      → q ≡ http_parser_init
      → Reads loop http_parser_init pending q
  nothing_read [] q empty fresh = subst (Reads loop http_parser_init []) (sym fresh) read_nothing
  nothing_read (c ∷ cs) q empty fresh = absurd (ground (arith, empty))

  resume-Sends :
      (stay : Bool) (pending wire : Bytes) (a : After)
      → Ended loop stay pending wire a
      → Sends loop http_parser_init pending (later stay pending) wire (resume loop a)
  unfolding resume
  resume-Sends stay pending wire a (ended_closed dead same) =
      simp dead
        (sends a (later stay pending) (ap (λ x. x ++ later stay pending) same) (given_up dead))
  resume-Sends stay pending wire a (ended_ready live reading stays fresh no_fd stashed same) =
      let goes_on : is_terminal a.conn.parser.state ≡ false = rw fresh refl in
      let total_is = Sends loop http_parser_init pending (later stay pending) wire in
      elim (Bool-cases (length a.conn.pending_input == 0)) [
        | inl empty ↦
            let none_left : later stay pending ≡ [] =
              ap (later stay) (sym stashed) ∙ no_replies stay a.conn.pending_input empty in
            let e : resume loop a ≡ returns a = simp (live, empty) refl in
            let read : Reads loop http_parser_init pending a.conn.parser =
              nothing_read pending a.conn.parser
                (ap (λ (x : Bytes). length x == 0) (sym stashed) ∙ empty) fresh in
            subst total_is (sym e) (
              sends a [] (ap (λ x. x ++ []) same ∙ ap (λ x. wire ++ x) (sym none_left))
                (all_sent live reading no_fd goes_on read refl))
        | inr some_left ↦
            let conn : Connection = record a.conn { pending_input = [] } in
            let e : resume loop a ≡ process_input loop conn a.conn.pending_input a.world =
              simp (live, some_left) refl in
            let total : replies loop a.conn.parser a.conn.pending_input ≡ later stay pending =
              ap (λ p. replies loop p a.conn.pending_input) fresh
              ∙ ap (replies loop http_parser_init) stashed
              ∙ ap (λ b. later b pending) (sym stays) in
            subst total_is (sym e) (
              Sends-from loop a.conn.parser http_parser_init a.conn.pending_input pending
                (replies loop a.conn.parser a.conn.pending_input) (later stay pending) a.world.wire
                wire _
                (λ q r.
                  subst (λ (x : Bytes). Reads loop http_parser_init x q) stashed
                    (subst (λ (x : HttpRequestParser). Reads loop x a.conn.pending_input q) fresh
                      r))
                (ap (λ x. x ++ replies loop a.conn.parser a.conn.pending_input) same
                  ∙ ap (λ x. wire ++ x) total)
                (process_input-Sends loop conn a.conn.pending_input a.world reading no_fd goes_on))
      ]

  flushed_pending-Sends :
      (conn : Connection) (w : World) (f : Flushed)
      → conn.awaiting_writable ≡ true
      → Delivers (file_content loop conn.file_fd) conn w.wire f
      → Sends loop http_parser_init conn.pending_input
          (owed (file_content loop conn.file_fd) conn
            ++ later conn.keep_alive_after_write conn.pending_input)
          w.wire
          (flushed_pending loop w f)
  unfolding flushed_pending close_connection
  flushed_pending-Sends conn w f writing d =
      let content = file_content loop conn.file_fd in
      let more = later conn.keep_alive_after_write conn.pending_input in
      let same_file : f.conn.file_fd ≡ conn.file_fd = ap (λ (c : Connection). c.file_fd) d.same in
      let same_more : later f.conn.keep_alive_after_write f.conn.pending_input ≡ more =
        ap (λ (c : Connection). later c.keep_alive_after_write c.pending_input) d.same in
      let same_pending : f.conn.pending_input ≡ conn.pending_input =
        ap (λ (c : Connection). c.pending_input) d.same in
      let w' : World = record w { wire = f.wire; answers = f.answers } in
      let so_far =
        joined f.wire (owed content f.conn) w.wire (owed content conn) more d.conserved in
      elim (Flush-cases f.flush) [
        | inl over ↦
            let empty : owed content f.conn ≡ [] = subst (Owes content f.conn) over d.owes in
            simp (over, flushed_pending)
              (Sends-from loop http_parser_init http_parser_init f.conn.pending_input
                conn.pending_input (later f.conn.keep_alive_after_write f.conn.pending_input) _
                f.wire w.wire _
                (λ q r. subst (λ (x : Bytes). Reads loop http_parser_init x q) same_pending r)
                (ap (λ x. f.wire ++ x) same_more
                  ∙ ap (λ x. f.wire ++ (x ++ more)) (sym empty)
                  ∙ so_far)
                (resume-Sends f.conn.keep_alive_after_write f.conn.pending_input f.wire
                  (finish_after_response_sent loop f.conn w') (finish-Ended loop f.conn w')))
        | inr (inl stop) ↦
            simp (stop, flushed_pending)
              (sends (after true f.conn w') _
                (ap
                    (λ (q : Option ℕ).
                      f.wire
                      ++ (owed (file_content loop q) f.conn
                          ++ later f.conn.keep_alive_after_write f.conn.pending_input))
                    same_file
                  ∙ ap (λ x. f.wire ++ (owed content f.conn ++ x)) same_more
                  ∙ so_far)
                (to_send refl (ap (λ (c : Connection). c.awaiting_writable) d.same ∙ writing) refl))
        | inr (inr broken) ↦
            simp (broken, flushed_pending)
              (sends (after false f.conn (close_connection f.conn w')) (owed content f.conn ++ more)
                so_far (given_up refl))
      ]

  -- An event that the socket is writable goes on with the blocked response where it stopped, and
  -- then with the replies to the stashed input, in order, if the connection stays open behind the
  -- response: what is on the socket behind the event, with what is still to come, is what was there
  -- before it, followed by the rest of the response and those replies. Something may be missing at
  -- the end only where the connection was closed.
  pub flush_pending_write-Sends :
      (conn : Connection) (w : World)
      → conn.awaiting_writable ≡ true
      → Sends loop http_parser_init conn.pending_input
          (owed (file_content loop conn.file_fd) conn
            ++ later conn.keep_alive_after_write conn.pending_input)
          w.wire
          (flush_pending_write loop conn w)
  unfolding flush_pending_write
  flush_pending_write-Sends conn w writing =
      let content = file_content loop conn.file_fd in
      elim (Option-cases (try_flush_response content w.answers conn w.wire)) [
        | inl waiting_for ↦ simp (waiting_for, flush_pending_write) not_answered
        | inr (f, flush) ↦
            simp (flush, flush_pending_write)
              (flushed_pending-Sends conn w f writing
                (try_flush_response-Delivers content w.answers conn w.wire f flush))
      ]
