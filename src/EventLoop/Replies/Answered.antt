-- ===== src/EventLoop/Replies/Answered.antt =====
-- What sending one response of event_loop.c leaves on the socket.
use c_http_server.Prelude.{
  ℕ, Bool, Bool-cases, true, false, inl, inr, Option, Option-cases, none, some, [], ◌++◌, Bytes,
  leb, length, append-nil, ◌≡◌, refl, sym, ◌∙◌, ap, ◌&&◌,
}
use mathlib.Core.Path.{subst}
use c_http_server.HttpParser.{http_parser_init}
use c_http_server.HttpParser.Execute.{http_parser_should_keep_alive}
use c_http_server.StaticFiles.Descriptors.{Descriptors, none_open}
use c_http_server.EventLoop.{response_buf_size, Connection, RoutedResponse}
use c_http_server.EventLoop.Routing.{bad_request, route_request}
use c_http_server.EventLoop.Response.{response_text, set_write_buffer, adopt_file, prepare_response}
use c_http_server.EventLoop.Owed.{owed, Owes, Delivers}
use c_http_server.EventLoop.Flush.{Flushed, try_flush_response}
use c_http_server.EventLoop.Delivery.{Flush-cases, try_flush_response-Delivers}
use c_http_server.EventLoop.Serve.{
  Loop, World, After, release_file_body, close_connection, listen_again, finish_after_response_sent,
  file_content, after_flush, send_response, respond,
}
use c_http_server.EventLoop.Steady.{route_request-same}
use c_http_server.EventLoop.Replies.{does_fit, reply, routed, stays_open}

and_false : (b : Bool) → false ≡ b && false
and_false true = refl
and_false false = refl

and_true : (b : Bool) → b ≡ b && true
and_true true = refl
and_true false = refl

module _ (loop : Loop) where
  -- What the prepared connection owes is the reply.
  prepare_response-owed :
      (conn : Connection) (r : RoutedResponse) (keep_alive : Bool) (ds : Descriptors)
      → conn.file_fd ≡ none
      → (let prepared = (prepare_response conn r keep_alive loop.worker_id ds).0 in
          (owed (file_content loop prepared.file_fd) prepared ≡ reply loop r keep_alive)
          × (prepared.keep_alive_after_write ≡ keep_alive && does_fit r keep_alive loop.worker_id)
          × (prepared.pending_input ≡ conn.pending_input)
          × (prepared.awaiting_writable ≡ conn.awaiting_writable))
  unfolding prepare_response set_write_buffer adopt_file
  prepare_response-owed conn r keep_alive ds no_fd =
      elim (Bool-cases
        (leb response_buf_size (length (response_text r keep_alive loop.worker_id)))) [
          | inl large ↦
              simp (large, no_fd, prepare_response, set_write_buffer)
                (refl, and_false keep_alive, refl, refl)
          | inr fits ↦ elim (Option-cases r.file.fd) [
            | inl no_file ↦
                simp (fits, no_fd, no_file, prepare_response, set_write_buffer, adopt_file)
                  (refl, and_true keep_alive, refl, refl)
            | inr (fd, has) ↦
                simp (fits, has, prepare_response, set_write_buffer, adopt_file)
                  (refl, and_true keep_alive, refl, refl)
          ]
        ]

  release-wire : (conn : Connection) (w : World) → (close_connection conn w).wire ≡ w.wire
  unfolding close_connection
  release-wire conn w = refl

  -- A response that is sent adds nothing, and the connection is closed or ready for a request.
  pub data Ended (stay : Bool) (pending wire : Bytes) (a : After) : Type 0 where
    ended_closed : a.alive ≡ false → a.world.wire ≡ wire → Ended stay pending wire a
    ended_ready :
        a.alive ≡ true
        → a.conn.awaiting_writable ≡ false
        → stay ≡ true
        → a.conn.parser ≡ http_parser_init
        → a.conn.file_fd ≡ none
        → a.conn.pending_input ≡ pending
        → a.world.wire ≡ wire
        → Ended stay pending wire a

  listen_again-Ended :
      (pending : Bytes) (conn : Connection) (w : World)
      → conn.parser ≡ http_parser_init
      → conn.file_fd ≡ none
      → conn.pending_input ≡ pending
      → Ended true pending w.wire (listen_again loop conn w)
  unfolding listen_again
  listen_again-Ended pending conn w fresh no_fd stashed = elim (Bool-cases conn.awaiting_writable) [
    | inr reading ↦ simp reading (ended_ready refl reading refl fresh no_fd stashed refl)
    | inl writing ↦ elim (Bool-cases (loop.mod_ok w.mods)) [
      | inl ok ↦ simp (writing, ok) (ended_ready refl refl refl fresh no_fd stashed refl)
      | inr bad ↦ simp (writing, bad) (ended_closed refl (release-wire conn _))
    ]
  ]

  release_file_body-keeps :
      (conn : Connection) (ds : Descriptors)
      → ((release_file_body conn ds).0.keep_alive_after_write ≡ conn.keep_alive_after_write)
        × ((release_file_body conn ds).0.file_fd ≡ none)
        × ((release_file_body conn ds).0.pending_input ≡ conn.pending_input)
  unfolding release_file_body
  release_file_body-keeps conn ds = elim (Option-cases conn.file_fd) [
    | inl no_fd ↦ simp (no_fd, release_file_body) (refl, refl, refl)
    | inr (fd, has) ↦ simp (has, release_file_body) (refl, refl, refl)
  ]

  pub finish-Ended :
      (conn : Connection) (w : World)
      → Ended conn.keep_alive_after_write conn.pending_input w.wire
          (finish_after_response_sent loop conn w)
  unfolding finish_after_response_sent
  finish-Ended conn w =
      let (kept, no_fd, pending) = release_file_body-keeps conn w.descriptors in
      elim (Bool-cases conn.keep_alive_after_write) [
        | inr bye ↦ simp (kept, bye) (ended_closed refl (release-wire _ _))
        | inl stay ↦
            simp (kept, stay) (listen_again-Ended conn.pending_input _ _ refl no_fd pending)
      ]

  -- What one response leaves on the socket.
  pub data Answered (stay : Bool) (total wire : Bytes) (a : After) : Type 0 where
    cut_off :
        a.alive ≡ false
        → (rest : Bytes) → a.world.wire ++ rest ≡ wire ++ total
        → Answered stay total wire a
    to_resume :
        a.alive ≡ true
        → a.conn.awaiting_writable ≡ true
        → a.conn.keep_alive_after_write ≡ stay
        → a.world.wire ++ owed (file_content loop a.conn.file_fd) a.conn ≡ wire ++ total
        → Answered stay total wire a
    sent :
        a.alive ≡ true
        → a.conn.awaiting_writable ≡ false
        → stay ≡ true
        → a.conn.parser ≡ http_parser_init
        → a.conn.file_fd ≡ none
        → a.world.wire ≡ wire ++ total
        → Answered stay total wire a

  after_flush-Answered :
      (conn : Connection) (w : World) (f : Flushed)
      → Delivers (file_content loop conn.file_fd) conn w.wire f
      → Answered conn.keep_alive_after_write
          (owed (file_content loop conn.file_fd) conn)
          w.wire
          (after_flush loop w f)
  unfolding after_flush close_connection
  after_flush-Answered conn w f d =
      let content = file_content loop conn.file_fd in
      let same_file : f.conn.file_fd ≡ conn.file_fd = ap (λ (c : Connection). c.file_fd) d.same in
      let same_stay : f.conn.keep_alive_after_write ≡ conn.keep_alive_after_write =
        ap (λ (c : Connection). c.keep_alive_after_write) d.same in
      let w' : World = record w { wire = f.wire; answers = f.answers } in
      elim (Flush-cases f.flush) [
        | inl over ↦
            let empty : owed content f.conn ≡ [] = subst (Owes content f.conn) over d.owes in
            let all : f.wire ≡ w.wire ++ owed content conn =
              sym (append-nil f.wire) ∙ ap (λ x. f.wire ++ x) (sym empty) ∙ d.conserved in
            simp (over, after_flush)
              (elim (finish-Ended f.conn w') [
                | ended_closed dead same ↦ cut_off dead [] (append-nil _ ∙ same ∙ all)
                | ended_ready live reading stay fresh no_fd pending same ↦
                    sent live reading (sym same_stay ∙ stay) fresh no_fd (same ∙ all)
              ])
        | inr (inl stop) ↦ elim (Bool-cases (loop.mod_ok w.mods)) [
          | inl ok ↦
              simp (stop, ok, after_flush)
                (to_resume refl refl same_stay (
                  ap (λ (q : Option ℕ). f.wire ++ owed (file_content loop q) f.conn) same_file
                  ∙ d.conserved))
          | inr bad ↦ simp (stop, bad, after_flush) (cut_off refl (owed content f.conn) d.conserved)
        ]
        | inr (inr broken) ↦
            simp (broken, after_flush) (cut_off refl (owed content f.conn) d.conserved)
      ]

  send_response-Answered :
      (conn : Connection) (w : World) (a : After)
      → send_response loop conn w ≡ some a
      → Answered conn.keep_alive_after_write (owed (file_content loop conn.file_fd) conn) w.wire a
  unfolding send_response
  send_response-Answered conn w a e =
      let content = file_content loop conn.file_fd in
      elim (Option-cases (try_flush_response content w.answers conn w.wire)) [
        | inl unanswered ↦ absurd (cc (rw (unanswered, send_response) at e))
        | inr (f, flush) ↦
            let same : after_flush loop w f ≡ a = cc (rw (flush, send_response) at e) in
            subst (Answered conn.keep_alive_after_write (owed content conn) w.wire) same (
              after_flush-Answered conn w f
                (try_flush_response-Delivers content w.answers conn w.wire f flush))
      ]

  prepared-Answered :
      (conn : Connection) (w : World) (r : RoutedResponse) (keep_alive : Bool) (ds : Descriptors)
      (a : After)
      → conn.file_fd ≡ none
      → (let (prepared, ds') = prepare_response conn r keep_alive loop.worker_id ds in
          send_response loop prepared (record w { descriptors = ds' }))
        ≡ some a
      → Answered
          (keep_alive && does_fit r keep_alive loop.worker_id)
          (reply loop r keep_alive)
          w.wire
          a
  prepared-Answered conn w r keep_alive ds a no_fd e =
      let (owes, stays, pending, writing) = prepare_response-owed conn r keep_alive ds no_fd in
      let prepared = (prepare_response conn r keep_alive loop.worker_id ds).0 in
      let bytes = owed (file_content loop prepared.file_fd) prepared in
      subst
        (λ (x : Bytes). Answered (keep_alive && does_fit r keep_alive loop.worker_id) x w.wire a)
        owes
        (subst (λ (b : Bool). Answered b bytes w.wire a) stays
          (send_response-Answered prepared _ a e))

  -- What answering a request leaves on the socket.
  pub respond-Answered :
      (conn : Connection) (w : World) (a : After)
      → conn.file_fd ≡ none
      → respond loop false conn w ≡ some a
      → Answered
          (stays_open loop conn.parser)
          (reply loop (routed loop conn.parser) (http_parser_should_keep_alive conn.parser))
          w.wire
          a
  unfolding respond
  respond-Answered conn w a no_fd e =
      let keep_alive = http_parser_should_keep_alive conn.parser in
      let same = route_request-same loop.kernel loop.g_root conn.parser w.descriptors none_open in
      subst
        (λ (r : RoutedResponse).
          Answered (keep_alive && does_fit r keep_alive loop.worker_id) (reply loop r keep_alive)
            w.wire a)
        same
        (prepared-Answered conn w
          (route_request loop.kernel loop.g_root conn.parser w.descriptors).0 keep_alive
          (route_request loop.kernel loop.g_root conn.parser w.descriptors).1 a no_fd e)

  pub respond-refused :
      (conn : Connection) (w : World) (a : After)
      → conn.file_fd ≡ none
      → respond loop true conn w ≡ some a
      → Answered false (reply loop bad_request false) w.wire a
  unfolding respond
  respond-refused conn w a no_fd e =
      prepared-Answered conn w bad_request false w.descriptors a no_fd e
