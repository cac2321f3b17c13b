-- ===== src/EventLoop/Answers.antt =====
-- What answering one request, from its route to its response, leaves of a connection of
-- event_loop.c.
use c_http_server.Prelude.{
  ℕ, ◌+◌, Bool, Bool-cases, true, false, inl, inr, Option-cases, none, some, Bytes, ◌≡◌, refl, ◌∙◌,
  sym, ap, length, leb,
}
use mathlib.Core.Path.{subst}
use c_http_server.HttpParser.{HttpRequestParser}
use c_http_server.HttpParser.Execute.{http_parser_should_keep_alive}
use c_http_server.StaticFiles.{StaticFile}
use c_http_server.StaticFiles.Descriptors.{Descriptors, holding, close-holding}
use c_http_server.StaticFiles.Open.{Kernel, static_file_close}
use c_http_server.EventLoop.{response_buf_size, Connection, RoutedResponse}
use c_http_server.EventLoop.Routing.{bad_request, route_request}
use c_http_server.EventLoop.Routes.{
  Routes, home, hello, built_in_refused, illegal, missing, file_refused, file_served,
  route_request-Routes,
}
use c_http_server.EventLoop.Response.{response_text, set_write_buffer, adopt_file, prepare_response}
use c_http_server.EventLoop.Flush.{Flushed, try_flush_response}
use c_http_server.EventLoop.Owed.{Delivers}
use c_http_server.EventLoop.Delivery.{Flush-cases, try_flush_response-Delivers}
use c_http_server.EventLoop.Serve.{
  Loop, World, After, finish_after_response_sent, file_content, after_flush, send_response, respond,
}
use c_http_server.EventLoop.Owns.{
  held, Owns, Leaves, gone, waiting, close_connection-Owns, finish-Leaves,
}

module _ (base : Descriptors) where
  module _ (loop : Loop) (conn : Connection) (w : World) (h : Owns base conn w) where
    after_flush-Leaves :
        (content : Bytes) (f : Flushed)
        → Delivers content conn w.wire f
        → Leaves base conn.fd (after_flush loop w f)
    unfolding after_flush
    after_flush-Leaves content f d =
        let same_fd : f.conn.fd ≡ conn.fd = ap (λ (c : Connection). c.fd) d.same in
        let same_file : f.conn.file_fd ≡ conn.file_fd = ap (λ (c : Connection). c.file_fd) d.same in
        let kept : w.descriptors ≡ held f.conn.file_fd (holding f.conn.fd base) =
          h ∙ rw (same_fd, same_file) refl in
        let w' : World = record w { wire = f.wire; answers = f.answers } in
        elim (Flush-cases f.flush) [
          | inl over ↦
              simp (over, after_flush)
                (subst (λ (n : ℕ). Leaves base n (finish_after_response_sent loop f.conn w'))
                  same_fd (finish-Leaves base loop f.conn w' kept))
          | inr (inl stop) ↦ elim (Bool-cases (loop.mod_ok w.mods)) [
            | inl ok ↦ simp (stop, ok, after_flush) (waiting refl refl same_fd kept)
            | inr failed ↦
                simp (stop, failed, after_flush)
                  (gone refl (
                    ap (λ (v : World). v.descriptors)
                      (close_connection-Owns base f.conn (record w' { mods = w.mods + 1 }) kept)))
          ]
          | inr (inr broken) ↦
              simp (broken, after_flush)
                (gone refl
                  (ap (λ (v : World). v.descriptors) (close_connection-Owns base f.conn w' kept)))
        ]

    send_response-Leaves : (a : After) → send_response loop conn w ≡ some a → Leaves base conn.fd a
    unfolding send_response
    send_response-Leaves a e =
        let content = file_content loop conn.file_fd in
        elim (Option-cases (try_flush_response content w.answers conn w.wire)) [
          | inl unanswered ↦ absurd (cc (rw (unanswered, send_response) at e))
          | inr (f, flush) ↦
              let same : after_flush loop w f ≡ a = cc (rw (flush, send_response) at e) in
              rw same at (
                after_flush-Leaves content f
                  (try_flush_response-Delivers content w.answers conn w.wire f flush))
        ]

  close_held :
      (file : StaticFile) (ds : Descriptors) → (static_file_close file (held file.fd ds)).1 ≡ ds
  unfolding static_file_close
  close_held file ds = elim (Option-cases file.fd) [
    | inl no_fd ↦ simp (no_fd, static_file_close) refl
    | inr (fd, has) ↦ simp (has, static_file_close, close-holding) refl
  ]

  adopt_fd : (r : RoutedResponse) (conn : Connection) → (adopt_file r conn).fd ≡ conn.fd
  unfolding adopt_file
  adopt_fd r conn = elim (Option-cases r.file.fd) [
    | inl no_file ↦ simp (no_file, adopt_file) refl
    | inr (fd, has) ↦ simp (has, adopt_file) refl
  ]

  adopt_held :
      (r : RoutedResponse) (conn : Connection) (ds : Descriptors)
      → conn.file_fd ≡ none
      → held r.file.fd (holding conn.fd ds)
        ≡ held (adopt_file r conn).file_fd (holding (adopt_file r conn).fd ds)
  unfolding adopt_file
  adopt_held r conn ds no_fd = elim (Option-cases r.file.fd) [
    | inl no_file ↦ simp (no_file, adopt_file) (ap (λ x. held x (holding conn.fd ds)) (sym no_fd))
    | inr (fd, has) ↦ simp (has, adopt_file) refl
  ]

  -- The response owns the file that the routing left open.
  prepare_response-Owns :
      (conn : Connection) (r : RoutedResponse) (keep_alive : Bool) (worker_id : ℕ) (w : World)
      → conn.file_fd ≡ none
      → (let (prepared, ds) =
            prepare_response conn r keep_alive worker_id (held r.file.fd (holding conn.fd base)) in
          (prepared.fd ≡ conn.fd) × Owns base prepared (record w { descriptors = ds }))
  unfolding prepare_response set_write_buffer
  prepare_response-Owns conn r keep_alive worker_id w no_fd =
      elim (Bool-cases (leb response_buf_size (length (response_text r keep_alive worker_id)))) [
        | inl large ↦
            simp (large, prepare_response)
              (
                refl,
                close_held r.file (holding conn.fd base)
                    ∙ ap (λ x. held x (holding conn.fd base)) (sym no_fd),
              )
        | inr fits ↦
            let filled : Connection = record conn {
              keep_alive_after_write = keep_alive;
              write_buf = response_text r keep_alive worker_id;
              write_sent = 0;
            } in
            simp (fits, prepare_response) (adopt_fd r filled, adopt_held r filled base no_fd)
      ]

-- Routing leaves open what was open, and the file of its response.
Routes-held :
    (k : Kernel) (g_root : Bytes) (p : HttpRequestParser) (ds : Descriptors)
    (routed : RoutedResponse × Descriptors)
    → Routes k g_root p ds routed
    → routed.1 ≡ held routed.0.file.fd ds
Routes-held k g_root p ds _ (home at get) = refl
Routes-held k g_root p ds _ (hello at get) = refl
Routes-held k g_root p ds _ (built_in_refused b not_get) = refl
Routes-held k g_root p ds _ (illegal b e) = refl
Routes-held k g_root p ds _ (missing b e) = refl
Routes-held k g_root p ds _ (file_refused b s not_get) = refl
Routes-held k g_root p ds _ (file_served b s get) =
    ap (λ x. held x ds) (sym (ap (λ (f : StaticFile). f.fd) s.handed))

module _ (base : Descriptors) (loop : Loop) (conn : Connection) (w : World)
    (no_fd : conn.file_fd ≡ none) (h : Owns base conn w) where
  answer-Leaves :
      (r : RoutedResponse) (keep_alive : Bool) (ds : Descriptors) (a : After)
      → ds ≡ held r.file.fd (holding conn.fd base)
      → (let (prepared, ds') = prepare_response conn r keep_alive loop.worker_id ds in
          send_response loop prepared (record w { descriptors = ds' }))
        ≡ some a
      → Leaves base conn.fd a
  answer-Leaves r keep_alive ds a e s =
      let (same_fd, owns) = prepare_response-Owns base conn r keep_alive loop.worker_id w no_fd in
      let s' = rw e at s in
      subst (λ (n : ℕ). Leaves base n a) same_fd (send_response-Leaves base loop _ _ owns a s')

  socket_only : w.descriptors ≡ holding conn.fd base
  socket_only = h ∙ ap (λ x. held x (holding conn.fd base)) no_fd

  pub respond-Leaves :
      (malformed : Bool) (a : After)
      → respond loop malformed conn w ≡ some a
      → Leaves base conn.fd a
  unfolding respond
  respond-Leaves true a s = answer-Leaves bad_request false w.descriptors a socket_only s
  respond-Leaves false a s =
      let routed = route_request loop.kernel loop.g_root conn.parser w.descriptors in
      answer-Leaves routed.0 (http_parser_should_keep_alive conn.parser) routed.1 a
        (Routes-held loop.kernel loop.g_root conn.parser w.descriptors routed
            (route_request-Routes loop.kernel loop.g_root conn.parser w.descriptors)
          ∙ ap (λ x. held routed.0.file.fd x) socket_only)
        s
