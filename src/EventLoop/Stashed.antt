-- ===== src/EventLoop/Stashed.antt =====
-- How the input that was stashed is answered behind the response, by `flush_pending_write` of
-- event_loop.c.
use c_http_server.Prelude.{
  ℕ, Bool-cases, true, inl, inr, [], ◌∷◌, Bytes, ◌==◌, ◌≡◌, refl, ◌∙◌, sym, arith, length,
}
use mathlib.Core.Path.{subst}
use c_http_server.HttpParser.{HttpRequestParser, http_parser_init}
use c_http_server.StaticFiles.Descriptors.{Descriptors}
use c_http_server.EventLoop.{Connection}
use c_http_server.EventLoop.Serve.{Loop, After, returns, process_input}
use c_http_server.EventLoop.Owns.{Finishes, hung_up, listens}
use c_http_server.EventLoop.Outcomes.{
  IsReading, nothing_read, ended, reads_on, handled, HandlesInput,
}
use c_http_server.EventLoop.Handles.{process_input-Handles}
use c_http_server.EventLoop.Handlers.{resume}

empty_of_length : (b : Bytes) → (length b == 0) ≡ true → b ≡ []
empty_of_length [] e = refl
empty_of_length (c ∷ cs) e = absurd (ground arith)

pub resume-HandlesInput :
    (base : Descriptors) (loop : Loop) (fd : ℕ) (pending : Bytes) (a : After)
    → Finishes base fd pending a
    → HandlesInput base fd http_parser_init pending (resume loop a)
unfolding resume
resume-HandlesInput base loop fd pending a (hung_up dead shut) =
    let e : resume loop a ≡ returns a = simp dead refl in
    subst (HandlesInput base fd http_parser_init pending) (sym e) (handled a (ended dead shut))
resume-HandlesInput base loop fd pending a (listens live reading same no_file fresh stashed owns) =
    let fresh_conn : IsReading base a.conn a.world = record {
      reading = reading;
      no_file = no_file;
      live = rw fresh refl;
      owns = owns;
    } in
    elim (Bool-cases (length a.conn.pending_input == 0)) [
      | inl empty ↦
          let e : resume loop a ≡ returns a = simp (live, empty) refl in
          let none_left : pending ≡ [] = sym stashed ∙ empty_of_length a.conn.pending_input empty in
          subst (HandlesInput base fd http_parser_init pending) (sym e) (
            subst (λ (b : Bytes). HandlesInput base fd http_parser_init b (returns a))
              (sym none_left) (handled a (reads_on live same fresh_conn (nothing_read fresh))))
      | inr some_left ↦
          let conn : Connection = record a.conn { pending_input = [] } in
          let run = process_input loop conn a.conn.pending_input a.world in
          let e : resume loop a ≡ run = simp (live, some_left) refl in
          let answered =
            process_input-Handles base loop conn a.conn.pending_input a.world (record {
              reading = reading;
              no_file = no_file;
              live = rw fresh refl;
              owns = owns;
            }) in
          subst (HandlesInput base fd http_parser_init pending) (sym e) (
            subst (λ (n : ℕ). HandlesInput base n http_parser_init pending run) same
              (subst (λ (b : Bytes). HandlesInput base a.conn.fd http_parser_init b run) stashed
                (subst
                  (λ (q : HttpRequestParser).
                    HandlesInput base a.conn.fd q a.conn.pending_input run)
                  fresh answered)))
    ]
