-- ===== src/EventLoop/Owns.antt =====
-- Which descriptors the handlers of event_loop.c leave open behind a response.
use c_http_server.Prelude.{
  ℕ, ◌+◌, Bool-cases, true, false, inl, inr, Option, Option-cases, none, some, Bytes, ◌≡◌, refl,
  ◌∙◌, ap,
}
use c_http_server.HttpParser.{http_parser_init}
use c_http_server.StaticFiles.Descriptors.{Descriptors, holding, close-holding}
use c_http_server.EventLoop.{Connection}
use c_http_server.EventLoop.Serve.{
  Loop, World, After, release_file_body, close_connection, listen_again, finish_after_response_sent,
}

-- A file's descriptor stands in front of the others.
abbrev pub held : Option ℕ → Descriptors → Descriptors
held none ds = ds
held (some fd) ds = holding fd ds

-- Beside `base`, a live connection holds its socket, and its file if it has one.
abbrev pub Owns : Descriptors → Connection → World → Type 0
Owns base conn w = w.descriptors ≡ held conn.file_fd (holding conn.fd base)

-- Behind a handler: the connection was closed and nothing of it is left open; or it waits for the
-- socket to take more; or it is ready for the next request, with no file.
pub data Leaves (base : Descriptors) (fd : ℕ) (a : After) : Type 0 where
  gone : a.alive ≡ false → a.world.descriptors ≡ base → Leaves base fd a
  waiting :
      a.alive ≡ true
      → a.conn.awaiting_writable ≡ true
      → a.conn.fd ≡ fd
      → Owns base a.conn a.world
      → Leaves base fd a
  ready :
      a.alive ≡ true
      → a.conn.awaiting_writable ≡ false
      → a.conn.fd ≡ fd
      → a.conn.file_fd ≡ none
      → a.conn.parser ≡ http_parser_init
      → Owns base a.conn a.world
      → Leaves base fd a

-- Behind a response that is sent, where `pending` was stashed.
pub data Finishes (base : Descriptors) (fd : ℕ) (pending : Bytes) (a : After) : Type 0 where
  hung_up : a.alive ≡ false → a.world.descriptors ≡ base → Finishes base fd pending a
  listens :
      a.alive ≡ true
      → a.conn.awaiting_writable ≡ false
      → a.conn.fd ≡ fd
      → a.conn.file_fd ≡ none
      → a.conn.parser ≡ http_parser_init
      → a.conn.pending_input ≡ pending
      → Owns base a.conn a.world
      → Finishes base fd pending a

pub Finishes-Leaves :
    (base : Descriptors) (fd : ℕ) (pending : Bytes) (a : After)
    → Finishes base fd pending a
    → Leaves base fd a
Finishes-Leaves base fd pending a (hung_up dead shut) = gone dead shut
Finishes-Leaves base fd pending a (listens live reading same no_fd fresh e owns) =
    ready live reading same no_fd fresh owns

module _ (base : Descriptors) where
  pub release_held :
      (conn : Connection) (ds : Descriptors)
      → release_file_body conn (held conn.file_fd ds)
        ≡ (record conn { file_fd = none; file_offset = 0; file_size = 0 }, ds)
  unfolding release_file_body
  release_held conn ds = elim (Option-cases conn.file_fd) [
    | inl no_fd ↦
        let opened : release_file_body conn (held conn.file_fd ds)
            ≡ (record conn { file_offset = 0; file_size = 0 }, held conn.file_fd ds) =
          simp (no_fd, release_file_body) refl in
        opened
        ∙ ap
            (λ (x : Option ℕ).
              (record conn { file_fd = x; file_offset = 0; file_size = 0 }, held x ds))
            no_fd
    | inr (fd, has) ↦ simp (has, release_file_body, close-holding) refl
  ]

  pub close_connection-Owns :
      (conn : Connection) (w : World)
      → Owns base conn w
      → close_connection conn w ≡ record w { descriptors = base }
  unfolding close_connection
  close_connection-Owns conn w h =
      rw h (rw (release_held conn (holding conn.fd base)) (rw (close-holding conn.fd base) refl))

  pub listen_again-Finishes :
      (loop : Loop) (conn : Connection) (w : World)
      → conn.file_fd ≡ none
      → conn.parser ≡ http_parser_init
      → Owns base conn w
      → Finishes base conn.fd conn.pending_input (listen_again loop conn w)
  unfolding listen_again
  listen_again-Finishes loop conn w no_fd fresh h = elim (Bool-cases conn.awaiting_writable) [
    | inr reading ↦ simp reading (listens refl reading refl no_fd fresh refl h)
    | inl writing ↦ elim (Bool-cases (loop.mod_ok w.mods)) [
      | inl ok ↦ simp (writing, ok) (listens refl refl refl no_fd fresh refl h)
      | inr failed ↦
          simp (writing, failed)
            (hung_up refl (
              ap (λ (v : World). v.descriptors)
                (close_connection-Owns conn (record w { mods = w.mods + 1 }) h)))
    ]
  ]

  pub finish-Finishes :
      (loop : Loop) (conn : Connection) (w : World)
      → Owns base conn w
      → Finishes base conn.fd conn.pending_input (finish_after_response_sent loop conn w)
  unfolding finish_after_response_sent
  finish-Finishes loop conn w h = rw h (
      rw (release_held conn (holding conn.fd base)) (elim (Bool-cases conn.keep_alive_after_write) [
        | inr bye ↦ simp bye (
            hung_up refl (
              ap (λ (v : World). v.descriptors)
                (close_connection-Owns _ (record w { descriptors = holding conn.fd base }) refl)))
        | inl stay ↦ simp stay (listen_again-Finishes loop _ _ refl refl refl)
      ]))

  pub finish-Leaves :
      (loop : Loop) (conn : Connection) (w : World)
      → Owns base conn w
      → Leaves base conn.fd (finish_after_response_sent loop conn w)
  finish-Leaves loop conn w h =
      Finishes-Leaves base conn.fd conn.pending_input (finish_after_response_sent loop conn w)
        (finish-Finishes loop conn w h)
