-- ===== src/EventLoop/Wakeups.antt =====
-- What the two handlers of a connection's events in event_loop.c come to.
use c_http_server.Prelude.{
  ℕ, ◌+◌, ◌≤◌, true, false, inl, inr, ◌⊎◌, Option-cases, List, [], ◌∷◌, Bytes, ◌≡◌, refl, ◌∙◌, sym,
  ap, arith, length, take, length-take,
}
use mathlib.Core.Path.{subst}
use c_http_server.HttpParser.{HttpRequestParser, http_parser_init}
use c_http_server.StaticFiles.Descriptors.{Descriptors, holding}
use c_http_server.EventLoop.{read_chunk_size, Connection}
use c_http_server.EventLoop.Flush.{Flushed, try_flush_response}
use c_http_server.EventLoop.Owed.{Delivers}
use c_http_server.EventLoop.Delivery.{Flush-cases, try_flush_response-Delivers}
use c_http_server.EventLoop.Serve.{
  Loop, World, after, Progress, returns, close_connection, file_content, finish_after_response_sent,
}
use c_http_server.EventLoop.Owns.{held, Owns, Finishes, close_connection-Owns, finish-Finishes}
use c_http_server.EventLoop.Outcomes.{
  IsReading, Behind, ReadsTo, nothing_read, ended, paused, reads_on, Handles, handled, unanswered,
  HandlesInput, Handles-map,
}
use c_http_server.EventLoop.Handles.{process_input-Handles}
use c_http_server.EventLoop.Stashed.{resume-HandlesInput}
use c_http_server.EventLoop.Handlers.{
  Read, got, end_of_stream, read_interrupted, read_would_block, read_failed, after_chunk,
  handle_client_readable, flushed_pending, flush_pending_write,
}

-- Handled as some chunk that fits in the buffer, by the parser of the connection at that time.
pub record HandlesChunk (base : Descriptors) (fd : ℕ) (p : Progress) : Type 0 where
  pub parser : HttpRequestParser
  pub chunk : Bytes
  pub fits : length chunk ≤ read_chunk_size
  pub handles : HandlesInput base fd parser chunk p

closes :
    (base : Descriptors) (conn : Connection) (w : World)
    → Owns base conn w
    → HandlesChunk base conn.fd (returns (after false conn (close_connection conn w)))
closes base conn w h = record {
  parser = conn.parser;
  chunk = [];
  fits = omega arith;
  handles =
      handled _
        (ended refl (ap (λ (v : World). v.descriptors) (close_connection-Owns base conn w h)));
}

module _ (base : Descriptors) (loop : Loop) (reads : List Read)
    (next : (conn : Connection) (w : World)
      → IsReading base conn w
      → HandlesChunk base conn.fd (handle_client_readable loop reads conn w)) where
  after_chunk-HandlesChunk :
      (fd : ℕ) (parser : HttpRequestParser) (chunk : Bytes) (p : Progress)
      → length chunk ≤ read_chunk_size
      → HandlesInput base fd parser chunk p
      → HandlesChunk base fd (after_chunk (handle_client_readable loop reads) p)
  unfolding after_chunk
  after_chunk-HandlesChunk fd parser chunk _ short unanswered = record {
    parser = parser;
    chunk = chunk;
    fits = short;
    handles = unanswered;
  }
  after_chunk-HandlesChunk fd parser chunk _ short (handled a (ended dead shut)) =
      let e : after_chunk (handle_client_readable loop reads) (returns a) ≡ returns a =
        simp dead refl in
      subst (HandlesChunk base fd) (sym e) (record {
        parser = parser;
        chunk = chunk;
        fits = short;
        handles = handled a (ended dead shut);
      })
  after_chunk-HandlesChunk fd parser chunk _ short
        (handled a (paused live writing same owns stash)) =
      let e : after_chunk (handle_client_readable loop reads) (returns a) ≡ returns a =
        simp (live, writing) refl in
      subst (HandlesChunk base fd) (sym e) (record {
        parser = parser;
        chunk = chunk;
        fits = short;
        handles = handled a (paused live writing same owns stash);
      })
  after_chunk-HandlesChunk fd parser chunk _ short (handled a (reads_on live same r parsed)) =
      let e : after_chunk (handle_client_readable loop reads) (returns a)
          ≡ handle_client_readable loop reads a.conn a.world =
        simp (live, r.reading) refl in
      subst (HandlesChunk base fd) (sym e) (
        subst (λ (n : ℕ). HandlesChunk base n (handle_client_readable loop reads a.conn a.world))
          same (next a.conn a.world r))

pub handle_client_readable-HandlesChunk :
    (base : Descriptors) (loop : Loop) (reads : List Read) (conn : Connection) (w : World)
    → IsReading base conn w
    → HandlesChunk base conn.fd (handle_client_readable loop reads conn w)
unfolding handle_client_readable
handle_client_readable-HandlesChunk base loop [] conn w r = record {
  parser = conn.parser;
  chunk = [];
  fits = omega arith;
  handles = unanswered;
}
handle_client_readable-HandlesChunk base loop (got bytes ∷ reads) conn w r =
    let chunk = take read_chunk_size bytes in
    after_chunk-HandlesChunk base loop reads (handle_client_readable-HandlesChunk base loop reads)
      conn.fd conn.parser chunk _ (omega (arith, length-take read_chunk_size bytes))
      (process_input-Handles base loop (record conn { last_activity = loop.clock w.times }) chunk
        (record w { times = w.times + 1 })
        (record { reading = r.reading; no_file = r.no_file; live = r.live; owns = r.owns }))
handle_client_readable-HandlesChunk base loop (end_of_stream ∷ reads) conn w r =
    closes base conn w r.owns
handle_client_readable-HandlesChunk base loop (read_interrupted ∷ reads) conn w r =
    handle_client_readable-HandlesChunk base loop reads conn w r
handle_client_readable-HandlesChunk base loop (read_would_block ∷ reads) conn w r = record {
  parser = conn.parser;
  chunk = [];
  fits = omega arith;
  handles = handled _ (reads_on refl refl r (nothing_read refl));
}
handle_client_readable-HandlesChunk base loop (read_failed ∷ reads) conn w r =
    closes base conn w r.owns

-- A connection whose response is blocked.
pub record IsPaused (base : Descriptors) (conn : Connection) (w : World) : Type 0 where
  pub writing : conn.awaiting_writable ≡ true
  pub owns : Owns base conn w

-- Still on the same response, of which only the cursors have moved; or on a later one, where what
-- is stashed is what follows the last request of the input that was stashed.
abbrev pub StaysPaused : Connection → Connection → Type 0
StaysPaused conn c =
    (c ≡ record conn { write_sent = c.write_sent; file_offset = c.file_offset })
    ⊎ Behind c.pending_input http_parser_init conn.pending_input

-- The stashed input is answered by a fresh parser.
abbrev pub HandlesStash : Descriptors → Connection → Progress → Type 0
HandlesStash base conn =
    Handles base conn.fd (StaysPaused conn)
      (λ c. ReadsTo c.parser http_parser_init conn.pending_input)

stash_answered :
    (base : Descriptors) (conn : Connection) (p : Progress)
    → HandlesInput base conn.fd http_parser_init conn.pending_input p
    → HandlesStash base conn p
stash_answered base conn p =
    Handles-map base conn.fd (λ c. Behind c.pending_input http_parser_init conn.pending_input)
      (λ c. ReadsTo c.parser http_parser_init conn.pending_input) (StaysPaused conn)
      (λ c. ReadsTo c.parser http_parser_init conn.pending_input) p (λ c. inr) (λ c r. r)

flushed_pending-HandlesStash :
    (base : Descriptors) (loop : Loop) (conn : Connection) (w : World) (content : Bytes)
    (f : Flushed)
    → IsPaused base conn w
    → Delivers content conn w.wire f
    → HandlesStash base conn (flushed_pending loop w f)
unfolding flushed_pending
flushed_pending-HandlesStash base loop conn w content f p d =
    let same_fd : f.conn.fd ≡ conn.fd = ap (λ (c : Connection). c.fd) d.same in
    let same_file : f.conn.file_fd ≡ conn.file_fd = ap (λ (c : Connection). c.file_fd) d.same in
    let same_pending : f.conn.pending_input ≡ conn.pending_input =
      ap (λ (c : Connection). c.pending_input) d.same in
    let kept : w.descriptors ≡ held f.conn.file_fd (holding f.conn.fd base) =
      p.owns ∙ rw (same_fd, same_file) refl in
    let w' : World = record w { wire = f.wire; answers = f.answers } in
    elim (Flush-cases f.flush) [
      | inl over ↦
          simp (over, flushed_pending)
            (stash_answered base conn _ (
              resume-HandlesInput base loop conn.fd conn.pending_input
                (finish_after_response_sent loop f.conn w')
                (subst
                  (λ (n : ℕ).
                    Finishes base n conn.pending_input (finish_after_response_sent loop f.conn w'))
                  same_fd
                  (subst
                    (λ (b : Bytes).
                      Finishes base f.conn.fd b (finish_after_response_sent loop f.conn w'))
                    same_pending (finish-Finishes base loop f.conn w' kept)))))
      | inr (inl stop) ↦
          simp (stop, flushed_pending)
            (handled (after true f.conn w') (
              paused refl (ap (λ (c : Connection). c.awaiting_writable) d.same ∙ p.writing) same_fd
                kept (inl d.same)))
      | inr (inr broken) ↦
          simp (broken, flushed_pending)
            (handled (after false f.conn (close_connection f.conn w')) (
              ended refl
                (ap (λ (v : World). v.descriptors) (close_connection-Owns base f.conn w' kept))))
    ]

-- An event that the socket is writable leaves a paused connection closed, with none of its
-- descriptors open; or paused on the same response, of which only the cursors have moved, or on a
-- later one, where what is stashed is just what follows the last request parsed of its stashed
-- input; or reading on, with the parser that all of that input leaves when a fresh one reads it; if
-- the kernel answers the transfers.
pub flush_pending_write-Handles :
    (base : Descriptors) (loop : Loop) (conn : Connection) (w : World)
    → IsPaused base conn w
    → HandlesStash base conn (flush_pending_write loop conn w)
unfolding flush_pending_write
flush_pending_write-Handles base loop conn w p =
    let content = file_content loop conn.file_fd in
    elim (Option-cases (try_flush_response content w.answers conn w.wire)) [
      | inl waiting_for ↦ simp (waiting_for, flush_pending_write) unanswered
      | inr (f, flush) ↦
          simp (flush, flush_pending_write)
            (flushed_pending-HandlesStash base loop conn w content f p
              (try_flush_response-Delivers content w.answers conn w.wire f flush))
    ]
