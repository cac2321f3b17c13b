-- ===== src/EventLoop/Handlers.antt =====
-- The two handlers that an event on a connection calls: `handle_client_readable` and
-- `flush_pending_write` of event_loop.c.
use c_http_server.Prelude.{
  ◌+◌, true, false, not, none, some, List, [], ◌∷◌, Bytes, ◌==◌, if◌then◌else◌, length, take,
}
use c_http_server.EventLoop.{read_chunk_size, Connection}
use c_http_server.EventLoop.Flush.{done, blocked, closed, Flushed, try_flush_response}
use c_http_server.EventLoop.Serve.{
  Loop, World, After, after, Progress, returns, waits, out_of_fuel, close_connection, file_content,
  finish_after_response_sent, process_input,
}

-- How the kernel answers a `read`: with bytes, with the end of the stream, or with an error.
pub data Read : Type 0 where
  got : Bytes → Read
  end_of_stream : Read
  read_interrupted : Read
  read_would_block : Read
  read_failed : Read

-- Behind a chunk, the rest of the loop being `next_round`.
unfoldable pub after_chunk : (Connection → World → Progress) → Progress → Progress
after_chunk next_round waits = waits
after_chunk next_round out_of_fuel = out_of_fuel
after_chunk next_round (returns a) =
    if not a.alive
    then returns a
    else if a.conn.awaiting_writable
    then returns a
    else next_round a.conn a.world

-- On the answers to `read`, which gives at most the size of the buffer.
unfoldable pub handle_client_readable : Loop → List Read → Connection → World → Progress
handle_client_readable loop [] conn w = waits
handle_client_readable loop (got bytes ∷ reads) conn w =
    after_chunk (handle_client_readable loop reads) (
      process_input loop (record conn { last_activity = loop.clock w.times })
        (take read_chunk_size bytes) (record w { times = w.times + 1 }))
handle_client_readable loop (end_of_stream ∷ reads) conn w =
    returns (after false conn (close_connection conn w))
handle_client_readable loop (read_interrupted ∷ reads) conn w =
    handle_client_readable loop reads conn w
handle_client_readable loop (read_would_block ∷ reads) conn w = returns (after true conn w)
handle_client_readable loop (read_failed ∷ reads) conn w =
    returns (after false conn (close_connection conn w))

-- Behind the response, the input that was stashed.
unfoldable pub resume : Loop → After → Progress
resume loop a =
    if not a.alive
    then returns a
    else if length a.conn.pending_input == 0
    then returns a
    else process_input loop (record a.conn { pending_input = [] }) a.conn.pending_input a.world

-- Behind the flush.
unfoldable pub flushed_pending : Loop → World → Flushed → Progress
flushed_pending loop w f =
    let w' = record w { wire = f.wire; answers = f.answers } in
    elim (f.flush) [
      | closed ↦ returns (after false f.conn (close_connection f.conn w'))
      | blocked ↦ returns (after true f.conn w')
      | done ↦ resume loop (finish_after_response_sent loop f.conn w')
    ]

unfoldable pub flush_pending_write : Loop → Connection → World → Progress
flush_pending_write loop conn w =
    elim (try_flush_response (file_content loop conn.file_fd) w.answers conn w.wire) [
      | none ↦ waits
      | some f ↦ flushed_pending loop w f
    ]
