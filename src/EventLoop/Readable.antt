-- ===== src/EventLoop/Readable.antt =====
-- The order of the responses behind an event that a socket of event_loop.c is readable.
use c_http_server.Prelude.{true, false, List, [], ◌∷◌, ◌++◌, Bytes, take, ◌≡◌}
use c_http_server.HttpParser.{HttpRequestParser, http_parser_init}
use c_http_server.EventLoop.{read_chunk_size}
use c_http_server.EventLoop.Owed.{owed}
use c_http_server.EventLoop.Serve.{Loop, After, Progress, returns, waits, file_content}
use c_http_server.EventLoop.Handlers.{
  Read, got, end_of_stream, read_interrupted, read_would_block, read_failed,
}
use c_http_server.EventLoop.Replies.{behind, replies}
use c_http_server.EventLoop.Sends.{Sends}

-- The bytes that the reads give, up to the first that gives none.
abbrev pub stream_of : List Read → Bytes
stream_of [] = []
stream_of (got bytes ∷ reads) = take read_chunk_size bytes ++ stream_of reads
stream_of (end_of_stream ∷ reads) = []
stream_of (read_interrupted ∷ reads) = stream_of reads
stream_of (read_would_block ∷ reads) = []
stream_of (read_failed ∷ reads) = []

-- Behind the event, with `stream` to read by the parser `p` and `wire` sent before it: all of the
-- stream has been answered; or a response is blocked, and what is still to come completes the
-- replies to the part that was read; or the connection was closed, and what was sent is a beginning
-- of the replies to a part of the stream; or a call has not been answered.
pub data Serves (loop : Loop) (p : HttpRequestParser) (stream wire : Bytes)
    : Progress → Type 0 where
  serves_all :
      (a : After)
      → a.alive ≡ true
      → a.conn.awaiting_writable ≡ false
      → a.world.wire ≡ wire ++ replies loop p stream
      → Serves loop p stream wire (returns a)
  serves_part :
      (a : After) (part unread : Bytes)
      → a.alive ≡ true
      → a.conn.awaiting_writable ≡ true
      → part ++ unread ≡ stream
      → a.world.wire
          ++ (owed (file_content loop a.conn.file_fd) a.conn
              ++ behind a.conn.keep_alive_after_write
                  (replies loop http_parser_init a.conn.pending_input))
        ≡ wire ++ replies loop p part
      → Serves loop p stream wire (returns a)
  serves_until_closed :
      (a : After) (part unread rest : Bytes)
      → a.alive ≡ false
      → part ++ unread ≡ stream
      → a.world.wire ++ rest ≡ wire ++ replies loop p part
      → Serves loop p stream wire (returns a)
  serves_unanswered : Serves loop p stream wire waits
