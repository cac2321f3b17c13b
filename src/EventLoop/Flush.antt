-- ===== src/EventLoop/Flush.antt =====
-- Sending a response: `try_flush_write_buffer`, `try_sendfile_body` and `try_flush_response` of
-- event_loop.c, against the answers of the kernel to `write` and `sendfile`.
use c_http_server.Prelude.{
  ℕ, ◌+◌, ◌-◌, Option, none, some, List, [], ◌∷◌, ◌++◌, Bytes, ltb, ◌==◌, if◌then◌else◌, length,
  take, drop,
}
use Prim.Native.Nat.{min}
use c_http_server.EventLoop.{sendfile_max_chunk, Connection}

-- How the kernel answers a transfer: it takes up to so many of the bytes it is asked for, or it
-- fails with EINTR, with EAGAIN or with any other error.
pub data Transfer : Type 0 where
  takes : ℕ → Transfer
  interrupted : Transfer
  would_block : Transfer
  failed : Transfer

-- The returned value with `*closed`.
pub data Flush : Type 0 where
  done blocked closed : Flush

-- The connection, the bytes that the socket has taken, and the answers not yet given.
pub record Flushed : Type 0 where
  pub flush : Flush
  pub conn : Connection
  pub wire : Bytes
  pub answers : List Transfer

abbrev pub flushed : Flush → Connection → Bytes → List Transfer → Flushed
flushed f conn wire answers = record { flush = f; conn = conn; wire = wire; answers = answers }

-- One round of the loop around `write`, the rest of the loop being `next_round`: `n` bytes are
-- taken.
abbrev pub written :
    ℕ → Connection → Bytes → List Transfer → (Connection → Bytes → Option Flushed) → Option Flushed
written n conn wire answers next_round =
    if n == 0
    then some (flushed closed conn wire answers)
    else next_round (record conn { write_sent = conn.write_sent + n })
        (wire ++ take n (drop conn.write_sent conn.write_buf))

-- `none` means that the kernel has not yet answered: the call has not returned.
unfoldable pub try_flush_write_buffer : List Transfer → Connection → Bytes → Option Flushed
try_flush_write_buffer [] conn wire =
    if ltb conn.write_sent (length conn.write_buf) then none else some (flushed done conn wire [])
try_flush_write_buffer (takes n ∷ answers) conn wire =
    let next_round = try_flush_write_buffer answers in
    if ltb conn.write_sent (length conn.write_buf)
    then written (min n (length conn.write_buf - conn.write_sent)) conn wire answers next_round
    else some (flushed done conn wire (takes n ∷ answers))
try_flush_write_buffer (interrupted ∷ answers) conn wire =
    let next_round = try_flush_write_buffer answers conn wire in
    if ltb conn.write_sent (length conn.write_buf)
    then next_round
    else some (flushed done conn wire (interrupted ∷ answers))
try_flush_write_buffer (would_block ∷ answers) conn wire =
    if ltb conn.write_sent (length conn.write_buf)
    then some (flushed blocked conn wire answers)
    else some (flushed done conn wire (would_block ∷ answers))
try_flush_write_buffer (failed ∷ answers) conn wire =
    if ltb conn.write_sent (length conn.write_buf)
    then some (flushed closed conn wire answers)
    else some (flushed done conn wire (failed ∷ answers))

-- `count` of the next `sendfile`.
abbrev pub sendfile_count : Connection → ℕ
sendfile_count conn = min sendfile_max_chunk (conn.file_size - conn.file_offset)

-- `n` bytes of the file are sent; none is the end of a file that shrank.
abbrev pub streamed :
    Bytes
    → ℕ
    → Connection
    → Bytes
    → List Transfer
    → (Connection → Bytes → Option Flushed)
    → Option Flushed
streamed content n conn wire answers next_round =
    if n == 0
    then some (flushed closed conn wire answers)
    else next_round (record conn { file_offset = conn.file_offset + n })
        (wire ++ take n (drop conn.file_offset content))

-- `content` is what the file behind `file_fd` holds: `sendfile` sends at most what is there from
-- the offset on, and moves the offset.
unfoldable pub try_sendfile_body : Bytes → List Transfer → Connection → Bytes → Option Flushed
try_sendfile_body content [] conn wire =
    if ltb conn.file_offset conn.file_size then none else some (flushed done conn wire [])
try_sendfile_body content (takes n ∷ answers) conn wire =
    let next_round = try_sendfile_body content answers in
    if ltb conn.file_offset conn.file_size
    then streamed content (min n (min (sendfile_count conn) (length content - conn.file_offset)))
        conn wire answers next_round
    else some (flushed done conn wire (takes n ∷ answers))
try_sendfile_body content (interrupted ∷ answers) conn wire =
    let next_round = try_sendfile_body content answers conn wire in
    if ltb conn.file_offset conn.file_size
    then next_round
    else some (flushed done conn wire (interrupted ∷ answers))
try_sendfile_body content (would_block ∷ answers) conn wire =
    if ltb conn.file_offset conn.file_size
    then some (flushed blocked conn wire answers)
    else some (flushed done conn wire (would_block ∷ answers))
try_sendfile_body content (failed ∷ answers) conn wire =
    if ltb conn.file_offset conn.file_size
    then some (flushed closed conn wire answers)
    else some (flushed done conn wire (failed ∷ answers))

-- Behind the head: the body is next if there is a file.
unfoldable pub then_body : Bytes → Flushed → Option Flushed
then_body content f = elim (f.flush) [
  | blocked ↦ some f
  | closed ↦ some f
  | done ↦ elim (f.conn.file_fd) [
    | none ↦ some f
    | some file_fd ↦ try_sendfile_body content f.answers f.conn f.wire
  ]
]

unfoldable pub try_flush_response : Bytes → List Transfer → Connection → Bytes → Option Flushed
try_flush_response content answers conn wire = elim (try_flush_write_buffer answers conn wire) [
  | none ↦ none
  | some f ↦ then_body content f
]
