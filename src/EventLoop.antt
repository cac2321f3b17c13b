-- ===== src/EventLoop.antt =====
-- The constants and types of src/event_loop.c. The three buffers are the lists of the bytes below
-- their lengths: `write_buf` with `write_len`, `pending_input` with `pending_input_len`. The links
-- `prev` and `next` are in EventLoop.List.
pub mod Routing
pub mod Response
pub mod Flush
pub mod Owed
pub mod Delivery
pub mod Returns
pub mod List
pub mod Chain
pub mod Linked
pub mod Sweep
pub mod Serve
pub mod Owns
pub mod Answers
pub mod Outcomes
pub mod Handles
pub mod Handlers
pub mod Stashed
pub mod Wakeups
pub mod Server
pub mod Dispatch
pub mod Members
pub mod Live
pub mod Closes
pub mod Accepts
pub mod Batches
pub mod Run
pub mod Runs
pub mod SetUp
pub mod Stops
pub mod Ends
pub mod Steady
pub mod Replies
pub mod Streams
pub mod Sends
pub mod Pipeline
pub mod Resumes
pub mod Readable
pub mod Routes
pub mod Fits
mod Tests
use c_http_server.Prelude.{ℕ, Bool, Bytes, Option}
use c_http_server.HttpParser.{HttpRequestParser}
use c_http_server.StaticFiles.{StaticFile}

abbrev pub read_chunk_size : ℕ
read_chunk_size = 4096

abbrev pub response_buf_size : ℕ
response_buf_size = 512

abbrev pub sendfile_max_chunk : ℕ
sendfile_max_chunk = 0x7ffff000

-- `file_fd` is `none` for -1.
pub record Connection : Type 0 where
  pub fd : ℕ
  pub parser : HttpRequestParser
  pub write_buf : Bytes
  pub write_sent : ℕ
  pub keep_alive_after_write : Bool
  pub awaiting_writable : Bool
  pub file_fd : Option ℕ
  pub file_offset : ℕ
  pub file_size : ℕ
  pub pending_input : Bytes
  pub last_activity : ℕ

-- `none` is `NULL`.
pub record RoutedResponse : Type 0 where
  pub status : ℕ
  pub reason : Bytes
  pub body : Option Bytes
  pub content_type : Option Bytes
  pub extra_header : Option Bytes
  pub file : StaticFile
