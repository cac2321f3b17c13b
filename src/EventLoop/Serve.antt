-- ===== src/EventLoop/Serve.antt =====
-- Serving the requests of one connection: `release_file_body`, `close_connection`,
-- `finish_after_response_sent`, `send_response`, `stash_pending_input` and `process_input` of
-- event_loop.c. Taking the connection off the loop's list is not part of `close_connection` here.
use c_http_server.Prelude.{
  ℕ, zero, suc, ◌+◌, Bool, true, false, not, Option, none, some, List, [], ◌∷◌, Bytes,
  if◌then◌else◌, length, drop,
}
use c_http_server.HttpParser.{http_parser_init, parse_incomplete, parse_complete, parse_error}
use c_http_server.HttpParser.Execute.{Outcome, http_parser_execute, http_parser_should_keep_alive}
use c_http_server.StaticFiles.Descriptors.{Descriptors, close}
use c_http_server.StaticFiles.Open.{Kernel}
use c_http_server.EventLoop.{Connection}
use c_http_server.EventLoop.Routing.{bad_request, route_request}
use c_http_server.EventLoop.Response.{prepare_response}
use c_http_server.EventLoop.Flush.{Transfer, done, blocked, closed, Flushed, try_flush_response}

-- The loop's worker and document root, and what the system answers: to the calls of
-- static_files.c, to the n-th `epoll_ctl` that changes a registration, to the n-th `time`, and what
-- the file behind a descriptor holds.
pub record Loop : Type 0 where
  pub kernel : Kernel
  pub g_root : Bytes
  pub worker_id : ℕ
  pub content : ℕ → Bytes
  pub mod_ok : ℕ → Bool
  pub clock : ℕ → ℕ

-- What the connection's handlers have done so far: the bytes on the socket, the answers to
-- transfers not yet given, the open descriptors, and the calls of `epoll_ctl` and `time`.
pub record World : Type 0 where
  pub wire : Bytes
  pub answers : List Transfer
  pub descriptors : Descriptors
  pub mods : ℕ
  pub times : ℕ

-- The returned value, false where the connection was closed, with the state after the call.
pub record After : Type 0 where
  pub alive : Bool
  pub conn : Connection
  pub world : World

abbrev pub after : Bool → Connection → World → After
after alive conn w = record { alive = alive; conn = conn; world = w }

unfoldable pub release_file_body : Connection → Descriptors → Connection × Descriptors
release_file_body conn ds = elim (conn.file_fd) [
  | some fd ↦ (record conn { file_fd = none; file_offset = 0; file_size = 0 }, close fd ds)
  | none ↦ (record conn { file_offset = 0; file_size = 0 }, ds)
]

unfoldable pub close_connection : Connection → World → World
close_connection conn w =
    let (released, ds) = release_file_body conn w.descriptors in
    record w { descriptors = close released.fd ds }

-- Asking for EPOLLIN again, where EPOLLOUT was asked for.
unfoldable pub listen_again : Loop → Connection → World → After
listen_again loop conn w =
    if not conn.awaiting_writable
    then after true conn w
    else if loop.mod_ok w.mods
    then after true (record conn { awaiting_writable = false }) (record w { mods = w.mods + 1 })
    else after false conn (close_connection conn (record w { mods = w.mods + 1 }))

unfoldable pub finish_after_response_sent : Loop → Connection → World → After
finish_after_response_sent loop conn w =
    let (released, ds) = release_file_body conn w.descriptors in
    if not released.keep_alive_after_write
    then after false released (close_connection released (record w { descriptors = ds }))
    else listen_again loop
        (record released {
          parser = http_parser_init;
          write_buf = [];
          write_sent = 0;
          last_activity = loop.clock w.times;
        })
        (record w { descriptors = ds; times = w.times + 1 })

abbrev pub file_content : Loop → Option ℕ → Bytes
file_content loop none = []
file_content loop (some fd) = loop.content fd

-- Behind the flush.
unfoldable pub after_flush : Loop → World → Flushed → After
after_flush loop w f =
    let w' = record w { wire = f.wire; answers = f.answers } in
    elim (f.flush) [
      | closed ↦ after false f.conn (close_connection f.conn w')
      | blocked ↦
          if loop.mod_ok w.mods
          then after true (record f.conn { awaiting_writable = true })
              (record w' { mods = w.mods + 1 })
          else after false f.conn (close_connection f.conn (record w' { mods = w.mods + 1 }))
      | done ↦ finish_after_response_sent loop f.conn w'
    ]

-- `none`: the kernel has not yet answered a transfer.
unfoldable pub send_response : Loop → Connection → World → Option After
send_response loop conn w =
    elim (try_flush_response (file_content loop conn.file_fd) w.answers conn w.wire) [
      | none ↦ none
      | some f ↦ some (after_flush loop w f)
    ]

-- The response to one request, whose parsing has ended.
unfoldable pub respond : Loop → Bool → Connection → World → Option After
respond loop malformed conn w =
    let (r, ds) =
      if malformed
      then (bad_request, w.descriptors)
      else route_request loop.kernel loop.g_root conn.parser w.descriptors in
    let keep_alive = if malformed then false else http_parser_should_keep_alive conn.parser in
    let (prepared, ds') = prepare_response conn r keep_alive loop.worker_id ds in
    send_response loop prepared (record w { descriptors = ds' })

unfoldable pub stash_pending_input : Connection → Bytes → Connection
stash_pending_input conn input = record conn { pending_input = input }

-- How far `process_input` has come: it has returned, it waits for the kernel, or its fuel ran out.
pub data Progress : Type 0 where
  returns : After → Progress
  waits : Progress
  out_of_fuel : Progress

-- Behind a response, with the bytes that are left, the rest of the loop being `next_round`.
unfoldable pub after_response :
    (Connection → Bytes → World → Progress) → Bytes → Option After → Progress
after_response next_round left none = waits
after_response next_round left (some a) =
    if not a.alive
    then returns a
    else if a.conn.awaiting_writable
    then returns (record a { conn = stash_pending_input a.conn left })
    else next_round a.conn left a.world

-- Behind one call of the parser.
unfoldable pub after_parse :
    (Connection → Bytes → World → Progress) → Loop → Connection → Bytes → World → Outcome → Progress
after_parse next_round loop conn input w o =
    let parsed = record conn { parser = o.parser } in
    let left = drop o.consumed input in
    elim (o.result) [
      | parse_incomplete ↦ returns (after true parsed w)
      | parse_complete ↦ after_response next_round left (respond loop false parsed w)
      | parse_error ↦ after_response next_round left (respond loop true parsed w)
    ]

unfoldable pub process_input_loop : ℕ → Loop → Connection → Bytes → World → Progress
process_input_loop zero loop conn input w = out_of_fuel
process_input_loop (suc fuel) loop conn [] w = returns (after true conn w)
process_input_loop (suc fuel) loop conn (c ∷ cs) w =
    elim (http_parser_execute conn.parser (c ∷ cs)) [
      | none ↦ out_of_fuel
      | some o ↦ after_parse (process_input_loop fuel loop) loop conn (c ∷ cs) w o
    ]

-- A round that goes on has taken a byte, so one round more than there are bytes is enough.
unfoldable pub process_input : Loop → Connection → Bytes → World → Progress
process_input loop conn input w = process_input_loop (length input + 1) loop conn input w
