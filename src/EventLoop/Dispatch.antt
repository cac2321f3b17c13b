-- ===== src/EventLoop/Dispatch.antt =====
-- The loop over the events in `event_loop_run` of event_loop.c.
use c_http_server.Prelude.{ℕ, ◌+◌, Bool, true, false, none, some, List, [], ◌∷◌}
use c_http_server.EventLoop.Flush.{Transfer}
use c_http_server.EventLoop.List.{sweep_idle_connections}
use c_http_server.EventLoop.Handlers.{Read, handle_client_readable, flush_pending_write}
use c_http_server.EventLoop.Server.{
  System, Server, world_of, hang_up, on_server, Turn, continues, breaks, stalls, dangles, starves,
  Accept, accept_new_connections, after_handler,
}

-- `data.ptr` of an `epoll_event`: `NULL`, the two tags, or a connection's address.
pub data Tag : Type 0 where
  listen_tag : Tag
  timer_tag : Tag
  shutdown_tag : Tag
  connection_tag : ℕ → Tag

-- An entry of `events`, whether it has EPOLLERR or EPOLLHUP, and how the kernel answers the calls
-- that the loop makes for it.
pub record Event : Type 0 where
  pub ud : Tag
  pub broken : Bool
  pub accepts : List Accept
  pub reads : List Read
  pub transfers : List Transfer

unfoldable pub is_infrastructure_fd : Tag → Bool
is_infrastructure_fd listen_tag = true
is_infrastructure_fd timer_tag = true
is_infrastructure_fd shutdown_tag = true
is_infrastructure_fd (connection_tag a) = false

-- `close_connection` of what a pointer points to, which is a connection for one tag only.
unfoldable pub close_tagged : Tag → Server → Turn
close_tagged (connection_tag a) s = elim (hang_up s a) [
  | none ↦ dangles
  | some after ↦ continues after
]
close_tagged listen_tag s = dangles
close_tagged timer_tag s = dangles
close_tagged shutdown_tag s = dangles

-- An event of the timer. Reading it changes nothing here, whatever the read answers.
unfoldable pub on_timer : System → Server → Turn
on_timer sys s =
    let swept =
      sweep_idle_connections on_server (s.mallocs + 1) (sys.loop.clock s.times)
        sys.idle_timeout_seconds (record s { times = s.times + 1 }) in
    elim swept [ none ↦ dangles | some after ↦ continues after ]

-- An event of the connection at `a`.
unfoldable pub on_connection : System → Event → ℕ → Server → Turn
on_connection sys e a s = elim (s.listed.heap a) [
  | none ↦ dangles
  | some n ↦
      let conn = s.contents a in
      let w = world_of s a e.transfers in
      elim (conn.awaiting_writable) [
        | true ↦ after_handler s a (flush_pending_write sys.loop conn w)
        | false ↦ after_handler s a (handle_client_readable sys.loop e.reads conn w)
      ]
]

unfoldable pub on_ready : System → Event → Tag → Server → Turn
on_ready sys e listen_tag s = accept_new_connections sys e.accepts s
on_ready sys e shutdown_tag s = breaks true s
on_ready sys e timer_tag s = on_timer sys s
on_ready sys e (connection_tag a) s = on_connection sys e a s

-- The body of the loop over `events`.
unfoldable pub handle_event : System → Event → Server → Turn
handle_event sys e s = elim (e.broken) [
  | true ↦ elim (is_infrastructure_fd e.ud) [ true ↦ breaks false s | false ↦ close_tagged e.ud s ]
  | false ↦ on_ready sys e e.ud s
]

-- The rest of a loop, where it goes on.
unfoldable pub and_then : (Server → Turn) → Turn → Turn
and_then rest (continues s) = rest s
and_then rest (breaks status s) = breaks status s
and_then rest stalls = stalls
and_then rest dangles = dangles
and_then rest starves = starves

unfoldable pub dispatch : System → List Event → Server → Turn
dispatch sys [] s = continues s
dispatch sys (e ∷ es) s = and_then (dispatch sys es) (handle_event sys e s)

-- How the kernel answers `epoll_wait`: it fills `events`, it is interrupted, or it fails.
pub data Wait : Type 0 where
  reported : List Event → Wait
  wait_interrupted : Wait
  wait_failed : Wait

-- The loop of `event_loop_run`, on the answers of `epoll_wait`.
unfoldable pub run_loop : System → List Wait → Server → Turn
run_loop sys [] s = stalls
run_loop sys (reported es ∷ ws) s = and_then (run_loop sys ws) (dispatch sys es s)
run_loop sys (wait_interrupted ∷ ws) s = run_loop sys ws s
run_loop sys (wait_failed ∷ ws) s = breaks true s
