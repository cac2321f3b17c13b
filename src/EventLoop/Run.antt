-- ===== src/EventLoop/Run.antt =====
-- `event_loop_run` of event_loop.c and the configuration that it takes from event_loop.h.
use c_http_server.Prelude.{
  ℕ, ◌+◌, Bool, true, false, not, Option, none, some, List, [], if◌then◌else◌,
}
use c_http_server.StaticFiles.Descriptors.{Descriptors, holding, close}
use c_http_server.EventLoop.List.{Heap, close_all_connections}
use c_http_server.EventLoop.Server.{
  System, Server, on_server, Turn, continues, breaks, stalls, dangles, starves, fresh_connection,
}
use c_http_server.EventLoop.Dispatch.{Wait, run_loop}

-- `shutdown_fd` is `none` for -1.
pub record EventLoopConfig : Type 0 where
  pub listen_fd : ℕ
  pub idle_timeout_seconds : ℕ
  pub shutdown_fd : Option ℕ
  pub worker_id : ℕ

-- How the calls answer that `event_loop_run` makes before its loop; `none` is an error.
pub record SetUp : Type 0 where
  pub getfl_ok : Bool
  pub setfl_ok : Bool
  pub answer_epoll_create1 : Option ℕ
  pub listen_added : Bool
  pub answer_timerfd_create : Option ℕ
  pub settime_ok : Bool
  pub timer_added : Bool
  pub shutdown_added : Bool

-- It returns, true for 0, with the open descriptors and the connections that are allocated; or a
-- call has not been answered; or memory is used that has been freed.
pub data Ran : Type 0 where
  returned : Bool → Descriptors → Heap → Ran
  still_waits : Ran
  faults : Ran

abbrev pub no_connections : Heap
no_connections a = none

abbrev pub failed : Descriptors → Ran
failed ds = returned false ds no_connections

-- True is 0.
unfoldable pub set_nonblocking : SetUp → Bool
set_nonblocking u = if not u.getfl_ok then false else u.setfl_ok

-- What the loop keeps of its configuration.
abbrev pub configured : System → EventLoopConfig → System
configured sys config = record sys {
  loop = record sys.loop { worker_id = config.worker_id };
  idle_timeout_seconds = config.idle_timeout_seconds;
}

-- No connection is allocated, so `contents` and `wires` mean nothing yet.
abbrev pub start_server : Descriptors → Server
start_server ds = record {
  listed = record { heap = no_connections; head = none };
  contents = λ a. fresh_connection 0 0;
  wires = λ a. [];
  descriptors = ds;
  mods = 0;
  times = 0;
  mallocs = 0;
}

-- Behind the loop.
unfoldable pub tear_down : ℕ → ℕ → Turn → Ran
tear_down epoll_fd timer_fd (breaks status s) =
    elim (close_all_connections on_server (s.mallocs + 1) s) [
      | none ↦ faults
      | some after ↦
          returned status (close epoll_fd (close timer_fd after.descriptors)) after.listed.heap
    ]
tear_down epoll_fd timer_fd stalls = still_waits
tear_down epoll_fd timer_fd (continues s) = faults
tear_down epoll_fd timer_fd dangles = faults
tear_down epoll_fd timer_fd starves = faults

abbrev pub shutdown_watched : SetUp → Option ℕ → Bool
shutdown_watched u none = true
shutdown_watched u (some fd) = u.shutdown_added

-- Behind `timerfd_create`.
unfoldable pub with_timer : System → SetUp → EventLoopConfig → List Wait → ℕ → ℕ → Descriptors → Ran
with_timer sys u config ws epoll_fd timer_fd ds =
    if not u.settime_ok
    then failed (close epoll_fd (close timer_fd ds))
    else if not u.timer_added
    then failed (close epoll_fd (close timer_fd ds))
    else if not (shutdown_watched u config.shutdown_fd)
    then failed (close epoll_fd (close timer_fd ds))
    else tear_down epoll_fd timer_fd (run_loop (configured sys config) ws (start_server ds))

-- Behind `epoll_create1`.
unfoldable pub with_epoll : System → SetUp → EventLoopConfig → List Wait → ℕ → Descriptors → Ran
with_epoll sys u config ws epoll_fd ds =
    if not u.listen_added then failed (close epoll_fd ds) else elim (u.answer_timerfd_create) [
      | none ↦ failed (close epoll_fd ds)
      | some timer_fd ↦ with_timer sys u config ws epoll_fd timer_fd (holding timer_fd ds)
    ]

unfoldable pub event_loop_run : System → SetUp → EventLoopConfig → List Wait → Descriptors → Ran
event_loop_run sys u config ws ds =
    if not (set_nonblocking u) then failed ds else elim (u.answer_epoll_create1) [
      | none ↦ failed ds
      | some epoll_fd ↦ with_epoll sys u config ws epoll_fd (holding epoll_fd ds)
    ]
