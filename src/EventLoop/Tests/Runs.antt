-- ===== src/EventLoop/Tests/Runs.antt =====
-- Runs of the loop of event_loop.c, and its theorems at them.
use c_http_server.Prelude.{
  ℕ, ◌==◌, Bool-cases, inl, inr, if◌then◌else◌, Bool, true, false, Option, none, some, List, [],
  ◌∷◌, ◌≡◌, refl, sym, ◌∙◌, ap, arith,
}
use c_http_server.StaticFiles.Descriptors.{holding, none_open}
use c_http_server.EventLoop.Flush.{takes}
use c_http_server.EventLoop.List.{
  Node, Heap, activity, list_insert, list_remove, close_listed, close_all_connections, close_head,
}
use c_http_server.EventLoop.Chain.{link, stop}
use c_http_server.EventLoop.Sweep.{stays}
use c_http_server.EventLoop.Handlers.{got, end_of_stream, handle_client_readable, read_would_block}
use c_http_server.EventLoop.Server.{
  System, Server, new_client, backlog_empty, fresh_connection, fresh_node, accept_new_connections,
  after_handler, welcome, start_connection, Turn, continues, breaks, stalls, starves, dangles,
}
use c_http_server.EventLoop.Dispatch.{
  Tag, listen_tag, timer_tag, shutdown_tag, connection_tag, Event, is_infrastructure_fd, dispatch,
  and_then, handle_event, on_ready, on_connection, Wait, reported, wait_interrupted, run_loop,
}
use c_http_server.EventLoop.Live.{reads, IsLive}
use c_http_server.EventLoop.Closes.{GoesOn}
use c_http_server.EventLoop.Accepts.{IsFresh}
use c_http_server.EventLoop.Batches.{dispatch-GoesOn}
use c_http_server.EventLoop.Run.{
  Ran, still_waits, faults, set_nonblocking, with_epoll, with_timer, start_server, EventLoopConfig,
  SetUp, returned, no_connections, configured, tear_down, event_loop_run,
}
use c_http_server.EventLoop.Runs.{IfOn, AreBatches, RunsClean}
use c_http_server.EventLoop.SetUp.{set_up_fds, event_loop_run-set_up, event_loop_run-RunsClean}
use c_http_server.EventLoop.Ends.{AreAnswered, ReturnsClean, event_loop_run-ReturnsClean}
use c_http_server.EventLoop.Stops.{tear_down-infrastructure, dispatch-dangles}
use c_http_server.EventLoop.Tests.Serving.{test_loop, two_requests}

-- Memory for one connection, at the address 10.
abbrev cell : Option Node → Option ℕ
cell none = some 10
cell (some n) = none

abbrev one_cell : ℕ → Heap → Option ℕ
one_cell n heap = cell (heap 10)

abbrev address : Option ℕ → ℕ
address none = 0
address (some a) = a

cell-given : (o : Option Node) (a : ℕ) → cell o ≡ some a → (10 ≡ a) × (o ≡ none)
cell-given none a given = (ap address given, refl)
cell-given (some n) a given = absurd cc

one_cell-IsFresh : IsFresh one_cell
one_cell-IsFresh n heap a given =
    let (here, gone) = cell-given (heap 10) a given in sym (ap heap here) ∙ gone

abbrev test_system : System
test_system = record { loop = test_loop; malloc = one_cell; idle_timeout_seconds = 30 }

-- One connection on the socket 5, at the address 10.
abbrev one_connection : Server
one_connection = record {
  listed = record { heap = λ a. if a == 10 then some (fresh_node 0) else none; head = some 10 };
  contents = λ a. fresh_connection 5 0;
  wires = λ a. [];
  descriptors = holding 5 (holding 4 (holding 3 none_open));
  mods = 0;
  times = 100;
  mallocs = 1;
}

one_connection-IsLive : IsLive (holding 4 (holding 3 none_open)) one_connection (10 ∷ [])
one_connection-IsLive = record {
  holds = record { distinct = (tt, tt); chain = link (fresh_node 0) refl refl stop };
  settled = (reads refl refl refl, tt);
  open_are = refl;
  no_others = λ a. elim (Bool-cases (a == 10)) [
    | inl this ↦ let here : 10 ≡ a = ground (arith, this) in inl (inl here)
    | inr other ↦ inr (simp other refl)
  ];
  allocated = omega arith;
}

abbrev event : Tag → Event
event tag = record {
  ud = tag;
  broken = false;
  accepts = new_client 9 true ∷ new_client 11 false ∷ backlog_empty ∷ [];
  reads = got two_requests ∷ read_would_block ∷ [];
  transfers = takes 500 ∷ takes 500 ∷ [];
}

abbrev busy_batch : List Event
busy_batch = event (connection_tag 10) ∷ event listen_tag ∷ event timer_tag ∷ event listen_tag ∷ []

dispatch-GoesOn_example :
    GoesOn (holding 4 (holding 3 none_open)) [] (dispatch test_system busy_batch one_connection)
dispatch-GoesOn_example =
    dispatch-GoesOn (holding 4 (holding 3 none_open)) test_system one_cell-IsFresh busy_batch
      one_connection (10 ∷ []) one_connection-IsLive (tt, (tt, (refl, (tt, tt)))) (inl refl, tt)

abbrev set_up : SetUp
set_up = record {
  getfl_ok = true;
  setfl_ok = true;
  answer_epoll_create1 = some 4;
  listen_added = true;
  answer_timerfd_create = some 6;
  settime_ok = true;
  timer_added = true;
  shutdown_added = true;
}

abbrev config : EventLoopConfig
config = record { listen_fd = 3; idle_timeout_seconds = 30; shutdown_fd = some 2; worker_id = 1 }

-- The last call before the loop fails.
abbrev no_room : SetUp
no_room = record set_up { shutdown_added = false }

event_loop_run-set_up_example :
    event_loop_run test_system no_room config (reported busy_batch ∷ []) (holding 3 none_open)
    ≡ returned false (holding 3 none_open) no_connections
event_loop_run-set_up_example =
    event_loop_run-set_up test_system no_room config (reported busy_batch ∷ [])
      (holding 3 none_open) refl

-- A connection is accepted and another refused for want of memory; the first hangs
-- up as the process is to stop.
abbrev first_batch : List Event
first_batch = event listen_tag ∷ []

abbrev second_batch : List Event
second_batch =
    record (event (connection_tag 10)) { reads = end_of_stream ∷ [] } ∷ event shutdown_tag ∷ []

abbrev whole_run : List Wait
whole_run = reported first_batch ∷ wait_interrupted ∷ reported second_batch ∷ []

nothing_more : (t : Turn) → IfOn (λ s. Unit) t
nothing_more (continues s) = tt
nothing_more (breaks status s) = tt
nothing_more stalls = tt
nothing_more dangles = tt
nothing_more starves = tt

whole_run-AreBatches :
    AreBatches
      (configured test_system config)
      whole_run
      (start_server (set_up_fds set_up (holding 3 none_open)))
unfolding dispatch and_then handle_event on_ready accept_new_connections welcome start_connection
    list_insert
whole_run-AreBatches = (
  record { xs = []; list = record { distinct = tt; chain = stop }; named = tt; orderly = (tt, tt) },
  (
    record {
      xs = 10 ∷ [];
      list = record { distinct = (tt, tt); chain = link (fresh_node 0) refl refl stop };
      named = (inl refl, tt);
      orderly = (tt, (tt, tt));
    },
    nothing_more _,
  ),
)

event_loop_run-RunsClean_example :
    RunsClean
      (holding 3 none_open)
      (event_loop_run test_system set_up config whole_run (holding 3 none_open))
event_loop_run-RunsClean_example =
    event_loop_run-RunsClean test_system set_up config whole_run (holding 3 none_open)
      one_cell-IsFresh whole_run-AreBatches

-- The calls for the first batch are answered, and those for the second.
whole_run-AreAnswered :
    AreAnswered
      (configured test_system config)
      whole_run
      (start_server (set_up_fds set_up (holding 3 none_open)))
unfolding dispatch and_then handle_event on_ready accept_new_connections welcome start_connection
    list_insert on_connection handle_client_readable after_handler close_listed list_remove
whole_run-AreAnswered = ((λ e. absurd cc), ((λ e. absurd cc), tt))

event_loop_run-ReturnsClean_example :
    ReturnsClean
      (holding 3 none_open)
      (event_loop_run test_system set_up config whole_run (holding 3 none_open))
event_loop_run-ReturnsClean_example =
    event_loop_run-ReturnsClean test_system set_up config
      (reported first_batch ∷ wait_interrupted ∷ []) second_batch [] (holding 3 none_open)
      (inr (inl refl)) one_cell-IsFresh whole_run-AreBatches whole_run-AreAnswered

abbrev status_of : Ran → Option Bool
status_of (returned status ds heap) = some status
status_of still_waits = none
status_of faults = none

-- The same run with its result.
whole_run_ends :
    status_of (event_loop_run test_system set_up config whole_run (holding 3 none_open)) ≡ some true
unfolding event_loop_run set_nonblocking with_epoll with_timer run_loop tear_down dispatch and_then
    handle_event on_ready accept_new_connections welcome start_connection list_insert on_connection
    handle_client_readable after_handler close_listed list_remove close_all_connections close_head
whole_run_ends = refl

abbrev broken_timer : Event
broken_timer = record (event timer_tag) { broken = true }

tear_down-infrastructure_example :
    (heap : Heap) × (tear_down 3 4
        (run_loop test_system (reported (broken_timer ∷ busy_batch) ∷ []) one_connection)
      ≡ returned false none_open heap)
    × ((a : ℕ) → heap a ≡ none)
unfolding is_infrastructure_fd
tear_down-infrastructure_example =
    tear_down-infrastructure test_system broken_timer busy_batch [] one_connection (10 ∷ []) 3 4
      none_open one_connection-IsLive refl refl

-- The connection has been idle for 100 seconds.
idle_by_now : stays 100 30 (activity one_connection.listed.heap 10) ≡ false
idle_by_now = refl

dispatch-dangles_example :
    dispatch test_system (event timer_tag ∷ event (connection_tag 10) ∷ []) one_connection ≡ dangles
dispatch-dangles_example =
    dispatch-dangles (holding 4 (holding 3 none_open)) test_system (event timer_tag)
      (event (connection_tag 10)) [] 10 one_connection (10 ∷ []) one_connection-IsLive (inl refl)
      idle_by_now refl refl refl
