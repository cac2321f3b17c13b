-- ===== src/EventLoop/SetUp.antt =====
-- The calls before the loop of `event_loop_run` of event_loop.c, and the whole run.
use c_http_server.Prelude.{
  ℕ, Bool, true, false, ◌&&◌, Bool-cases, inl, inr, ◌⊎◌, Option, Option-cases, none, some, List, [],
  ◌≡◌, refl, sym, ◌∙◌,
}
use mathlib.Core.Path.{subst}
use c_http_server.StaticFiles.Descriptors.{Descriptors, holding, close, close-holding}
use c_http_server.EventLoop.Owns.{held}
use c_http_server.EventLoop.Server.{System}
use c_http_server.EventLoop.Dispatch.{Wait, run_loop}
use c_http_server.EventLoop.Accepts.{IsFresh}
use c_http_server.EventLoop.Run.{
  EventLoopConfig, SetUp, Ran, returned, no_connections, failed, set_nonblocking, configured,
  start_server, tear_down, shutdown_watched, with_timer, with_epoll, event_loop_run,
}
use c_http_server.EventLoop.Runs.{
  AreBatches, RunsClean, ended_clean, run_loop-LoopEnds, tear_down-RunsClean, start_server-IsLive,
}

abbrev pub is_some : Option ℕ → Bool
is_some none = false
is_some (some fd) = true

-- Whether every call before the loop is answered without an error.
abbrev pub set_up_ok : SetUp → EventLoopConfig → Bool
set_up_ok u config =
    u.getfl_ok
    && u.setfl_ok
    && is_some u.answer_epoll_create1
    && u.listen_added
    && is_some u.answer_timerfd_create
    && u.settime_ok
    && u.timer_added
    && shutdown_watched u config.shutdown_fd

-- The descriptors behind the calls before the loop.
abbrev pub set_up_fds : SetUp → Descriptors → Descriptors
set_up_fds u ds = held u.answer_timerfd_create (held u.answer_epoll_create1 ds)

module _ (sys : System) (u : SetUp) (config : EventLoopConfig) (ws : List Wait) where
  -- The loop with its teardown.
  abbrev pub served : ℕ → ℕ → Descriptors → Ran
  served epoll_fd timer_fd ds =
      tear_down epoll_fd timer_fd (run_loop (configured sys config) ws (start_server ds))

  timer_ok : Bool
  timer_ok = u.settime_ok && u.timer_added && shutdown_watched u config.shutdown_fd

  with_timer-cases :
      (epoll_fd timer_fd : ℕ) (ds : Descriptors)
      → let run = with_timer sys u config ws epoll_fd timer_fd ds in
        (timer_ok ≡ false) × (run ≡ failed (close epoll_fd (close timer_fd ds)))
        ⊎ (timer_ok ≡ true) × (run ≡ served epoll_fd timer_fd ds)
  unfolding with_timer timer_ok
  with_timer-cases epoll_fd timer_fd ds = elim (Bool-cases u.settime_ok) [
    | inr bad ↦ simp bad (inl (refl, refl))
    | inl set ↦ elim (Bool-cases u.timer_added) [
      | inr bad ↦ simp (set, bad) (inl (refl, refl))
      | inl added ↦ elim (Bool-cases (shutdown_watched u config.shutdown_fd)) [
        | inr bad ↦ simp (set, added, bad) (inl (refl, refl))
        | inl watched ↦ simp (set, added, watched) (inr (refl, refl))
      ]
    ]
  ]

  -- Either a call fails, and the run gives up, or the loop is entered.
  pub data SetsUp (ds : Descriptors) : Type 0 where
    gives_up :
        set_up_ok u config ≡ false → event_loop_run sys u config ws ds ≡ failed ds → SetsUp ds
    enters :
        (epoll_fd timer_fd : ℕ)
        → set_up_ok u config ≡ true
        → u.answer_epoll_create1 ≡ some epoll_fd
        → u.answer_timerfd_create ≡ some timer_fd
        → event_loop_run sys u config ws ds
          ≡ served epoll_fd timer_fd (holding timer_fd (holding epoll_fd ds))
        → SetsUp ds

  pub event_loop_run-SetsUp : (ds : Descriptors) → SetsUp ds
  unfolding event_loop_run set_nonblocking with_epoll timer_ok
  event_loop_run-SetsUp ds = elim (Bool-cases u.getfl_ok) [
    | inr bad ↦ gives_up (simp bad refl) (simp (bad, event_loop_run) refl)
    | inl got ↦ elim (Bool-cases u.setfl_ok) [
      | inr bad ↦ gives_up (simp (got, bad) refl) (simp (got, bad, event_loop_run) refl)
      | inl set ↦ elim (Option-cases u.answer_epoll_create1) [
        | inl bad ↦ gives_up (simp (got, set, bad) refl) (simp (got, set, bad, event_loop_run) refl)
        | inr (epoll_fd, created) ↦ elim (Bool-cases u.listen_added) [
          | inr bad ↦
              gives_up (simp (got, set, created, bad) refl)
                (simp (got, set, created, bad, event_loop_run, with_epoll, close-holding) refl)
          | inl added ↦ elim (Option-cases u.answer_timerfd_create) [
            | inl bad ↦ gives_up (simp (got, set, created, added, bad) refl) (
                simp (got, set, created, added, bad, event_loop_run, with_epoll, close-holding)
                  refl)
            | inr (timer_fd, timer) ↦
                let ds' = holding timer_fd (holding epoll_fd ds) in
                elim (with_timer-cases epoll_fd timer_fd ds') [
                  | inl (bad, e) ↦ gives_up (simp (got, set, created, added, timer) bad) (
                      simp (got, set, created, added, timer, event_loop_run, with_epoll)
                        (e
                          ∙ rw
                              (
                                close-holding timer_fd (holding epoll_fd ds),
                                close-holding epoll_fd ds,
                              )
                              refl))
                  | inr (good, e) ↦
                      enters epoll_fd timer_fd (simp (got, set, created, added, timer) good) created
                        timer (simp (got, set, created, added, timer, event_loop_run, with_epoll) e)
                ]
          ]
        ]
      ]
    ]
  ]

  -- If any call before the loop fails, the result is -1, the descriptors are as they were, and
  -- nothing is served, whatever epoll_wait would have reported.
  pub event_loop_run-set_up :
      (ds : Descriptors)
      → set_up_ok u config ≡ false
      → event_loop_run sys u config ws ds ≡ returned false ds no_connections
  event_loop_run-set_up ds bad = elim (event_loop_run-SetsUp ds) [
    | gives_up bad' e ↦ e
    | enters epoll_fd timer_fd good created timer e ↦ absurd cc
  ]

  -- Once event_loop_run has returned, every connection has been freed and the descriptors are as
  -- they were, if malloc gives no address that is in use and every batch names connections on the
  -- list, each once, and none behind the timer's event; it may also still wait for an answer, but
  -- never uses memory that has been freed. The calls before the loop may fail.
  pub event_loop_run-RunsClean :
      (ds : Descriptors)
      → IsFresh sys.malloc
      → AreBatches (configured sys config) ws (start_server (set_up_fds u ds))
      → RunsClean ds (event_loop_run sys u config ws ds)
  event_loop_run-RunsClean ds fresh batches = elim (event_loop_run-SetsUp ds) [
    | gives_up bad e ↦ subst (RunsClean ds) (sym e) (ended_clean false no_connections (λ a. refl))
    | enters epoll_fd timer_fd good created timer e ↦
        let base = holding timer_fd (holding epoll_fd ds) in
        let opened : set_up_fds u ds ≡ base = rw (created, timer) refl in
        subst (RunsClean ds) (sym e) (
          tear_down-RunsClean ds epoll_fd timer_fd _ (
            run_loop-LoopEnds base (configured sys config) fresh ws (start_server base) []
              (start_server-IsLive base)
              (subst (λ (q : Descriptors). AreBatches (configured sys config) ws (start_server q))
                opened batches)))
  ]
