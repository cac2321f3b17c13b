-- ===== src/EventLoop/Ends.antt =====
-- When `event_loop_run` of event_loop.c returns.
use c_http_server.Prelude.{ℕ, Bool, false, none, List, [], ◌∷◌, ◌++◌, ◌≡◌, ◌≢◌, refl, sym, ◌∙◌, ap}
use mathlib.Core.Path.{subst}
use c_http_server.StaticFiles.Descriptors.{Descriptors, holding}
use c_http_server.EventLoop.List.{Heap}
use c_http_server.EventLoop.Server.{
  System, Server, Turn, continues, breaks, stalls, dangles, starves,
}
use c_http_server.EventLoop.Dispatch.{
  Event, and_then, dispatch, Wait, reported, wait_interrupted, wait_failed, run_loop,
}
use c_http_server.EventLoop.Accepts.{IsFresh}
use c_http_server.EventLoop.Run.{
  EventLoopConfig, SetUp, Ran, returned, no_connections, configured, start_server, tear_down,
  event_loop_run,
}
use c_http_server.EventLoop.Runs.{
  IfOn, AreBatches, LoopEnds, loop_left, loop_waits, run_loop-LoopEnds, tear_down-breaks,
  start_server-IsLive,
}
use c_http_server.EventLoop.SetUp.{set_up_fds, event_loop_run-SetsUp, gives_up, enters}
use c_http_server.EventLoop.Stops.{HasShutdown, dispatch-shutdown}

-- Every call that the loop makes for a batch is answered.
abbrev pub AreAnswered : System → List Wait → Server → Type 0
AreAnswered sys [] s = Unit
AreAnswered sys (reported es ∷ ws) s =
    (dispatch sys es s ≢ stalls) × IfOn (AreAnswered sys ws) (dispatch sys es s)
AreAnswered sys (wait_interrupted ∷ ws) s = AreAnswered sys ws s
AreAnswered sys (wait_failed ∷ ws) s = Unit

and_then-moves :
    (p : Server → Type 0) (rest : Server → Turn) (t : Turn)
    → ((s : Server) → p s → rest s ≢ stalls)
    → t ≢ stalls
    → IfOn p t
    → and_then rest t ≢ stalls
unfolding and_then
and_then-moves p rest (continues s) goes moves h = goes s h
and_then-moves p rest (breaks status s) goes moves h = moves
and_then-moves p rest stalls goes moves h = moves
and_then-moves p rest dangles goes moves h = moves
and_then-moves p rest starves goes moves h = moves

run_loop-moves :
    (sys : System) (before : List Wait) (es : List Event) (more : List Wait) (s : Server)
    → HasShutdown es
    → AreAnswered sys (before ++ (reported es ∷ more)) s
    → run_loop sys (before ++ (reported es ∷ more)) s ≢ stalls
unfolding run_loop
run_loop-moves sys [] es more s h answered =
    subst (λ (t : Turn). t ≢ stalls) (sym (dispatch-shutdown sys es s (run_loop sys more) h))
      answered.0
run_loop-moves sys (wait_interrupted ∷ before) es more s h answered =
    run_loop-moves sys before es more s h answered
run_loop-moves sys (wait_failed ∷ before) es more s h answered = λ e. absurd cc
run_loop-moves sys (reported es' ∷ before) es more s h answered =
    and_then-moves (AreAnswered sys (before ++ (reported es ∷ more)))
      (run_loop sys (before ++ (reported es ∷ more))) (dispatch sys es' s)
      (λ s' answered'. run_loop-moves sys before es more s' h answered') answered.0 answered.1

-- It returns with the descriptors as they were and every connection freed.
abbrev pub ReturnsClean : Descriptors → Ran → Type 0
ReturnsClean ds run =
    (status : Bool) × (heap : Heap) × (run ≡ returned status ds heap) × ((a : ℕ) → heap a ≡ none)

tear_down-ReturnsClean :
    (ds : Descriptors) (epoll_fd timer_fd : ℕ) (t : Turn)
    → t ≢ stalls
    → LoopEnds (holding timer_fd (holding epoll_fd ds)) t
    → ReturnsClean ds (tear_down epoll_fd timer_fd t)
tear_down-ReturnsClean ds epoll_fd timer_fd _ moves loop_waits = absurd (moves refl)
tear_down-ReturnsClean ds epoll_fd timer_fd _ moves (loop_left status s xs live) =
    let (heap, e, freed) = tear_down-breaks ds epoll_fd timer_fd status s xs live in
    (status, heap, e, freed)

-- Once epoll_wait has reported the shutdown descriptor, event_loop_run returns, whatever would have
-- been reported behind it, with every connection freed and the descriptors as they were. The
-- conditions are those on malloc and on the batches, and that the calls for the events of the
-- batches are answered.
pub event_loop_run-ReturnsClean :
    (sys : System) (u : SetUp) (config : EventLoopConfig) (before : List Wait) (es : List Event)
    (more : List Wait) (ds : Descriptors)
    → HasShutdown es
    → IsFresh sys.malloc
    → AreBatches
        (configured sys config)
        (before ++ (reported es ∷ more))
        (start_server (set_up_fds u ds))
    → AreAnswered
        (configured sys config)
        (before ++ (reported es ∷ more))
        (start_server (set_up_fds u ds))
    → ReturnsClean ds (event_loop_run sys u config (before ++ (reported es ∷ more)) ds)
event_loop_run-ReturnsClean sys u config before es more ds h fresh batches answered =
    let ws = before ++ (reported es ∷ more) in
    let run = configured sys config in
    elim (event_loop_run-SetsUp sys u config ws ds) [
      | gives_up bad e ↦ (false, no_connections, e, λ a. refl)
      | enters epoll_fd timer_fd good created timer e ↦
          let base = holding timer_fd (holding epoll_fd ds) in
          let opened : set_up_fds u ds ≡ base = rw (created, timer) refl in
          let begun : start_server (set_up_fds u ds) ≡ start_server base = ap start_server opened in
          let (status, heap, e', freed) =
            tear_down-ReturnsClean ds epoll_fd timer_fd _
              (run_loop-moves run before es more (start_server base) h
                (subst (AreAnswered run ws) begun answered))
              (run_loop-LoopEnds base run fresh ws (start_server base) [] (start_server-IsLive base)
                (subst (AreBatches run ws) begun batches)) in
          (status, heap, e ∙ e', freed)
    ]
