-- ===== src/EventLoop/Runs.antt =====
-- What a run of `event_loop_run` of event_loop.c comes to.
use c_http_server.Prelude.{
  ℕ, ◌+◌, Bool, true, inl, inr, ◌⊎◌, none, List, [], ◌∷◌, ◌≡◌, refl, sym, ◌∙◌, ap, arith,
}
use mathlib.Core.Path.{subst}
use c_http_server.StaticFiles.Descriptors.{Descriptors, holding, close, close-holding}
use c_http_server.EventLoop.List.{Heap}
use c_http_server.EventLoop.Chain.{stop}
use c_http_server.EventLoop.Linked.{Holds}
use c_http_server.EventLoop.Sweep.{close_all-Fits}
use c_http_server.EventLoop.Server.{
  System, Server, on_server, Turn, continues, breaks, stalls, dangles, starves,
}
use c_http_server.EventLoop.Dispatch.{
  Event, dispatch, and_then, Wait, reported, wait_interrupted, wait_failed, run_loop,
}
use c_http_server.EventLoop.Members.{Has, AllIn, IsChain-unique}
use c_http_server.EventLoop.Live.{IsLive}
use c_http_server.EventLoop.Closes.{GoesOn, on, left_with, stalled, on_server-Keeps}
use c_http_server.EventLoop.Accepts.{IsFresh}
use c_http_server.EventLoop.Batches.{names_in, IsOrderly, dispatch-GoesOn}
use c_http_server.EventLoop.Run.{Ran, returned, still_waits, start_server, tear_down}

-- A batch as `epoll_wait` gives it, with nothing of a connection behind the timer.
pub record IsBatch (es : List Event) (s : Server) : Type 0 where
  pub xs : List ℕ
  pub list : Holds s.listed xs
  pub named : AllIn (names_in es) xs
  pub orderly : IsOrderly es

abbrev pub IfOn : (Server → Type 0) → Turn → Type 0
IfOn p (continues s) = p s
IfOn p (breaks status s) = Unit
IfOn p stalls = Unit
IfOn p dangles = Unit
IfOn p starves = Unit

-- Every batch of a run is one of the loop's state at that time.
abbrev pub AreBatches : System → List Wait → Server → Type 0
AreBatches sys [] s = Unit
AreBatches sys (reported es ∷ ws) s = IsBatch es s × IfOn (AreBatches sys ws) (dispatch sys es s)
AreBatches sys (wait_interrupted ∷ ws) s = AreBatches sys ws s
AreBatches sys (wait_failed ∷ ws) s = Unit

-- It has returned with the descriptors as they were and every connection freed, or it still waits.
pub data RunsClean (ds : Descriptors) : Ran → Type 0 where
  ended_clean :
      (status : Bool) (heap : Heap)
      → ((a : ℕ) → heap a ≡ none)
      → RunsClean ds (returned status ds heap)
  not_yet : RunsClean ds still_waits

-- How the loop itself ends.
pub data LoopEnds (base : Descriptors) : Turn → Type 0 where
  loop_left :
      (status : Bool) (s : Server) (xs : List ℕ)
      → IsLive base s xs
      → LoopEnds base (breaks status s)
  loop_waits : LoopEnds base stalls

run_next :
    (base : Descriptors) (p : Server → Type 0) (rest : Server → Turn) (t : Turn)
    → ((s : Server) (xs : List ℕ) → IsLive base s xs → p s → LoopEnds base (rest s))
    → GoesOn base [] t
    → IfOn p t
    → LoopEnds base (and_then rest t)
unfolding and_then
run_next base p rest _ goes (on s xs live named) h = goes s xs live h
run_next base p rest _ goes (left_with status s xs live) h = loop_left status s xs live
run_next base p rest _ goes stalled h = loop_waits

module _ (base : Descriptors) (sys : System) (fresh : IsFresh sys.malloc) where
  pub run_loop-LoopEnds :
      (ws : List Wait) (s : Server) (xs : List ℕ)
      → IsLive base s xs
      → AreBatches sys ws s
      → LoopEnds base (run_loop sys ws s)
  unfolding run_loop
  run_loop-LoopEnds [] s xs live b = loop_waits
  run_loop-LoopEnds (wait_interrupted ∷ ws) s xs live b = run_loop-LoopEnds ws s xs live b
  run_loop-LoopEnds (wait_failed ∷ ws) s xs live b = loop_left true s xs live
  run_loop-LoopEnds (reported es ∷ ws) s xs live b =
      let same : b.0.xs ≡ xs =
        IsChain-unique s.listed.heap none none s.listed.head b.0.xs xs b.0.list.chain
          live.holds.chain in
      let named = subst (AllIn (names_in es)) same b.0.named in
      run_next base (AreBatches sys ws) (run_loop sys ws) (dispatch sys es s)
        (λ s' ys live' b'. run_loop-LoopEnds ws s' ys live' b')
        (dispatch-GoesOn base sys fresh es s xs live b.0.orderly named) b.1

none_left : (a : ℕ) (A : Type 0) → Has a [] ⊎ A → A
none_left a A (inl h) = elim h [ ]
none_left a A (inr gone) = gone

-- The teardown frees every connection and closes what the loop opened.
pub tear_down-breaks :
    (ds : Descriptors) (epoll_fd timer_fd : ℕ) (status : Bool) (s : Server) (xs : List ℕ)
    → IsLive (holding timer_fd (holding epoll_fd ds)) s xs
    → (heap : Heap) × (tear_down epoll_fd timer_fd (breaks status s) ≡ returned status ds heap)
      × ((a : ℕ) → heap a ≡ none)
unfolding tear_down
tear_down-breaks ds epoll_fd timer_fd status s xs live =
    let base = holding timer_fd (holding epoll_fd ds) in
    let (after, e, left, empty) =
      close_all-Fits on_server (IsLive base) (on_server-Keeps base) (s.mallocs + 1) s xs live
        (let h = live.allocated in omega arith) in
    let shut : close epoll_fd (close timer_fd after.descriptors) ≡ ds =
      ap (λ (q : Descriptors). close epoll_fd (close timer_fd q)) left.open_are
      ∙ ap (close epoll_fd) (close-holding timer_fd (holding epoll_fd ds))
      ∙ close-holding epoll_fd ds in
    (
      after.listed.heap,
      simp (e, tear_down) (ap (λ (q : Descriptors). returned status q after.listed.heap) shut),
      λ a. none_left a _ (left.no_others a),
    )

pub tear_down-RunsClean :
    (ds : Descriptors) (epoll_fd timer_fd : ℕ) (t : Turn)
    → LoopEnds (holding timer_fd (holding epoll_fd ds)) t
    → RunsClean ds (tear_down epoll_fd timer_fd t)
unfolding tear_down
tear_down-RunsClean ds epoll_fd timer_fd _ loop_waits = not_yet
tear_down-RunsClean ds epoll_fd timer_fd _ (loop_left status s xs live) =
    let (heap, e, none_allocated) = tear_down-breaks ds epoll_fd timer_fd status s xs live in
    subst (RunsClean ds) (sym e) (ended_clean status heap none_allocated)

pub start_server-IsLive : (ds : Descriptors) → IsLive ds (start_server ds) []
start_server-IsLive ds = record {
  holds = record { distinct = tt; chain = stop };
  settled = tt;
  open_are = refl;
  no_others = λ a. inr refl;
  allocated = omega arith;
}
