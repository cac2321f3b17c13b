-- ===== src/EventLoop/Stops.antt =====
-- The events of event_loop.c that end the loop of `event_loop_run`, and the order of events in
-- which it uses a connection that has been freed.
use c_http_server.Prelude.{
  ℕ, Bool, true, false, Bool-cases, inl, inr, ◌⊎◌, none, List, [], ◌∷◌, ◌≡◌, refl, sym, ◌∙◌, ap,
}
use c_http_server.StaticFiles.Descriptors.{Descriptors, holding}
use c_http_server.EventLoop.List.{Heap, activity, list_remove, close_listed}
use c_http_server.EventLoop.Sweep.{stays, active}
use c_http_server.EventLoop.Server.{
  System, Server, hang_up, Turn, continues, breaks, stalls, dangles, starves,
}
use c_http_server.EventLoop.Dispatch.{
  timer_tag, shutdown_tag, connection_tag, Event, is_infrastructure_fd, close_tagged, on_timer,
  on_connection, on_ready, handle_event, and_then, dispatch, Wait, reported, run_loop,
}
use c_http_server.EventLoop.Members.{Has}
use c_http_server.EventLoop.Live.{IsLive}
use c_http_server.EventLoop.Batches.{on_timer-IsLive}
use c_http_server.EventLoop.Run.{returned, tear_down}
use c_http_server.EventLoop.Runs.{tear_down-breaks}

-- The shutdown descriptor is among the events.
abbrev pub HasShutdown : List Event → Type 0
HasShutdown [] = ⊥
HasShutdown (e ∷ es) = (e.ud ≡ shutdown_tag) ⊎ HasShutdown es

Turn-continues :
    (t : Turn) → ((s : Server) × (t ≡ continues s)) ⊎ ((rest : Server → Turn) → and_then rest t ≡ t)
unfolding and_then
Turn-continues (continues s) = inl (s, refl)
Turn-continues (breaks status s) = inr (λ rest. refl)
Turn-continues stalls = inr (λ rest. refl)
Turn-continues dangles = inr (λ rest. refl)
Turn-continues starves = inr (λ rest. refl)

module _ (sys : System) where
  shutdown-breaks :
      (e : Event) (s : Server)
      → e.ud ≡ shutdown_tag
      → (status : Bool) × (handle_event sys e s ≡ breaks status s)
  unfolding handle_event on_ready is_infrastructure_fd
  shutdown-breaks e s tag = elim (Bool-cases e.broken) [
    | inl bad ↦ (false, simp (bad, tag, handle_event) refl)
    | inr sane ↦ (true, simp (sane, tag, handle_event) refl)
  ]

  -- Nothing comes behind a batch with the shutdown descriptor.
  pub dispatch-shutdown :
      (es : List Event) (s : Server) (rest : Server → Turn)
      → HasShutdown es
      → and_then rest (dispatch sys es s) ≡ dispatch sys es s
  unfolding dispatch and_then
  dispatch-shutdown [] s rest h = elim h [ ]
  dispatch-shutdown (e ∷ es) s rest (inl tag) =
      let (status, e) = shutdown-breaks e s tag in simp (e, dispatch) refl
  dispatch-shutdown (e ∷ es) s rest (inr h) = elim (Turn-continues (handle_event sys e s)) [
    | inl (s', goes) ↦ simp (goes, dispatch) (dispatch-shutdown es s' rest h)
    | inr ends ↦ let same = ends (dispatch sys es) in ap (and_then rest) same ∙ ends rest ∙ sym same
  ]

-- An error on the listen socket, the timer or the shutdown descriptor, at any time of the run, ends
-- it with -1, the connections freed and the descriptors as they were before it.
pub tear_down-infrastructure :
    (sys : System) (e : Event) (es : List Event) (ws : List Wait) (s : Server) (xs : List ℕ)
    (epoll_fd timer_fd : ℕ) (ds : Descriptors)
    → IsLive (holding timer_fd (holding epoll_fd ds)) s xs
    → e.broken ≡ true
    → is_infrastructure_fd e.ud ≡ true
    → (heap : Heap) × (tear_down epoll_fd timer_fd (run_loop sys (reported (e ∷ es) ∷ ws) s)
        ≡ returned false ds heap)
      × ((a : ℕ) → heap a ≡ none)
unfolding run_loop dispatch and_then handle_event
tear_down-infrastructure sys e es ws s xs epoll_fd timer_fd ds live bad ours =
    let stops : run_loop sys (reported (e ∷ es) ∷ ws) s ≡ breaks false s =
      simp (bad, ours, run_loop, dispatch, handle_event) refl in
    let (heap, e, freed) = tear_down-breaks ds epoll_fd timer_fd false s xs live in
    (heap, ap (tear_down epoll_fd timer_fd) stops ∙ e, freed)

-- A connection that a sweep leaves is not idle.
Has-active :
    (now timeout : ℕ) (heap : Heap) (a : ℕ) (xs : List ℕ)
    → Has a (active now timeout heap xs)
    → stays now timeout (activity heap a) ≡ true
Has-active now timeout heap a [] h = elim h [ ]
Has-active now timeout heap a (x ∷ xs) h = elim (Bool-cases (stays now timeout (activity heap x))) [
  | inl kept ↦ elim (simp kept at h) [
    | inl same ↦ ap (λ (q : ℕ). stays now timeout (activity heap q)) (sym same) ∙ kept
    | inr later ↦ Has-active now timeout heap a xs later
  ]
  | inr closed ↦ Has-active now timeout heap a xs (simp closed at h)
]

freed-dangles :
    (sys : System) (e : Event) (a : ℕ) (s : Server)
    → e.ud ≡ connection_tag a
    → s.listed.heap a ≡ none
    → handle_event sys e s ≡ dangles
unfolding handle_event on_ready on_connection close_tagged hang_up close_listed list_remove
    is_infrastructure_fd
freed-dangles sys e a s tag gone = elim (Bool-cases e.broken) [
  | inl bad ↦
      simp (bad, tag, gone, handle_event, close_tagged, hang_up, close_listed, list_remove) refl
  | inr sane ↦ simp (sane, tag, gone, handle_event, on_ready, on_connection) refl
]

timer-sweeps :
    (sys : System) (e : Event) (s : Server)
    → e.ud ≡ timer_tag
    → e.broken ≡ false
    → handle_event sys e s ≡ on_timer sys s
unfolding handle_event on_ready
timer-sweeps sys e s timer sane = simp (sane, timer, handle_event, on_ready) refl

-- When the timer's event is followed by one of a connection that is idle at that moment, the sweep
-- frees the connection and the loop then uses it.
pub dispatch-dangles :
    (base : Descriptors) (sys : System) (e e' : Event) (es : List Event) (a : ℕ) (s : Server)
    (xs : List ℕ)
    → IsLive base s xs
    → Has a xs
    → stays (sys.loop.clock s.times) sys.idle_timeout_seconds (activity s.listed.heap a) ≡ false
    → e.ud ≡ timer_tag
    → e.broken ≡ false
    → e'.ud ≡ connection_tag a
    → dispatch sys (e ∷ e' ∷ es) s ≡ dangles
unfolding dispatch and_then
dispatch-dangles base sys e e' es a s xs live has idle timer sane tag =
    let (after, swept, left) = on_timer-IsLive base sys s xs live in
    let gone : after.listed.heap a ≡ none = elim (left.no_others a) [
      | inl kept ↦ let stayed = Has-active _ _ s.listed.heap a xs kept in absurd cc
      | inr free_there ↦ free_there
    ] in
    ap (and_then (dispatch sys (e' ∷ es))) (timer-sweeps sys e s timer sane ∙ swept)
    ∙ ap (and_then (dispatch sys es)) (freed-dangles sys e' a after tag gone)
