-- ===== src/EventLoop/Batches.antt =====
-- The events of `event_loop_run` of event_loop.c on a running loop, one batch after the other.
use c_http_server.Prelude.{
  ℕ, ◌+◌, true, false, Bool-cases, inl, inr, none, List, [], ◌∷◌, ◌++◌, ◌≡◌, refl, sym, ◌∙◌, arith,
}
use mathlib.Core.Path.{subst}
use c_http_server.StaticFiles.Descriptors.{Descriptors}
use c_http_server.EventLoop.Chain.{Avoids}
use c_http_server.EventLoop.Linked.{node_of}
use c_http_server.EventLoop.Sweep.{active, sweep-Fits}
use c_http_server.EventLoop.Owns.{Owns}
use c_http_server.EventLoop.Wakeups.{
  handle_client_readable-HandlesChunk, flush_pending_write-Handles,
}
use c_http_server.EventLoop.Server.{System, Server, world_of, on_server, Turn, continues}
use c_http_server.EventLoop.Dispatch.{
  Tag, listen_tag, timer_tag, shutdown_tag, connection_tag, Event, is_infrastructure_fd,
  close_tagged, on_timer, on_connection, on_ready, handle_event, and_then, dispatch,
}
use c_http_server.EventLoop.Members.{Has, AllIn, Has-split, AllIn-without}
use c_http_server.EventLoop.Live.{all_held, reads, writes, IsLive, all_held_middle, IsSettled-at}
use c_http_server.EventLoop.Closes.{
  GoesOn, on, left_with, stalled, hang_up-IsLive, after_handler-GoesOn, on_server-Keeps,
}
use c_http_server.EventLoop.Accepts.{IsFresh, accept_new_connections-GoesOn}

-- The connections that events name, in their order.
abbrev pub named_by : Tag → List ℕ → List ℕ
named_by listen_tag names = names
named_by timer_tag names = names
named_by shutdown_tag names = names
named_by (connection_tag a) names = a ∷ names

abbrev pub names_in : List Event → List ℕ
names_in [] = []
names_in (e ∷ es) = named_by e.ud (names_in es)

-- What may come behind an event: no second one of the same connection, and none of any connection
-- behind the timer's.
abbrev pub ComesBefore : Tag → List ℕ → Type 0
ComesBefore listen_tag names = Unit
ComesBefore timer_tag names = names ≡ []
ComesBefore shutdown_tag names = Unit
ComesBefore (connection_tag a) names = Avoids a names

abbrev pub IsOrderly : List Event → Type 0
IsOrderly [] = Unit
IsOrderly (e ∷ es) = ComesBefore e.ud (names_in es) × IsOrderly es

pub and_then-GoesOn :
    (base : Descriptors) (names names' : List ℕ) (rest : Server → Turn) (t : Turn)
    → ((s : Server) (xs : List ℕ) → IsLive base s xs → AllIn names xs → GoesOn base names' (rest s))
    → GoesOn base names t
    → GoesOn base names' (and_then rest t)
unfolding and_then
and_then-GoesOn base names names' rest _ goes (on s xs live named) = goes s xs live named
and_then-GoesOn base names names' rest _ goes (left_with status s xs live) =
    left_with status s xs live
and_then-GoesOn base names names' rest _ goes stalled = stalled

module _ (base : Descriptors) (sys : System) where
  on_connection-GoesOn :
      (e : Event) (names : List ℕ) (a : ℕ) (s : Server) (xs : List ℕ)
      → IsLive base s xs
      → Has a xs
      → Avoids a names
      → AllIn names xs
      → GoesOn base names (on_connection sys e a s)
  unfolding on_connection
  on_connection-GoesOn e names a s xs live0 has apart named0 =
      let (ys, zs, split) = Has-split a xs has in
      let live = subst (IsLive base s) split live0 in
      let named = subst (AllIn names) split named0 in
      let loop = s.listed in
      let (n, at, prev_is, next_is) = node_of a zs loop.heap none loop.head ys live.holds.chain in
      let conn = s.contents a in
      let others = all_held s.contents (ys ++ zs) base in
      let owns : Owns others conn (world_of s a e.transfers) =
        live.open_are ∙ all_held_middle s.contents base a ys zs in
      elim (IsSettled-at s.contents a ys zs live.settled) [
        | reads reading no_file alive ↦
            let chunk =
              handle_client_readable-HandlesChunk others sys.loop e.reads conn
                (world_of s a e.transfers)
                (record { reading = reading; no_file = no_file; live = alive; owns = owns }) in
            simp (at, reading, on_connection)
              (after_handler-GoesOn base s a ys zs live names _ _ _ apart named chunk.handles)
        | writes writing ↦
            simp (at, writing, on_connection)
              (after_handler-GoesOn base s a ys zs live names _ _ _ apart named (
                flush_pending_write-Handles others sys.loop conn (world_of s a e.transfers)
                  (record { writing = writing; owns = owns })))
      ]

  -- An event of the timer leaves the connections that are not idle.
  pub on_timer-IsLive :
      (s : Server) (xs : List ℕ)
      → IsLive base s xs
      → (after : Server) × (on_timer sys s ≡ continues after)
        × IsLive base after
            (active (sys.loop.clock s.times) sys.idle_timeout_seconds s.listed.heap xs)
  unfolding on_timer
  on_timer-IsLive s xs live =
      let timed : Server = record s { times = s.times + 1 } in
      let live' : IsLive base timed xs = record {
        holds = live.holds;
        settled = live.settled;
        open_are = live.open_are;
        no_others = live.no_others;
        allocated = live.allocated;
      } in
      let (after, e, left) =
        sweep-Fits on_server (IsLive base) (on_server-Keeps base) (s.mallocs + 1)
          (sys.loop.clock s.times) sys.idle_timeout_seconds timed xs live'
          (let h = live.allocated in omega arith) in
      (after, simp (e, on_timer) refl, left)

  on_timer-GoesOn : (s : Server) (xs : List ℕ) → IsLive base s xs → GoesOn base [] (on_timer sys s)
  on_timer-GoesOn s xs live =
      let (after, e, left) = on_timer-IsLive s xs live in
      subst (GoesOn base []) (sym e) (on after _ left tt)

  close_tagged-GoesOn :
      (tag : Tag) (names : List ℕ) (s : Server) (xs : List ℕ)
      → is_infrastructure_fd tag ≡ false
      → IsLive base s xs
      → ComesBefore tag names
      → AllIn (named_by tag names) xs
      → GoesOn base names (close_tagged tag s)
  unfolding close_tagged is_infrastructure_fd
  close_tagged-GoesOn listen_tag names s xs other live apart named = absurd cc
  close_tagged-GoesOn timer_tag names s xs other live apart named = absurd cc
  close_tagged-GoesOn shutdown_tag names s xs other live apart named = absurd cc
  close_tagged-GoesOn (connection_tag a) names s xs other live0 apart named =
      let (ys, zs, split) = Has-split a xs named.0 in
      let live = subst (IsLive base s) split live0 in
      let (after, e, left, same) = hang_up-IsLive base s a ys zs live in
      simp (e, close_tagged)
        (on after (ys ++ zs) left
          (AllIn-without a names ys zs apart (subst (AllIn names) split named.1)))

  module _ (fresh : IsFresh sys.malloc) where
    on_ready-GoesOn :
        (e : Event) (tag : Tag) (names : List ℕ) (s : Server) (xs : List ℕ)
        → IsLive base s xs
        → ComesBefore tag names
        → AllIn (named_by tag names) xs
        → GoesOn base names (on_ready sys e tag s)
    unfolding on_ready
    on_ready-GoesOn e listen_tag names s xs live before named =
        accept_new_connections-GoesOn base sys fresh names e.accepts s xs live named
    on_ready-GoesOn e timer_tag names s xs live before named =
        subst (λ (ns : List ℕ). GoesOn base ns (on_timer sys s)) (sym before)
          (on_timer-GoesOn s xs live)
    on_ready-GoesOn e shutdown_tag names s xs live before named = left_with true s xs live
    on_ready-GoesOn e (connection_tag a) names s xs live before named =
        on_connection-GoesOn e names a s xs live named.0 before named.1

    handle_event-GoesOn :
        (e : Event) (names : List ℕ) (s : Server) (xs : List ℕ)
        → IsLive base s xs
        → ComesBefore e.ud names
        → AllIn (named_by e.ud names) xs
        → GoesOn base names (handle_event sys e s)
    unfolding handle_event
    handle_event-GoesOn e names s xs live before named = elim (Bool-cases e.broken) [
      | inr sane ↦ simp (sane, handle_event) (on_ready-GoesOn e e.ud names s xs live before named)
      | inl bad ↦ elim (Bool-cases (is_infrastructure_fd e.ud)) [
        | inl ours ↦ simp (bad, ours, handle_event) (left_with false s xs live)
        | inr other ↦
            simp (bad, other, handle_event)
              (close_tagged-GoesOn e.ud names s xs other live before named)
      ]
    ]

    -- Handling a batch of events keeps what holds between two of them: a list of connections, each
    -- at a request or in the middle of a response, and just their descriptors open beside those of
    -- before. No connection is used that has been freed. The conditions are that malloc gives no
    -- address that is in use, and that the events name connections on the list, each once, and none
    -- behind the timer's event; the handlers' calls may be answered in any way, or not at all.
    pub dispatch-GoesOn :
        (es : List Event) (s : Server) (xs : List ℕ)
        → IsLive base s xs
        → IsOrderly es
        → AllIn (names_in es) xs
        → GoesOn base [] (dispatch sys es s)
    unfolding dispatch
    dispatch-GoesOn [] s xs live orderly named = on s xs live tt
    dispatch-GoesOn (e ∷ es) s xs live orderly named =
        and_then-GoesOn base (names_in es) [] (dispatch sys es) (handle_event sys e s)
          (λ s' ys live' named'. dispatch-GoesOn es s' ys live' orderly.1 named')
          (handle_event-GoesOn e (names_in es) s xs live orderly.0 named)
