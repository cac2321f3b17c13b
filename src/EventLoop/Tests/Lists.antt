-- ===== src/EventLoop/Tests/Lists.antt =====
-- A list of two connections of event_loop.c, and its theorems at it.
use c_http_server.Prelude.{ℕ, ◌==◌, if◌then◌else◌, Option, none, some, [], ◌∷◌, ◌≡◌, refl, arith}
use c_http_server.EventLoop.List.{
  Node, Connections, sweep_idle_connections, close_all_connections, list_only,
}
use c_http_server.EventLoop.Sweep.{
  active, close_all_connections-Holds, sweep_idle_connections-Holds,
}
use c_http_server.EventLoop.Chain.{link, stop}
use c_http_server.EventLoop.Linked.{Holds}

-- Two connections at the addresses 10 and 20, and one at 30 that is not on the list.
abbrev node_at : Option ℕ → Option ℕ → Node
node_at prev next = record { prev = prev; next = next; last_activity = 0 }

abbrev two_connections : Connections
two_connections = record {
  heap = λ a.
      if a == 10
      then some (node_at none (some 20))
      else if a == 20
      then some (node_at (some 10) none)
      else if a == 30
      then some (node_at none none)
      else none;
  head = some 10;
}

two_connections-Holds : Holds two_connections (10 ∷ 20 ∷ [])
two_connections-Holds = record {
  distinct = ground arith;
  chain = link (node_at none (some 20)) refl refl (link (node_at (some 10) none) refl refl stop);
}

sweep_idle_connections-Holds_example :
    (after : Connections) × (sweep_idle_connections list_only 3 40 30 two_connections ≡ some after)
    × Holds after (active 40 30 two_connections.heap (10 ∷ 20 ∷ []))
sweep_idle_connections-Holds_example =
    sweep_idle_connections-Holds 40 30 two_connections (10 ∷ 20 ∷ []) two_connections-Holds

close_all_connections-Holds_example :
    (after : Connections) × (close_all_connections list_only 3 two_connections ≡ some after)
    × Holds after []
    × (after.head ≡ none)
close_all_connections-Holds_example =
    close_all_connections-Holds two_connections (10 ∷ 20 ∷ []) two_connections-Holds
