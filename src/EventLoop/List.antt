-- ===== src/EventLoop/List.antt =====
-- The doubly linked list of a loop's live connections in event_loop.c, on a heap of connections. A
-- pointer is an address, `none` is `NULL`; an address that is not allocated has no node.
use c_http_server.Prelude.{
  ℕ, zero, suc, ◌-◌, Bool, true, false, Option, none, some, ◌==◌, leb, if◌then◌else◌,
}
use mathlib.Core.Option

-- The fields of `connection_t` that the list and the sweep read.
pub record Node : Type 0 where
  pub prev : Option ℕ
  pub next : Option ℕ
  pub last_activity : ℕ

abbrev pub Heap : Type 0
Heap = ℕ → Option Node

-- The heap, and `loop->connections`.
pub record Connections : Type 0 where
  pub heap : Heap
  pub head : Option ℕ

abbrev pub changed : (Node → Node) → Option Node → Option Node
changed f none = none
changed f (some n) = some (f n)

-- A store to fields of the node at `p`.
abbrev pub store_at : ℕ → (Node → Node) → Heap → Heap
store_at p f heap q = if q == p then changed f (heap q) else heap q

abbrev pub set_prev : Option ℕ → Node → Node
set_prev p n = record n { prev = p }

abbrev pub set_next : Option ℕ → Node → Node
set_next p n = record n { next = p }

-- A store through a pointer that has been tested against `NULL`.
abbrev pub store_through : Option ℕ → (Node → Node) → Heap → Heap
store_through none f heap = heap
store_through (some p) f heap = store_at p f heap

unfoldable pub list_insert : Connections → ℕ → Connections
list_insert loop conn = record {
  heap =
      store_through loop.head (set_prev (some conn))
        (store_at conn (λ n. set_next loop.head (set_prev none n)) loop.heap);
  head = some conn;
}

-- `loop->connections` behind the removal: it moves if there is no previous node.
abbrev pub head_after : Option ℕ → Option ℕ → Option ℕ → Option ℕ
head_after none next head = next
head_after (some p) next head = head

-- `none` where `conn` is not allocated. The node is read before the stores, which go to its
-- neighbours.
unfoldable pub list_remove : Connections → ℕ → Option Connections
list_remove loop conn = elim (loop.heap conn) [
  | none ↦ none
  | some node ↦ some (record {
    heap =
        store_through node.next (set_prev node.prev)
          (store_through node.prev (set_next node.next) loop.heap);
    head = head_after node.prev node.next loop.head;
  })
]

-- `free(conn)`.
abbrev pub free : ℕ → Heap → Heap
free conn heap q = if q == conn then none else heap q

-- What `close_connection` does to the list.
unfoldable pub close_listed : Connections → ℕ → Option Connections
close_listed loop conn = elim (list_remove loop conn) [
  | none ↦ none
  | some after ↦ some (record after { heap = free conn after.heap })
]

-- `now - conn->last_activity >= timeout`. The timeout is at least 1, so a clock that went back
-- makes the test false, as the negative difference does.
abbrev pub is_idle : ℕ → ℕ → ℕ → Bool
is_idle now timeout last_activity = leb timeout (now - last_activity)

-- When the connection at an address was last active, if one is allocated there.
abbrev pub activity : Heap → ℕ → Option ℕ
activity heap a = Option.map (λ (n : Node). n.last_activity) (heap a)

-- A state with a list of connections, and what `close_connection` does to it; `none` is a use of a
-- connection that is not allocated.
pub record Closing (S : Type 0) : Type 0 where
  pub links : S → Connections
  pub close_one : S → ℕ → Option S

-- The list alone.
abbrev pub list_only : Closing Connections
list_only = record { links = λ loop. loop; close_one = close_listed }

-- The loop of `sweep_idle_connections` at the pointer `conn`; `none` is a read of a connection that
-- is not allocated, or a lack of fuel.
unfoldable pub sweep_from : {S : Type 0} → Closing S → ℕ → ℕ → ℕ → S → Option ℕ → Option S
sweep_from c zero now timeout s conn = none
sweep_from c (suc fuel) now timeout s none = some s
sweep_from c (suc fuel) now timeout s (some conn) = elim ((c.links s).heap conn) [
  | none ↦ none
  | some node ↦ elim (is_idle now timeout node.last_activity) [
    | false ↦ sweep_from c fuel now timeout s node.next
    | true ↦ elim (c.close_one s conn) [
      | none ↦ none
      | some after ↦ sweep_from c fuel now timeout after node.next
    ]
  ]
]

-- On fuel: one round more than there are connections is enough, see EventLoop.Sweep.
unfoldable pub sweep_idle_connections : {S : Type 0} → Closing S → ℕ → ℕ → ℕ → S → Option S
sweep_idle_connections c fuel now timeout s = sweep_from c fuel now timeout s (c.links s).head

-- One round of `close_all_connections` at the head, the rest of the loop being `next_round`.
unfoldable pub close_head : {S : Type 0} → Closing S → (S → Option S) → S → Option ℕ → Option S
close_head c next_round s none = some s
close_head c next_round s (some conn) = elim (c.close_one s conn) [
  | none ↦ none
  | some after ↦ next_round after
]

-- On fuel; `none` as in `sweep_from`.
unfoldable pub close_all_connections : {S : Type 0} → Closing S → ℕ → S → Option S
close_all_connections c zero s = none
close_all_connections c (suc fuel) s =
    close_head c (close_all_connections c fuel) s (c.links s).head
