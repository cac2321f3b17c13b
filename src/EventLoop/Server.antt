-- ===== src/EventLoop/Server.antt =====
-- The state of a running loop of event_loop.c with all its connections, `close_connection` on it,
-- and `accept_new_connections`.
use c_http_server.Prelude.{
  ℕ, ◌+◌, Bool, true, false, Option, none, some, List, [], ◌∷◌, Bytes, ◌==◌, if◌then◌else◌,
}
use c_http_server.HttpParser.{http_parser_init}
use c_http_server.StaticFiles.Descriptors.{Descriptors, holding, close}
use c_http_server.EventLoop.{Connection}
use c_http_server.EventLoop.Flush.{Transfer}
use c_http_server.EventLoop.List.{
  Node, Heap, Connections, store_at, list_insert, close_listed, Closing,
}
use c_http_server.EventLoop.Serve.{
  Loop, World, Progress, returns, waits, out_of_fuel, close_connection,
}

-- What the loop's calls answer, with the fields of `event_loop_t` that stay as they are: `malloc`
-- by the number of earlier calls and what is allocated, the others as in Loop.
pub record System : Type 0 where
  pub loop : Loop
  pub malloc : ℕ → Heap → Option ℕ
  pub idle_timeout_seconds : ℕ

-- The connection at an address is its node on the list's heap, where one is allocated, and its
-- other fields in `contents`; its socket has been sent `wires` since it was accepted. `descriptors`
-- are the open ones of the process, and the counts are of the calls of `epoll_ctl` that change a
-- registration, of `time` and of `malloc`.
pub record Server : Type 0 where
  pub listed : Connections
  pub contents : ℕ → Connection
  pub wires : ℕ → Bytes
  pub descriptors : Descriptors
  pub mods : ℕ
  pub times : ℕ
  pub mallocs : ℕ

abbrev pub put {ℓ} : {A : Type ℓ} → ℕ → A → (ℕ → A) → ℕ → A
put a x f q = if q == a then x else f q

-- What the functions for one connection read and change.
abbrev pub world_of : Server → ℕ → List Transfer → World
world_of s a answers = record {
  wire = s.wires a;
  answers = answers;
  descriptors = s.descriptors;
  mods = s.mods;
  times = s.times;
}

abbrev pub with_world : Server → ℕ → World → Server
with_world s a w = record s {
  wires = put a w.wire s.wires;
  descriptors = w.descriptors;
  mods = w.mods;
  times = w.times;
}

-- `close_connection` with the list; `none` where the connection has been freed.
unfoldable pub hang_up : Server → ℕ → Option Server
hang_up s a = elim (close_listed s.listed a) [
  | none ↦ none
  | some l ↦
      some
        (record (with_world s a (close_connection (s.contents a) (world_of s a []))) { listed = l })
]

abbrev pub on_server : Closing Server
on_server = record { links = λ s. s.listed; close_one = hang_up }

-- How the loop goes on: it takes the next event; it is left with a status, true for 0; a call in a
-- handler has not been answered; a connection is used that has been freed; fuel ran out.
pub data Turn : Type 0 where
  continues : Server → Turn
  breaks : Bool → Server → Turn
  stalls : Turn
  dangles : Turn
  starves : Turn

-- How the kernel answers `accept4`, where it gives a connection with how `epoll_ctl` answers for
-- it.
pub data Accept : Type 0 where
  new_client : (fd : ℕ) (registered : Bool) → Accept
  backlog_empty : Accept
  accept_interrupted : Accept
  accept_failed : Accept

abbrev pub fresh_connection : ℕ → ℕ → Connection
fresh_connection fd now = record {
  fd = fd;
  parser = http_parser_init;
  write_buf = [];
  write_sent = 0;
  keep_alive_after_write = false;
  awaiting_writable = false;
  file_fd = none;
  file_offset = 0;
  file_size = 0;
  pending_input = [];
  last_activity = now;
}

abbrev pub fresh_node : ℕ → Node
fresh_node now = record { prev = none; next = none; last_activity = now }

-- The new connection, allocated at `a`, initialised and in front of the list.
unfoldable pub start_connection : System → ℕ → ℕ → Server → Server
start_connection sys fd a s =
    let now = sys.loop.clock s.times in
    record s {
      listed =
          list_insert (record s.listed { heap = put a (some (fresh_node now)) s.listed.heap }) a;
      contents = put a (fresh_connection fd now) s.contents;
      wires = put a [] s.wires;
      times = s.times + 1;
    }

-- Behind an `accept4` that gives `fd`; setting TCP_NODELAY on it changes nothing here.
unfoldable pub welcome : System → ℕ → Bool → Server → Option Server
welcome sys fd registered s =
    let opened = record s { descriptors = holding fd s.descriptors; mallocs = s.mallocs + 1 } in
    elim (sys.malloc s.mallocs s.listed.heap) [
      | none ↦ some (record opened { descriptors = close fd opened.descriptors })
      | some a ↦
          let started = start_connection sys fd a opened in
          elim registered [ true ↦ some started | false ↦ hang_up started a ]
    ]

unfoldable pub accept_new_connections : System → List Accept → Server → Turn
accept_new_connections sys [] s = stalls
accept_new_connections sys (new_client fd registered ∷ xs) s = elim (welcome sys fd registered s) [
  | none ↦ dangles
  | some after ↦ accept_new_connections sys xs after
]
accept_new_connections sys (backlog_empty ∷ xs) s = continues s
accept_new_connections sys (accept_interrupted ∷ xs) s = accept_new_connections sys xs s
accept_new_connections sys (accept_failed ∷ xs) s = continues s

-- Behind a handler that did not close the connection: its fields are stored.
unfoldable pub keep : Server → ℕ → Connection → World → Server
keep s a conn w = record (with_world s a w) {
  listed = record s.listed {
    heap = store_at a (λ n. record n { last_activity = conn.last_activity }) s.listed.heap;
  };
  contents = put a conn s.contents;
}

-- Behind a handler. One that closed the connection took it off the list and freed it as well.
unfoldable pub after_handler : Server → ℕ → Progress → Turn
after_handler s a waits = stalls
after_handler s a out_of_fuel = starves
after_handler s a (returns r) = elim (r.alive) [
  | true ↦ continues (keep s a r.conn r.world)
  | false ↦ elim (close_listed s.listed a) [
    | none ↦ dangles
    | some l ↦
        continues
          (record (with_world s a r.world) { listed = l; contents = put a r.conn s.contents })
  ]
]
