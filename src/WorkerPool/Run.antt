-- ===== src/WorkerPool/Run.antt =====
-- `create_listen_socket`, `worker_main` and `worker_pool_run` of worker_pool.c.
use c_http_server.Prelude.{
  ℕ, ◌+◌, Bool, false, not, Option, none, some, List, [], ◌∷◌, ◌==◌, if◌then◌else◌, length,
}
use c_http_server.StaticFiles.Descriptors.{Descriptors, close, holding}

-- What the system calls of one worker answer, and what `event_loop_run` returns: true is 0. It is
-- taken to leave the descriptors as they were, see EventLoop.SetUp.
pub record WorkerCalls : Type 0 where
  pub answer_socket : Option ℕ
  pub reuseaddr_ok : Bool
  pub reuseport_ok : Bool
  pub bind_ok : Bool
  pub listen_ok : Bool
  pub loop_ok : Bool
  pub create_ok : Bool
  pub join_ok : Bool

-- The listening socket, `none` for -1, with the descriptors after the call.
unfoldable pub create_listen_socket : WorkerCalls → Descriptors → Option ℕ × Descriptors
create_listen_socket w ds = elim (w.answer_socket) [
  | none ↦ (none, ds)
  | some fd ↦
      if not w.reuseaddr_ok
      then (none, close fd (holding fd ds))
      else if not w.reuseport_ok
      then (none, close fd (holding fd ds))
      else if not w.bind_ok
      then (none, close fd (holding fd ds))
      else if not w.listen_ok
      then (none, close fd (holding fd ds))
      else (some fd, holding fd ds)
]

-- `served` of the worker after it, with the descriptors.
unfoldable pub worker_main : WorkerCalls → Descriptors → Bool × Descriptors
worker_main w ds =
    let (listen_fd, opened) = create_listen_socket w ds in
    elim listen_fd [ none ↦ (false, opened) | some fd ↦ (w.loop_ok, close fd opened) ]

-- `workers[i]` after the two loops: `started`, and whether it counts as serving.
unfoldable pub started_count : List WorkerCalls → ℕ
started_count [] = 0
started_count (w ∷ ws) = if w.create_ok then started_count ws + 1 else started_count ws

-- The joining loop, with the descriptors of the process, which the threads share. Each thread that
-- was created has run by then, also one that could not be joined.
unfoldable pub serving_count : Descriptors → List WorkerCalls → ℕ × Descriptors
serving_count ds [] = (0, ds)
serving_count ds (w ∷ ws) =
    if not w.create_ok
    then serving_count ds ws
    else let (served, left) = worker_main w ds in
      let (n, after) = serving_count left ws in
      if not w.join_ok then (n, after) else if served then (n + 1, after) else (n, after)

-- True is the result 0, with the descriptors after the call; one entry of the list for each of
-- `worker_count` workers, and whether `calloc` gave the array.
unfoldable pub worker_pool_run : Bool → Descriptors → List WorkerCalls → Bool × Descriptors
worker_pool_run calloc_ok ds workers =
    if length workers == 0
    then (false, ds)
    else if not calloc_ok
    then (false, ds)
    else if started_count workers == 0
    then (false, ds)
    else let (serving, after) = serving_count ds workers in (not (serving == 0), after)
