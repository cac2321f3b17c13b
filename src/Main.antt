-- ===== src/Main.antt =====
-- main.c: the signal handler and the start of the process. The pool's configuration is the one of
-- worker_pool.h; what the system calls answer is a parameter.
pub mod Exits
pub mod Signals
mod Tests
use c_http_server.Prelude.{
  ℕ, zero, suc, ◌+◌, Bool, false, not, Option, none, some, List, [], ◌∷◌, Bytes, codes,
  if◌then◌else◌,
}
use c_http_server.StaticFiles.Descriptors.{Descriptors, holding, close}
use c_http_server.StaticFiles.Open.{Kernel, static_files_init}
use c_http_server.WorkerPool.Count.{worker_pool_worker_count, idle_timeout_from_env}
use c_http_server.WorkerPool.Run.{WorkerCalls, worker_pool_run}

abbrev pub port_number : ℕ
port_number = 8080

abbrev pub backlog_length : ℕ
backlog_length = 128

abbrev pub default_public_root : Bytes
default_public_root = codes "public"

pub record WorkerPoolConfig : Type 0 where
  pub port : ℕ
  pub backlog : ℕ
  pub worker_count : ℕ
  pub idle_timeout_seconds : ℕ
  pub shutdown_fd : ℕ

-- What the calls of the process answer: `signal`, `getenv` for the root, the file system,
-- `eventfd`, the two `sigaction`, `getenv` for the timeout and the worker count, `sysconf`, the
-- pool's `calloc`, and the calls of each worker under a configuration.
pub record MainCalls : Type 0 where
  pub sigpipe_ok : Bool
  pub answer_root : Option Bytes
  pub kernel : Kernel
  pub answer_eventfd : Option ℕ
  pub sigint_ok : Bool
  pub sigterm_ok : Bool
  pub answer_timeout : Option Bytes
  pub answer_workers : Option Bytes
  pub answer_sysconf : Option ℕ
  pub calloc_ok : Bool
  pub answer_worker : WorkerPoolConfig → ℕ → WorkerCalls

-- The exit status, true for EXIT_SUCCESS, with the open descriptors.
pub record Exit : Type 0 where
  pub success : Bool
  pub descriptors : Descriptors

unfoldable pub public_root_or_default : Option Bytes → Bytes
public_root_or_default none = default_public_root
public_root_or_default (some []) = default_public_root
public_root_or_default (some (c ∷ cs)) = c ∷ cs

unfoldable pub pool_config : MainCalls → ℕ → WorkerPoolConfig
pool_config calls g_shutdown_fd = record {
  port = port_number;
  backlog = backlog_length;
  worker_count = worker_pool_worker_count calls.answer_workers calls.answer_sysconf;
  idle_timeout_seconds = idle_timeout_from_env calls.answer_timeout;
  shutdown_fd = g_shutdown_fd;
}

-- The workers of the pool, by their number.
abbrev pub workers_of : ℕ → (ℕ → WorkerCalls) → List WorkerCalls
workers_of zero worker = []
workers_of (suc n) worker = worker 0 ∷ workers_of n (λ i. worker (i + 1))

abbrev pub exit_with : Bool → Descriptors → Exit
exit_with success ds = record { success = success; descriptors = ds }

abbrev pub pool_workers : MainCalls → ℕ → List WorkerCalls
pool_workers calls g_shutdown_fd =
    let pool = pool_config calls g_shutdown_fd in
    workers_of pool.worker_count (calls.answer_worker pool)

-- Behind `eventfd`.
unfoldable pub serve_until_shutdown : MainCalls → ℕ → Descriptors → Exit
serve_until_shutdown calls g_shutdown_fd ds =
    if not calls.sigint_ok
    then exit_with false (close g_shutdown_fd ds)
    else if not calls.sigterm_ok
    then exit_with false (close g_shutdown_fd ds)
    else let (ok, after) = worker_pool_run calls.calloc_ok ds (pool_workers calls g_shutdown_fd) in
      exit_with ok (close g_shutdown_fd after)

unfoldable pub main : MainCalls → Descriptors → Exit
main calls ds =
    if not calls.sigpipe_ok
    then exit_with false ds
    else elim (static_files_init calls.kernel (public_root_or_default calls.answer_root)) [
      | none ↦ exit_with false ds
      | some g_root ↦ elim (calls.answer_eventfd) [
        | none ↦ exit_with false ds
        | some g_shutdown_fd ↦ serve_until_shutdown calls g_shutdown_fd (holding g_shutdown_fd ds)
      ]
    ]
