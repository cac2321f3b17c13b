-- ===== src/WorkerPool/Count.antt =====
-- `online_cpu_count` and `worker_pool_worker_count` of worker_pool.c, and `idle_timeout_from_env`
-- of main.c. What `getenv` answers is an argument, `none` for `NULL`.
use c_http_server.Prelude.{
  ℕ, Bool, not, ◌||◌, Option, none, some, [], ◌∷◌, Bytes, ltb, ◌==◌, if◌then◌else◌, length, strtol,
}
use c_http_server.WorkerPool.{max_workers, default_idle_timeout_seconds}

-- On what `sysconf` answers, `none` where that is negative.
unfoldable pub online_cpu_count : Option ℕ → ℕ
online_cpu_count none = 1
online_cpu_count (some online) =
    if ltb online 1 then 1 else if ltb max_workers online then max_workers else online

-- The number that `strtol` read of a value, if it read all of it and the number is in the range
-- from 1 to `highest`; otherwise `fallback`.
unfoldable pub accepted : ℕ → ℕ → Option (Bool × ℕ × Bytes) → ℕ
accepted highest fallback none = fallback
accepted highest fallback (some (negative, value, end)) =
    if not (length end == 0) || (negative || ltb value 1) || ltb highest value
    then fallback
    else value

unfoldable pub worker_pool_worker_count : Option Bytes → Option ℕ → ℕ
worker_pool_worker_count none online = online_cpu_count online
worker_pool_worker_count (some []) online = online_cpu_count online
worker_pool_worker_count (some (c ∷ cs)) online =
    accepted max_workers (online_cpu_count online) (strtol (c ∷ cs))

unfoldable pub idle_timeout_from_env : Option Bytes → ℕ
idle_timeout_from_env none = default_idle_timeout_seconds
idle_timeout_from_env (some []) = default_idle_timeout_seconds
idle_timeout_from_env (some (c ∷ cs)) = accepted 3600 default_idle_timeout_seconds (strtol (c ∷ cs))
