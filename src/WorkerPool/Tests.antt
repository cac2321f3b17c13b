-- ===== src/WorkerPool/Tests.antt =====
-- Settings and pools of worker_pool.c and main.c, and their theorems at them.
use c_http_server.Prelude.{
  ◌≤◌, true, false, ◌↔◌, some, [], ◌∷◌, codes, ◌≡◌, refl, arith, digits_value, number, skip_space,
  signed, strtol,
}
use c_http_server.StaticFiles.Descriptors.{holding, none_open}
use c_http_server.EventLoop.Response.{decimal}
use c_http_server.WorkerPool.Count.{
  online_cpu_count, accepted, worker_pool_worker_count, idle_timeout_from_env,
}
use c_http_server.WorkerPool.Run.{WorkerCalls, worker_main, worker_pool_run}
use c_http_server.WorkerPool.Settings.{
  worker_pool_worker_count-Within, worker_pool_worker_count-decimal, idle_timeout_from_env-Within,
  idle_timeout_from_env-decimal,
}
use c_http_server.WorkerPool.Serving.{
  serves, worker_main-serves, SomeServes, worker_pool_run-SomeServes,
}

-- Too many workers, and a number with something behind it.
too_many_workers : worker_pool_worker_count (some (codes "65")) (some 8) ≡ 8
unfolding worker_pool_worker_count strtol skip_space signed number digits_value accepted
    online_cpu_count
too_many_workers = refl

padded_workers : worker_pool_worker_count (some (codes " +12")) (some 8) ≡ 12
unfolding worker_pool_worker_count strtol skip_space signed number digits_value accepted
    online_cpu_count
padded_workers = refl

trailing_unit : idle_timeout_from_env (some (codes "5s")) ≡ 30
unfolding idle_timeout_from_env strtol skip_space signed number digits_value accepted
trailing_unit = refl

worker_pool_worker_count-Within_example :
    (1 ≤ worker_pool_worker_count (some (codes "-3")) (some 900))
    × (worker_pool_worker_count (some (codes "-3")) (some 900) ≤ 64)
worker_pool_worker_count-Within_example =
    worker_pool_worker_count-Within (some (codes "-3")) (some 900)

worker_pool_worker_count-decimal_example :
    worker_pool_worker_count (some (decimal 17)) (some 4) ≡ 17
worker_pool_worker_count-decimal_example =
    worker_pool_worker_count-decimal 17 (some 4) (omega arith) (omega arith)

idle_timeout_from_env-Within_example :
    (1 ≤ idle_timeout_from_env (some (codes "9999")))
    × (idle_timeout_from_env (some (codes "9999")) ≤ 3600)
idle_timeout_from_env-Within_example = idle_timeout_from_env-Within (some (codes "9999"))

idle_timeout_from_env-decimal_example : idle_timeout_from_env (some (decimal 2)) ≡ 2
idle_timeout_from_env-decimal_example = idle_timeout_from_env-decimal 2 (omega arith) (omega arith)

-- A worker that serves, and one whose port is taken.
abbrev good : WorkerCalls
good = record {
  answer_socket = some 5;
  reuseaddr_ok = true;
  reuseport_ok = true;
  bind_ok = true;
  listen_ok = true;
  loop_ok = true;
  create_ok = true;
  join_ok = true;
}

abbrev bad : WorkerCalls
bad = record good { bind_ok = false }

worker_main-serves_example :
    worker_main bad (holding 3 none_open) ≡ (serves bad bad.answer_socket, holding 3 none_open)
worker_main-serves_example = worker_main-serves bad (holding 3 none_open)

worker_pool_run-SomeServes_example :
    ((worker_pool_run true (holding 3 none_open) (bad ∷ good ∷ [])).0 ≡ true)
    ↔ ((true ≡ true) × SomeServes (bad ∷ good ∷ []))
worker_pool_run-SomeServes_example =
    worker_pool_run-SomeServes true (holding 3 none_open) (bad ∷ good ∷ [])
