-- ===== src/Main/Tests.antt =====
-- Starts of the process of main.c, and its theorems at them.
use Prim.Native.Nat.{min}
use c_http_server.Prelude.{
  ℕ, ◌+◌, leb, true, false, if◌then◌else◌, none, some, codes, ◌≡◌, refl, arith, Bool-cases, inl,
  inr,
}
use c_http_server.StaticFiles.Descriptors.{holding, none_open}
use c_http_server.StaticFiles.Open.{Kernel, static_files_init}
use c_http_server.WorkerPool.Run.{WorkerCalls}
use c_http_server.Main.{MainCalls, main, serve_until_shutdown, public_root_or_default}
use c_http_server.Main.Signals.{Written, WritesCount, signals, signals-counter}

abbrev worker : WorkerCalls
worker = record {
  answer_socket = some 5;
  reuseaddr_ok = true;
  reuseport_ok = true;
  bind_ok = true;
  listen_ok = true;
  loop_ok = true;
  create_ok = true;
  join_ok = true;
}

abbrev directories : Kernel
directories = record {
  answer_open = λ path. none;
  answer_readlink = λ fd. none;
  answer_fstat = λ fd. none;
  answer_realpath = λ path. some (codes "/srv/public");
  answer_stat = λ path. some (record { is_reg = false; is_dir = true; st_size = 0 });
}

abbrev calls : MainCalls
calls = record {
  sigpipe_ok = true;
  answer_root = none;
  kernel = directories;
  answer_eventfd = some 4;
  sigint_ok = true;
  sigterm_ok = true;
  answer_timeout = some (codes "5");
  answer_workers = some (codes "2");
  answer_sysconf = some 8;
  calloc_ok = true;
  answer_worker = λ pool i. worker;
}

-- The second handler cannot be installed.
abbrev no_handler : MainCalls
no_handler = record calls { sigterm_ok = false }

gives_up_without_handler : (main no_handler (holding 3 none_open)).success ≡ false
unfolding main serve_until_shutdown static_files_init public_root_or_default
gives_up_without_handler = refl

-- A counter that may hold up to 5, whose writes fail with the number 11 when it is full.
abbrev small_counter : ℕ → Written
small_counter c =
    if leb 5 c
    then record { counter = c; error = some 11 }
    else record { counter = c + 1; error = none }

small_counter-WritesCount : WritesCount small_counter 5
small_counter-WritesCount = record {
  adds = λ c low. elim (Bool-cases (leb 5 c)) [
    | inl full ↦ absurd (ground (arith, full, low))
    | inr room ↦ simp room refl
  ];
  full = refl;
}

signals-counter_example :
    ((signals small_counter 7 (record { errno = 4; counter = 0 })).errno ≡ 4)
    × ((signals small_counter 7 (record { errno = 4; counter = 0 })).counter ≡ min 5 (0 + 7))
signals-counter_example =
    signals-counter small_counter 5 7 (record { errno = 4; counter = 0 }) small_counter-WritesCount
      (omega arith)
