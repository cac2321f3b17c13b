-- ===== src/Main/Exits.antt =====
-- How the process of main.c exits.
use c_http_server.Prelude.{ℕ, true, Option, none, some, Bytes, ◌≡◌}
use c_http_server.StaticFiles.Descriptors.{Descriptors}
use c_http_server.StaticFiles.Open.{static_files_init}
use c_http_server.WorkerPool.Serving.{SomeServes}
use c_http_server.Main.{MainCalls, public_root_or_default, pool_workers}

-- Every call before the pool succeeds, the root resolves to a directory, and one of the workers of
-- the pool serves.
pub record Succeeds (calls : MainCalls) : Type 0 where
  pub sigpipe : calls.sigpipe_ok ≡ true
  pub g_root : Bytes
  pub root : static_files_init calls.kernel (public_root_or_default calls.answer_root) ≡ some g_root
  pub g_shutdown_fd : ℕ
  pub eventfd : calls.answer_eventfd ≡ some g_shutdown_fd
  pub sigint : calls.sigint_ok ≡ true
  pub sigterm : calls.sigterm_ok ≡ true
  pub calloc : calls.calloc_ok ≡ true
  pub served : SomeServes (pool_workers calls g_shutdown_fd)

abbrev some_is : Option ℕ → ℕ
some_is none = 0
some_is (some fd) = fd
