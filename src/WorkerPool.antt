-- ===== src/WorkerPool.antt =====
-- src/worker_pool.c and the idle timeout of src/main.c.
pub mod Count
pub mod Run
pub mod Settings
pub mod Serving
mod Tests
use c_http_server.Prelude.{ℕ}

abbrev pub max_workers : ℕ
max_workers = 64

abbrev pub default_idle_timeout_seconds : ℕ
default_idle_timeout_seconds = 30
