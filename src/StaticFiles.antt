-- ===== src/StaticFiles.antt =====
-- The types of src/static_files.h and the answers of the path resolution in src/static_files.c.
-- A C string is the list of its bytes before the NUL. The document root `g_root`, whose length is
-- `g_root_len`, is an argument of the functions that read it.
pub mod Decode
pub mod Join
pub mod Root
pub mod ContentType
pub mod Descriptors
pub mod Open
pub mod Escapes
pub mod Encodes
pub mod Pieces
pub mod Segments
pub mod Confined
pub mod Serves
pub mod Extensions
mod Tests
use c_http_server.Prelude.{ℕ, Bytes, Option}

-- `PATH_MAX` of Linux, the size of `g_root` and of every working buffer.
abbrev pub path_max : ℕ
path_max = 4096

-- `resolve_result_t`, with the string left in `out` where it is `RESOLVE_OK`.
pub data ResolveResult : Type 0 where
  resolve_ok : Bytes → ResolveResult
  resolve_illegal : ResolveResult
  resolve_too_long : ResolveResult

pub data StaticFileResult : Type 0 where
  static_file_ok static_file_not_found static_file_invalid_path : StaticFileResult

-- `fd` is `none` for -1, and `content_type` for `NULL`.
pub record StaticFile : Type 0 where
  pub fd : Option ℕ
  pub size : ℕ
  pub content_type : Option Bytes
