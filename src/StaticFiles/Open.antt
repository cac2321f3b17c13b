-- ===== src/StaticFiles/Open.antt =====
-- `static_files_init`, `static_file_open` and `static_file_close` of static_files.c.
use c_http_server.Prelude.{
  ℕ, ◌-◌, Bool, not, Option, none, some, Bytes, leb, ◌==◌, if◌then◌else◌, length, get_or,
}
use c_http_server.StaticFiles.{
  path_max, resolve_ok, resolve_illegal, resolve_too_long, StaticFileResult, static_file_ok,
  static_file_not_found, static_file_invalid_path, StaticFile,
}
use c_http_server.StaticFiles.Descriptors.{Descriptors, holding, close}
use c_http_server.StaticFiles.Decode.{decode_path}
use c_http_server.StaticFiles.Join.{join_under_root}
use c_http_server.StaticFiles.Root.{fd_is_within_root}
use c_http_server.StaticFiles.ContentType.{content_type_for}

-- `S_ISREG`, `S_ISDIR` and `st_size` of a `struct stat`.
pub record Stat : Type 0 where
  pub is_reg : Bool
  pub is_dir : Bool
  pub st_size : ℕ

-- What the system calls answer; `none` is an error.
pub record Kernel : Type 0 where
  pub answer_open : Bytes → Option ℕ
  pub answer_readlink : ℕ → Option Bytes
  pub answer_fstat : ℕ → Option Stat
  pub answer_realpath : Bytes → Option Bytes
  pub answer_stat : Bytes → Option Stat

-- What `*out` holds on entry: no descriptor.
abbrev pub no_file : StaticFile
no_file = record { fd = none; size = 0; content_type = none }

-- The returned value, `*out` and the descriptors after the call.
pub record Opened : Type 0 where
  pub result : StaticFileResult
  pub file : StaticFile
  pub descriptors : Descriptors

abbrev pub refused : StaticFileResult → Descriptors → Opened
refused r ds = record { result = r; file = no_file; descriptors = ds }

-- Behind a successful `open`.
unfoldable pub check_open_file : Kernel → Bytes → Bytes → ℕ → Descriptors → Opened
check_open_file k g_root fs_path fd ds =
    if not (fd_is_within_root g_root (k.answer_readlink fd))
    then refused static_file_not_found (close fd ds)
    else elim (k.answer_fstat fd) [
      | none ↦ refused static_file_not_found (close fd ds)
      | some st ↦ if not st.is_reg then refused static_file_not_found (close fd ds) else record {
        result = static_file_ok;
        file = record {
          fd = some fd;
          size = st.st_size;
          content_type = some (content_type_for fs_path);
        };
        descriptors = ds;
      }
    ]

-- Behind the two resolutions.
unfoldable pub open_resolved : Kernel → Bytes → Bytes → Bytes → Descriptors → Opened
open_resolved k g_root decoded fs_path ds =
    if get_or decoded (length decoded - 1) 0 == b'/'
    then refused static_file_not_found ds
    else elim (k.answer_open fs_path) [
      | none ↦ refused static_file_not_found ds
      | some fd ↦ check_open_file k g_root fs_path fd (holding fd ds)
    ]

unfoldable pub static_file_open : Kernel → Bytes → Bytes → Descriptors → Opened
static_file_open k g_root path ds =
    if length g_root == 0
    then refused static_file_not_found ds
    else elim (decode_path path path_max) [
      | resolve_illegal ↦ refused static_file_invalid_path ds
      | resolve_too_long ↦ refused static_file_not_found ds
      | resolve_ok decoded ↦ elim (join_under_root g_root decoded path_max) [
        | resolve_illegal ↦ refused static_file_invalid_path ds
        | resolve_too_long ↦ refused static_file_not_found ds
        | resolve_ok fs_path ↦ open_resolved k g_root decoded fs_path ds
      ]
    ]

unfoldable pub static_file_close : StaticFile → Descriptors → StaticFile × Descriptors
unfolding close
static_file_close file ds = elim (file.fd) [
  | none ↦ (file, ds)
  | some fd ↦ (record file { fd = none }, close fd ds)
]

-- The new `g_root`, or `none` for -1, which leaves the old one.
unfoldable pub static_files_init : Kernel → Bytes → Option Bytes
static_files_init k root = elim (k.answer_realpath root) [
  | none ↦ none
  | some resolved ↦ elim (k.answer_stat resolved) [
    | none ↦ none
    | some st ↦
        if not st.is_dir
        then none
        else if leb path_max (length resolved)
        then none
        else some resolved
  ]
]
