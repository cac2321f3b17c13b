-- ===== src/StaticFiles/Root.antt =====
-- `is_within_root` and the checks of `fd_is_within_root` of static_files.c.
use c_http_server.Prelude.{
  ℕ, zero, suc, ◌-◌, Bool, true, false, not, ◌&&◌, Option, none, some, [], ◌∷◌, Bytes, leb, ◌==◌,
  if◌then◌else◌, length, get_or,
}
use c_http_server.StaticFiles.{path_max}
use c_http_server.StaticFiles.Join.{is_slash}

-- `strncmp(a, b, n) == 0`, where the end of a list is the NUL.
unfoldable pub strncmp_is_zero : ℕ → Bytes → Bytes → Bool
strncmp_is_zero zero a b = true
strncmp_is_zero (suc n) [] [] = true
strncmp_is_zero (suc n) (x ∷ a) (y ∷ b) = x == y && strncmp_is_zero n a b
strncmp_is_zero (suc n) a b = false

unfoldable pub is_within_root : Bytes → Bytes → Bool
is_within_root g_root canonical =
    if not (strncmp_is_zero (length g_root) canonical g_root)
    then false
    else if is_slash g_root
    then not (get_or canonical 1 0 == 0)
    else get_or canonical (length g_root) 0 == b'/'

-- On what `readlink` stored for the descriptor; `none` is a negative return.
unfoldable pub fd_is_within_root : Bytes → Option Bytes → Bool
fd_is_within_root g_root none = false
fd_is_within_root g_root (some canonical) =
    if leb (path_max - 1) (length canonical) then false else is_within_root g_root canonical
