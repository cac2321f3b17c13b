-- ===== src/StaticFiles/Join.antt =====
-- `join_under_root` of static_files.c.
use c_http_server.Prelude.{
  ℕ, zero, suc, ◌+◌, Bool, ◌&&◌, ◌||◌, not, [], ◌∷◌, ◌++◌, Bytes, leb, ◌==◌, if◌then◌else◌, length,
  get_or,
}
use c_http_server.StaticFiles.{ResolveResult, resolve_ok, resolve_illegal, resolve_too_long}

-- `g_root_len == 1 && g_root[0] == '/'`.
abbrev pub is_slash : Bytes → Bool
is_slash g_root = length g_root == 1 && get_or g_root 0 0 == b'/'

-- The first `out_len` bytes of the result: none of them for the filesystem root.
abbrev pub root_prefix : Bytes → Bytes
root_prefix g_root = if is_slash g_root then [] else g_root

-- The two inner loops: the separators, then the segment up to the next one.
unfoldable pub skip_slashes : Bytes → Bytes
skip_slashes [] = []
skip_slashes (c ∷ cs) = if c == b'/' then skip_slashes cs else c ∷ cs

unfoldable pub segment : Bytes → Bytes
segment [] = []
segment (c ∷ cs) = if not (c == b'/') then c ∷ segment cs else []

unfoldable pub after_segment : Bytes → Bytes
after_segment [] = []
after_segment (c ∷ cs) = if not (c == b'/') then after_segment cs else c ∷ cs

abbrev pub is_dot : Bytes → Bool
is_dot seg = length seg == 1 && get_or seg 0 0 == b'.'

abbrev pub is_dot_dot : Bytes → Bool
is_dot_dot seg = length seg == 2 && get_or seg 0 0 == b'.' && get_or seg 1 0 == b'.'

-- The outer loop on fuel. Every round takes at least one byte: see StaticFiles.Pieces.
unfoldable pub join_loop : ℕ → ℕ → Bytes → Bytes → ResolveResult
join_loop out_size zero decoded out = resolve_ok out
join_loop out_size (suc fuel) [] out = resolve_ok out
join_loop out_size (suc fuel) (d ∷ ds) out =
    let at = skip_slashes (d ∷ ds) in
    let seg = segment at in
    let next_round = join_loop out_size fuel (after_segment at) in
    if length seg == 0
    then resolve_ok out
    else if is_dot seg
    then next_round out
    else if is_dot_dot seg
    then resolve_illegal
    else if leb out_size (length out + 1 + length seg)
    then resolve_too_long
    else next_round (out ++ (b'/' ∷ seg))

-- The root itself is written as "/".
abbrev pub finish_join : ResolveResult → ResolveResult
finish_join (resolve_ok out) = resolve_ok (if length out == 0 then b'/' ∷ [] else out)
finish_join r = r

unfoldable pub join_under_root : Bytes → Bytes → ℕ → ResolveResult
join_under_root g_root decoded out_size =
    if length decoded == 0 || not (get_or decoded 0 0 == b'/')
    then resolve_illegal
    else if leb out_size (length (root_prefix g_root))
    then resolve_too_long
    else finish_join (join_loop out_size (length decoded) decoded (root_prefix g_root))
