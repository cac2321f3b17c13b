-- ===== src/StaticFiles/ContentType.antt =====
-- `content_type_for` of static_files.c.
use c_http_server.Prelude.{
  ℕ, Bool, true, false, ◌&&◌, Option, none, some, List, [], ◌∷◌, Bytes, codes, ◌==◌, if◌then◌else◌,
  to_lower,
}

-- `strrchr`: the string from the last `c` on.
unfoldable pub strrchr : ℕ → Bytes → Option Bytes
strrchr c [] = none
strrchr c (x ∷ xs) = elim (strrchr c xs) [
  | some later ↦ some later
  | none ↦ if x == c then some (x ∷ xs) else none
]

-- `strcasecmp(a, b) == 0`.
unfoldable pub strcasecmp_is_zero : Bytes → Bytes → Bool
unfolding to_lower
strcasecmp_is_zero [] [] = true
strcasecmp_is_zero (x ∷ a) (y ∷ b) = to_lower x == to_lower y && strcasecmp_is_zero a b
strcasecmp_is_zero a b = false

abbrev pub table : List (Bytes × Bytes)
table =
    (codes ".html", codes "text/html; charset=utf-8")
    ∷ (codes ".htm", codes "text/html; charset=utf-8")
    ∷ (codes ".txt", codes "text/plain; charset=utf-8")
    ∷ (codes ".css", codes "text/css; charset=utf-8")
    ∷ (codes ".js", codes "text/javascript; charset=utf-8")
    ∷ (codes ".json", codes "application/json")
    ∷ (codes ".svg", codes "image/svg+xml")
    ∷ (codes ".png", codes "image/png")
    ∷ (codes ".jpg", codes "image/jpeg")
    ∷ (codes ".jpeg", codes "image/jpeg")
    ∷ (codes ".gif", codes "image/gif")
    ∷ (codes ".ico", codes "image/vnd.microsoft.icon")
    ∷ []

abbrev pub octet_stream : Bytes
octet_stream = codes "application/octet-stream"

-- The loop over the rest of the table.
unfoldable pub type_in : List (Bytes × Bytes) → Bytes → Bytes
unfolding strcasecmp_is_zero
type_in [] dot = octet_stream
type_in ((ext, type) ∷ rest) dot = if strcasecmp_is_zero dot ext then type else type_in rest dot

abbrev pub behind_slash : Bytes → Bytes
behind_slash [] = []
behind_slash (c ∷ cs) = cs

-- `name`: what stands behind the last slash.
unfoldable pub base_name : Bytes → Bytes
unfolding strrchr
base_name fs_path = elim (strrchr b'/' fs_path) [ some slash ↦ behind_slash slash | none ↦ fs_path ]

unfoldable pub content_type_for : Bytes → Bytes
unfolding base_name type_in
content_type_for fs_path = elim (strrchr b'.' (base_name fs_path)) [
  | some dot ↦ type_in table dot
  | none ↦ octet_stream
]
