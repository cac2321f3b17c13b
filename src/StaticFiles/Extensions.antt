-- ===== src/StaticFiles/Extensions.antt =====
-- Which part of a path `content_type_for` of static_files.c goes by.
use c_http_server.Prelude.{
  ℕ, true, false, none, some, List, [], ◌∷◌, ◌++◌, Bytes, map, ◌==◌, ◌≡◌, ◌≢◌, refl, sym, arith,
  to_lower,
}
use c_http_server.StaticFiles.ContentType.{
  strrchr, strcasecmp_is_zero, table, type_in, base_name, content_type_for,
}

-- A string without the byte `c`.
abbrev pub Lacks : ℕ → Bytes → Type 0
Lacks c [] = Unit
Lacks c (x ∷ xs) = (x ≢ c) × Lacks c xs

strrchr-Lacks : (c : ℕ) (xs : Bytes) → Lacks c xs → strrchr c xs ≡ none
unfolding strrchr
strrchr-Lacks c [] h = refl
strrchr-Lacks c (x ∷ xs) h =
    let other : x == c ≡ false = ground (arith, h.0) in simp (strrchr-Lacks c xs h.1, other) refl

strrchr-append : (c : ℕ) (xs ys : Bytes) → Lacks c ys → strrchr c (xs ++ (c ∷ ys)) ≡ some (c ∷ ys)
unfolding strrchr
strrchr-append c [] ys h =
    let this : c == c ≡ true = ground arith in simp (strrchr-Lacks c ys h, this) refl
strrchr-append c (x ∷ xs) ys h = simp (strrchr-append c xs ys h) refl

Lacks-append : (c : ℕ) (xs ys : Bytes) → Lacks c xs → Lacks c ys → Lacks c (xs ++ ys)
Lacks-append c [] ys h k = k
Lacks-append c (x ∷ xs) ys h k = (h.0, Lacks-append c xs ys h.1 k)

to_lower-to_lower : (c : ℕ) → to_lower (to_lower c) ≡ to_lower c
unfolding to_lower
to_lower-to_lower c = ground arith

strcasecmp-lower : (a b : Bytes) → strcasecmp_is_zero (map to_lower a) b ≡ strcasecmp_is_zero a b
unfolding strcasecmp_is_zero
strcasecmp-lower [] [] = refl
strcasecmp-lower [] (y ∷ b) = refl
strcasecmp-lower (x ∷ a) [] = refl
strcasecmp-lower (x ∷ a) (y ∷ b) = rw (to_lower-to_lower x, strcasecmp-lower a b) refl

type_in-lower :
    (rows : List (Bytes × Bytes)) (dot : Bytes) → type_in rows (map to_lower dot) ≡ type_in rows dot
unfolding type_in
type_in-lower [] dot = refl
type_in-lower ((ext, type) ∷ rest) dot = rw (strcasecmp-lower dot ext, type_in-lower rest dot) refl

-- A file's content type is the one that the table has for what stands behind the last dot of its
-- name, in lower case: no dot in the directories before the name counts, nor an earlier one in the
-- name, nor the case of the letters.
pub content_type_for-extension :
    (dir stem ext : Bytes)
    → Lacks b'/' stem
    → Lacks b'/' ext
    → Lacks b'.' ext
    → content_type_for (dir ++ (b'/' ∷ stem ++ (b'.' ∷ ext)))
      ≡ type_in table (map to_lower (b'.' ∷ ext))
unfolding content_type_for
content_type_for-extension dir stem ext no_slash no_slash_ext no_dot =
    let name : base_name (dir ++ (b'/' ∷ stem ++ (b'.' ∷ ext))) ≡ stem ++ (b'.' ∷ ext) =
      simp
        (
          strrchr-append b'/' dir (stem ++ (b'.' ∷ ext))
              (Lacks-append b'/' stem (b'.' ∷ ext) no_slash (ground arith, no_slash_ext)),
          base_name,
        )
        refl in
    simp (name, strrchr-append b'.' stem ext no_dot, content_type_for)
      (sym (type_in-lower table (b'.' ∷ ext)))
