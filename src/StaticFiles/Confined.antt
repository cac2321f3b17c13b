-- ===== src/StaticFiles/Confined.antt =====
-- `is_within_root` of static_files.c as containment of paths.
use c_http_server.Prelude.{
  Bool-cases, true, false, ◌↔◌, inl, inr, [], ◌∷◌, ◌++◌, Bytes, NoNul, ◌==◌, ◌≡◌, ◌≢◌, refl, ◌∙◌,
  arith, length, get_or, ==_iff,
}
use c_http_server.StaticFiles.Join.{is_slash, root_prefix}
use c_http_server.StaticFiles.Root.{strncmp_is_zero, is_within_root}

-- `canonical` is a path strictly below the root: the root, a slash and more, with no second slash
-- for the filesystem root.
pub record IsBelow (g_root canonical : Bytes) : Type 0 where
  pub inside : Bytes
  pub splits : canonical ≡ root_prefix g_root ++ (b'/' ∷ inside)
  pub something : is_slash g_root ≡ true → inside ≢ []

strncmp-prefix :
    (c root : Bytes)
    → strncmp_is_zero (length root) c root ≡ true
    → (rest : Bytes) × (c ≡ root ++ rest)
unfolding strncmp_is_zero
strncmp-prefix c [] h = (c, refl)
strncmp-prefix [] (y ∷ root) h = cc
strncmp-prefix (x ∷ c) (y ∷ root) h =
    let same : strncmp_is_zero (length root) c root ≡ true = ground arith in
    let first : x ≡ y = ground arith in
    let (rest, e) = strncmp-prefix c root same in (rest, rw (first, e))

strncmp_append : (root rest : Bytes) → strncmp_is_zero (length root) (root ++ rest) root ≡ true
unfolding strncmp_is_zero
strncmp_append [] rest = refl
strncmp_append (y ∷ root) rest = ground (arith, strncmp_append root rest)

get_or-append : (root rest : Bytes) → get_or (root ++ rest) (length root) 0 ≡ get_or rest 0 0
get_or-append [] rest = refl
get_or-append (y ∷ root) rest = get_or-append root rest

root_of_slash : (g_root : Bytes) → is_slash g_root ≡ true → g_root ≡ b'/' ∷ []
root_of_slash [] h = cc
root_of_slash (c ∷ []) h = ground arith
root_of_slash (c ∷ d ∷ cs) h = ground arith

first_slash : (rest : Bytes) → (get_or rest 0 0 == b'/') ≡ true → (r : Bytes) × (rest ≡ b'/' ∷ r)
first_slash [] h = cc
first_slash (c ∷ cs) h = (cs, rw ((==_iff c b'/').0 h))

within_slash :
    (canonical : Bytes)
    → is_within_root (b'/' ∷ []) canonical ≡ true
    → IsBelow (b'/' ∷ []) canonical
unfolding is_within_root strncmp_is_zero
within_slash [] h = cc
within_slash (x ∷ []) h = ground arith
within_slash (x ∷ y ∷ cs) h = record {
  inside = y ∷ cs;
  splits = ground arith;
  something = λ s e. cc;
}

slash_within :
    (canonical : Bytes)
    → NoNul canonical
    → IsBelow (b'/' ∷ []) canonical
    → is_within_root (b'/' ∷ []) canonical ≡ true
unfolding is_within_root strncmp_is_zero
slash_within [] n b = let e = b.splits in cc
slash_within (x ∷ []) n b = let e = b.splits in absurd (b.something refl (ground arith))
slash_within (x ∷ y ∷ cs) n b = let e = b.splits in ground arith

within_directory :
    (g_root canonical : Bytes)
    → is_slash g_root ≡ false
    → is_within_root g_root canonical ≡ true
    → IsBelow g_root canonical
unfolding is_within_root
within_directory g_root canonical d h =
    let starts : strncmp_is_zero (length g_root) canonical g_root ≡ true = ground arith in
    let (rest, e) = strncmp-prefix canonical g_root starts in
    let behind : (get_or canonical (length g_root) 0 == b'/') ≡ true = ground arith in
    let (inside, f) = first_slash rest (rw (e, get_or-append g_root rest) at behind) in
    record { inside = inside; splits = rw d (e ∙ rw f); something = λ s i. cc }

directory_within :
    (g_root canonical : Bytes)
    → is_slash g_root ≡ false
    → IsBelow g_root canonical
    → is_within_root g_root canonical ≡ true
unfolding is_within_root
directory_within g_root canonical d b =
    let e : canonical ≡ g_root ++ (b'/' ∷ b.inside) = b.splits ∙ rw d in
    rw (e, strncmp_append g_root (b'/' ∷ b.inside), d, get_or-append g_root (b'/' ∷ b.inside))

-- The test on a canonical path holds exactly for the paths strictly below the root: a name that
-- only begins like the root does not pass, nor does the root itself.
pub is_within_root-IsBelow :
    (g_root canonical : Bytes)
    → NoNul canonical
    → (is_within_root g_root canonical ≡ true) ↔ IsBelow g_root canonical
is_within_root-IsBelow g_root canonical n = elim (Bool-cases (is_slash g_root)) [
  | inl s ↦ rw (root_of_slash g_root s) (within_slash canonical, slash_within canonical n)
  | inr d ↦ (within_directory g_root canonical d, directory_within g_root canonical d)
]
