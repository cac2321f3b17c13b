-- ===== src/StaticFiles/Segments.antt =====
-- `join_under_root` of static_files.c against the segments of the decoded path.
use c_http_server.Prelude.{
  ℕ, ◌+◌, ◌<◌, true, false, ◌↔◌, List, [], ◌∷◌, ◌++◌, Bytes, leb, ◌==◌, ◌≡◌, refl, ◌∙◌, sym, ap,
  arith, if◌then◌else◌, length, length-append, append-nil, append_assoc,
}
use c_http_server.StaticFiles.{
  path_max, ResolveResult, resolve_ok, resolve_illegal, resolve_too_long,
}
use c_http_server.StaticFiles.Join.{root_prefix, finish_join, join_under_root}
use c_http_server.StaticFiles.Pieces.{
  segments, names, slashed, climbs, append_segments, join_loop-append_segments,
}

module _ (size : ℕ) where
  -- The names fit: the loop appends each behind a slash.
  append_segments-ok :
      (ss : List Bytes) (out : Bytes)
      → climbs ss ≡ false
      → length out + length (slashed (names ss)) < size
      → append_segments size ss out ≡ resolve_ok (out ++ slashed (names ss))
  unfolding append_segments climbs names slashed
  append_segments-ok [] out c f = rw append-nil
  append_segments-ok (s ∷ ss) out c f = ground (
    arith,
    append_segments-ok ss out,
    append_segments-ok ss (out ++ (b'/' ∷ s)),
    append_assoc out (b'/' ∷ s) (slashed (names ss)),
    length-append out (b'/' ∷ s),
    length-append s (slashed (names ss)),
  )

  append_segments-inv :
      (ss : List Bytes) (out r : Bytes)
      → length out < size
      → append_segments size ss out ≡ resolve_ok r
      → (climbs ss ≡ false)
        × (r ≡ out ++ slashed (names ss))
        × (length out + length (slashed (names ss)) < size)
  unfolding append_segments climbs names slashed
  append_segments-inv [] out r f h = ground (arith, append-nil out)
  append_segments-inv (s ∷ ss) out r f h = ground (
    arith,
    append_segments-inv ss out r,
    append_segments-inv ss (out ++ (b'/' ∷ s)) r,
    append_assoc out (b'/' ∷ s) (slashed (names ss)),
    length-append out (b'/' ∷ s),
    length-append s (slashed (names ss)),
  )

abbrev pub IsAbsolute : Bytes → Type 0
IsAbsolute [] = ⊥
IsAbsolute (c ∷ cs) = c ≡ b'/'

-- The names below the document root; the filesystem root itself is "/".
pub below : Bytes → List Bytes → Bytes
below g_root ns =
    let path = root_prefix g_root ++ slashed ns in if length path == 0 then b'/' ∷ [] else path

-- A decoded path that is absolute and climbs nowhere, with room for its names below the root.
pub record Joins (g_root decoded out : Bytes) : Type 0 where
  pub is_absolute : IsAbsolute decoded
  pub no_climb : climbs (segments decoded) ≡ false
  pub fits : length (root_prefix g_root) + length (slashed (names (segments decoded))) < path_max
  pub joined : out ≡ below g_root (names (segments decoded))

finish_join-ok :
    (r : ResolveResult) (out : Bytes)
    → finish_join r ≡ resolve_ok out
    → (o : Bytes) × (r ≡ resolve_ok o) × (out ≡ (if length o == 0 then b'/' ∷ [] else o))
finish_join-ok (resolve_ok o) out h = (o, refl, ground arith)
finish_join-ok resolve_illegal out h = cc
finish_join-ok resolve_too_long out h = cc

-- The call on an absolute path.
join_absolute :
    (g_root : Bytes) (c : ℕ) (cs : Bytes)
    → c ≡ b'/'
    → length (root_prefix g_root) < path_max
    → join_under_root g_root (c ∷ cs) path_max
      ≡ finish_join (append_segments path_max (segments (c ∷ cs)) (root_prefix g_root))
unfolding join_under_root
join_absolute g_root c cs e f =
    let absolute : (c == b'/') ≡ true = ground arith in
    let room : leb path_max (length (root_prefix g_root)) ≡ false = ground arith in
    let filled : (length (c ∷ cs) == 0) ≡ false = ground arith in
    rw (filled, absolute, room)
      (ap finish_join (
        join_loop-append_segments path_max (length (c ∷ cs)) (c ∷ cs) (root_prefix g_root)
          (omega arith)))

join-starts :
    (g_root decoded out : Bytes)
    → join_under_root g_root decoded path_max ≡ resolve_ok out
    → IsAbsolute decoded × (length (root_prefix g_root) < path_max)
unfolding join_under_root
join-starts g_root [] out h = cc
join-starts g_root (c ∷ cs) out h = ground arith

Joins-of_ok :
    (g_root decoded out : Bytes)
    → join_under_root g_root decoded path_max ≡ resolve_ok out
    → Joins g_root decoded out
unfolding below
Joins-of_ok g_root [] out h = absurd (join-starts g_root [] out h).0
Joins-of_ok g_root (c ∷ cs) out h =
    let (e, f) = join-starts g_root (c ∷ cs) out h in
    let (o, run, same) =
      finish_join-ok (append_segments path_max (segments (c ∷ cs)) (root_prefix g_root)) out
        (sym (join_absolute g_root c cs e f) ∙ h) in
    let (flat, made, fits) =
      append_segments-inv path_max (segments (c ∷ cs)) (root_prefix g_root) o f run in
    record { is_absolute = e; no_climb = flat; fits = fits; joined = same ∙ rw made }

ok_of_Joins :
    (g_root decoded out : Bytes)
    → Joins g_root decoded out
    → join_under_root g_root decoded path_max ≡ resolve_ok out
unfolding below
ok_of_Joins g_root [] out j = absurd j.is_absolute
ok_of_Joins g_root (c ∷ cs) out j =
    join_absolute g_root c cs j.is_absolute (omega (arith, j.fits))
    ∙ ap finish_join
        (append_segments-ok path_max (segments (c ∷ cs)) (root_prefix g_root) j.no_climb j.fits)
    ∙ ap resolve_ok (sym j.joined)

-- The join succeeds exactly for an absolute path with no ".." segment whose names, each behind one
-- slash, fit below the root with the NUL; the result is the root followed by them, where "." and
-- empty segments are left out, or "/" if that is nothing.
pub join_under_root-Joins :
    (g_root decoded out : Bytes)
    → (join_under_root g_root decoded path_max ≡ resolve_ok out) ↔ Joins g_root decoded out
join_under_root-Joins g_root decoded out =
    (Joins-of_ok g_root decoded out, ok_of_Joins g_root decoded out)
