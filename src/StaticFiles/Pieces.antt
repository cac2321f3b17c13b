-- ===== src/StaticFiles/Pieces.antt =====
-- The loop of `join_under_root` of static_files.c, one segment at a time.
use c_http_server.Prelude.{
  ℕ, zero, suc, ◌+◌, ◌≤◌, ◌<◌, Bool, Bool-cases, true, false, ◌||◌, inl, inr, List, [], ◌∷◌, ◌++◌,
  Bytes, leb, ◌==◌, ◌≡◌, refl, ◌∙◌, sym, arith, if◌then◌else◌, length, ==_iff,
}
use c_http_server.StaticFiles.{ResolveResult, resolve_ok, resolve_illegal, resolve_too_long}
use c_http_server.StaticFiles.Join.{
  skip_slashes, segment, after_segment, is_dot, is_dot_dot, join_loop,
}

abbrev onto_first : ℕ → List Bytes → List Bytes
onto_first c [] = (c ∷ []) ∷ []
onto_first c (s ∷ ss) = (c ∷ s) ∷ ss

-- The pieces of a path between its slashes, empty ones included.
unfoldable pub segments : Bytes → List Bytes
segments [] = [] ∷ []
segments (c ∷ cs) = if c == b'/' then [] ∷ segments cs else onto_first c (segments cs)

-- The segments that name something: all but the empty ones and ".".
unfoldable pub names : List Bytes → List Bytes
names [] = []
names (s ∷ ss) = if length s == 0 || is_dot s then names ss else s ∷ names ss

-- Each name behind a slash.
unfoldable pub slashed : List Bytes → Bytes
slashed [] = []
slashed (s ∷ ss) = (b'/' ∷ s) ++ slashed ss

unfoldable pub climbs : List Bytes → Bool
climbs [] = false
climbs (s ∷ ss) = is_dot_dot s || climbs ss

-- The loop on the list of segments.
unfoldable pub append_segments : ℕ → List Bytes → Bytes → ResolveResult
append_segments size [] out = resolve_ok out
append_segments size (s ∷ ss) out =
    let rest = append_segments size ss in
    if length s == 0 || is_dot s
    then rest out
    else if is_dot_dot s
    then resolve_illegal
    else if leb size (length out + 1 + length s)
    then resolve_too_long
    else rest (out ++ (b'/' ∷ s))

abbrev later_segments : Bytes → List Bytes
later_segments [] = []
later_segments (c ∷ cs) = segments cs

segments-segment : (p : Bytes) → segments p ≡ segment p ∷ later_segments (after_segment p)
unfolding segments segment after_segment
segments-segment [] = refl
segments-segment (c ∷ cs) = elim (Bool-cases (c == b'/')) [
  | inl slash ↦ simp slash
  | inr other ↦ simp (other, segments-segment cs)
]

module _ (size : ℕ) (out : Bytes) where
  append_segments-skip :
      (p : Bytes)
      → append_segments size (segments p) out ≡ append_segments size (segments (skip_slashes p)) out
  unfolding append_segments segments skip_slashes
  append_segments-skip [] = refl
  append_segments-skip (c ∷ cs) = elim (Bool-cases (c == b'/')) [
    | inl slash ↦ simp slash (append_segments-skip cs)
    | inr other ↦ simp other
  ]

  append_segments-after :
      (p : Bytes)
      → append_segments size (later_segments (after_segment p)) out
        ≡ append_segments size (segments (after_segment p)) out
  unfolding append_segments segments after_segment
  append_segments-after [] = refl
  append_segments-after (c ∷ cs) = elim (Bool-cases (c == b'/')) [
    | inl slash ↦ simp slash
    | inr other ↦ simp other (append_segments-after cs)
  ]

skip_slashes-length : (p : Bytes) → length (skip_slashes p) ≤ length p
unfolding skip_slashes
skip_slashes-length [] = omega arith
skip_slashes-length (c ∷ cs) = ground (arith, skip_slashes-length cs)

after_segment-length : (p : Bytes) → length (after_segment p) + length (segment p) ≡ length p
unfolding after_segment segment
after_segment-length [] = omega arith
after_segment-length (c ∷ cs) = ground (arith, after_segment-length cs)

-- Only the end of the path has an empty segment behind the separators.
segment-skip : (p : Bytes) → length (segment (skip_slashes p)) ≡ 0 → skip_slashes p ≡ []
unfolding segment skip_slashes
segment-skip [] h = refl
segment-skip (c ∷ cs) h = ground (arith, segment-skip cs)

-- One round, on the segment behind the separators.
join_round :
    (size fuel : ℕ) (d : ℕ) (ds out : Bytes)
    → (length (segment (skip_slashes (d ∷ ds))) == 0) ≡ false
    → ((o : Bytes)
        → join_loop size fuel (after_segment (skip_slashes (d ∷ ds))) o
          ≡ append_segments size (segments (after_segment (skip_slashes (d ∷ ds)))) o)
    → join_loop size (suc fuel) (d ∷ ds) out
      ≡ append_segments size (segments (skip_slashes (d ∷ ds))) out
unfolding join_loop append_segments
join_round size fuel d ds out n rest =
    let at = skip_slashes (d ∷ ds) in
    let tail = λ (o : Bytes). rest o ∙ sym (append_segments-after size o at) in
    rw segments-segment (simp (n, tail out, tail (out ++ (b'/' ∷ segment at))))

-- The last round, on what is a trailing slash or nothing.
join_end :
    (size fuel d : ℕ) (ds out : Bytes)
    → (length (segment (skip_slashes (d ∷ ds))) == 0) ≡ true
    → join_loop size (suc fuel) (d ∷ ds) out ≡ append_segments size (segments (d ∷ ds)) out
unfolding join_loop
join_end size fuel d ds out empty =
    let p : Bytes = d ∷ ds in
    let gone = segment-skip p ((==_iff (length (segment (skip_slashes p))) 0).0 empty) in
    simp empty
      (sym (append_segments-skip size out p ∙ rw gone (unfold append_segments segments in refl)))

pub join_loop-append_segments :
    (size fuel : ℕ) (p out : Bytes)
    → length p ≤ fuel
    → join_loop size fuel p out ≡ append_segments size (segments p) out
join_loop-append_segments size zero [] out f = unfold join_loop append_segments segments in refl
join_loop-append_segments size zero (d ∷ ds) out f = absurd (omega arith)
join_loop-append_segments size (suc fuel) [] out f =
    unfold join_loop append_segments segments in refl
join_loop-append_segments size (suc fuel) (d ∷ ds) out f =
    let p : Bytes = d ∷ ds in
    let at = skip_slashes p in
    elim (Bool-cases (length (segment at) == 0)) [
      | inl empty ↦ join_end size fuel d ds out empty
      | inr n ↦
          let some_taken : 0 < length (segment at) = ground arith in
          join_round size fuel d ds out n (λ o.
            join_loop-append_segments size fuel (after_segment at) o
              (omega (arith, after_segment-length at, skip_slashes-length p)))
          ∙ sym (append_segments-skip size out p)
    ]
