-- ===== src/StaticFiles/Serves.antt =====
-- What `static_file_open` of static_files.c hands out, and what it leaves behind.
use c_http_server.Prelude.{
  ℕ, ◌-◌, ◌<◌, Bool-cases, true, false, ◌⊎◌, inl, inr, Option, none, some, Option-cases, Bytes,
  ◌==◌, ◌≡◌, ◌≢◌, refl, ap, arith, length, get_or,
}
use c_http_server.StaticFiles.{
  path_max, ResolveResult, resolve_ok, resolve_illegal, resolve_too_long, static_file_ok,
}
use c_http_server.StaticFiles.Decode.{decode_path}
use c_http_server.StaticFiles.Join.{join_under_root}
use c_http_server.StaticFiles.Root.{is_within_root, fd_is_within_root}
use c_http_server.StaticFiles.ContentType.{content_type_for}
use c_http_server.StaticFiles.Descriptors.{Descriptors, holding, close-holding}
use c_http_server.StaticFiles.Open.{
  Stat, Kernel, no_file, Opened, check_open_file, open_resolved, static_file_open,
}
use c_http_server.StaticFiles.Encodes.{Encodes, Encodes-unique, decode_path-Encodes}
use c_http_server.StaticFiles.Pieces.{segments, climbs}
use c_http_server.StaticFiles.Segments.{Joins, join_under_root-Joins}

-- The file that `o` hands out for `path`.
pub record Serves (k : Kernel) (g_root path : Bytes) (ds : Descriptors) (o : Opened) : Type 0 where
  pub decoded : Bytes
  pub encodes : Encodes path decoded
  pub fs_path : Bytes
  pub joins : Joins g_root decoded fs_path
  pub no_slash : (get_or decoded (length decoded - 1) 0 == b'/') ≡ false
  pub fd : ℕ
  pub opened : k.answer_open fs_path ≡ some fd
  pub canonical : Bytes
  pub linked : k.answer_readlink fd ≡ some canonical
  pub whole : length canonical < path_max - 1
  pub within : is_within_root g_root canonical ≡ true
  pub st : Stat
  pub described : k.answer_fstat fd ≡ some st
  pub regular : st.is_reg ≡ true
  pub ok : o.result ≡ static_file_ok
  pub handed :
      o.file
      ≡ record { fd = some fd; size = st.st_size; content_type = some (content_type_for fs_path) }
  pub held : o.descriptors ≡ holding fd ds

-- A refusal has no file and leaves the descriptors as they were.
abbrev pub Refuses : Descriptors → Opened → Type 0
Refuses ds o = (o.result ≢ static_file_ok) × (o.file ≡ no_file) × (o.descriptors ≡ ds)

module _ (k : Kernel) (g_root fs_path : Bytes) (fd : ℕ) (ds : Descriptors) where
  -- The open file that passes the checks.
  record Checked (o : Opened) : Type 0 where
    canonical : Bytes
    linked : k.answer_readlink fd ≡ some canonical
    whole : length canonical < path_max - 1
    within : is_within_root g_root canonical ≡ true
    st : Stat
    described : k.answer_fstat fd ≡ some st
    regular : st.is_reg ≡ true
    ok : o.result ≡ static_file_ok
    handed :
        o.file
        ≡ record { fd = some fd; size = st.st_size; content_type = some (content_type_for fs_path) }
    held : o.descriptors ≡ holding fd ds

  fd_is_within_root-true :
      (link : Option Bytes)
      → fd_is_within_root g_root link ≡ true
      → (canonical : Bytes) × (link ≡ some canonical)
        × (length canonical < path_max - 1)
        × (is_within_root g_root canonical ≡ true)
  unfolding fd_is_within_root
  fd_is_within_root-true none h = cc
  fd_is_within_root-true (some c) h = (c, refl, ground arith, ground arith)

  check_open_file-cases :
      Refuses ds (check_open_file k g_root fs_path fd (holding fd ds))
      ⊎ Checked (check_open_file k g_root fs_path fd (holding fd ds))
  unfolding check_open_file
  check_open_file-cases = elim (Bool-cases (fd_is_within_root g_root (k.answer_readlink fd))) [
    | inr outside ↦ inl (simp (outside, close-holding) ((λ e. cc), refl, refl))
    | inl inside ↦ elim (Option-cases (k.answer_fstat fd)) [
      | inl failed ↦ inl (simp (inside, failed, close-holding) ((λ e. cc), refl, refl))
      | inr (st, described) ↦ elim (Bool-cases st.is_reg) [
        | inr special ↦
            inl (simp (inside, described, special, close-holding) ((λ e. cc), refl, refl))
        | inl regular ↦
            let (canonical, linked, whole, within) =
              fd_is_within_root-true (k.answer_readlink fd) inside in
            inr (
              simp (inside, described, regular)
                (record {
                  canonical = canonical;
                  linked = linked;
                  whole = whole;
                  within = within;
                  st = st;
                  described = described;
                  regular = regular;
                  ok = refl;
                  handed = refl;
                  held = refl;
                }))
      ]
    ]
  ]

-- Whether a resolution gave a string, and which.
pub ResolveResult-cases :
    (r : ResolveResult)
    → ((s : Bytes) × (r ≡ resolve_ok s)) ⊎ ((r ≡ resolve_illegal) ⊎ (r ≡ resolve_too_long))
ResolveResult-cases (resolve_ok s) = inl (s, refl)
ResolveResult-cases resolve_illegal = inr (inl refl)
ResolveResult-cases resolve_too_long = inr (inr refl)

module _ (k : Kernel) (g_root path : Bytes) (ds : Descriptors) where
  open_resolved-cases :
      (decoded fs_path : Bytes)
      → Encodes path decoded
      → Joins g_root decoded fs_path
      → Refuses ds (open_resolved k g_root decoded fs_path ds)
        ⊎ Serves k g_root path ds (open_resolved k g_root decoded fs_path ds)
  unfolding open_resolved
  open_resolved-cases decoded fs_path enc joins =
      elim (Bool-cases (get_or decoded (length decoded - 1) 0 == b'/')) [
        | inl slash ↦ inl (simp slash ((λ e. cc), refl, refl))
        | inr name ↦ elim (Option-cases (k.answer_open fs_path)) [
          | inl failed ↦ inl (simp (name, failed) ((λ e. cc), refl, refl))
          | inr (fd, opened) ↦ elim (check_open_file-cases k g_root fs_path fd ds) [
            | inl r ↦ inl (simp (name, opened) r)
            | inr c ↦ inr (
                simp (name, opened)
                  (record {
                    decoded = decoded;
                    encodes = enc;
                    fs_path = fs_path;
                    joins = joins;
                    no_slash = name;
                    fd = fd;
                    opened = opened;
                    canonical = c.canonical;
                    linked = c.linked;
                    whole = c.whole;
                    within = c.within;
                    st = c.st;
                    described = c.described;
                    regular = c.regular;
                    ok = c.ok;
                    handed = c.handed;
                    held = c.held;
                  }))
          ]
        ]
      ]

  static_file_open-cases :
      Refuses ds (static_file_open k g_root path ds)
      ⊎ Serves k g_root path ds (static_file_open k g_root path ds)
  unfolding static_file_open
  static_file_open-cases = elim (Bool-cases (length g_root == 0)) [
    | inl unset ↦ inl (simp unset ((λ e. cc), refl, refl))
    | inr set ↦ elim (ResolveResult-cases (decode_path path path_max)) [
      | inr (inl e) ↦ inl (simp (set, e) ((λ f. cc), refl, refl))
      | inr (inr e) ↦ inl (simp (set, e) ((λ f. cc), refl, refl))
      | inl (decoded, e) ↦ elim (ResolveResult-cases (join_under_root g_root decoded path_max)) [
        | inr (inl f) ↦ inl (simp (set, e, f) ((λ g. cc), refl, refl))
        | inr (inr f) ↦ inl (simp (set, e, f) ((λ g. cc), refl, refl))
        | inl (fs_path, f) ↦
            simp (set, e, f)
              (open_resolved-cases decoded fs_path ((decode_path-Encodes path decoded).0 e).0
                ((join_under_root-Joins g_root decoded fs_path).0 f))
      ]
    ]
  ]

-- A lookup either refuses, with no file and the descriptors as they were, so nothing leaks on any
-- error path; or it hands out one new descriptor: of a regular file that the kernel opened at the
-- root followed by the names of the decoded path, which has no ".." segment and no slash at its
-- end, with the size that `fstat` gave and the content type of the joined path, and whose canonical
-- path, as the kernel names it, passes `is_within_root`.
pub static_file_open-Serves :
    (k : Kernel) (g_root path : Bytes) (ds : Descriptors)
    → (((static_file_open k g_root path ds).result ≢ static_file_ok)
        × ((static_file_open k g_root path ds).file ≡ no_file)
        × ((static_file_open k g_root path ds).descriptors ≡ ds))
      ⊎ Serves k g_root path ds (static_file_open k g_root path ds)
static_file_open-Serves k g_root path ds = static_file_open-cases k g_root path ds

-- A path that decodes to one with a ".." segment is refused by every kernel alike, with no
-- descriptor: the file system is not asked.
pub static_file_open-climbs :
    (k k' : Kernel) (g_root path decoded : Bytes) (ds : Descriptors)
    → Encodes path decoded
    → climbs (segments decoded) ≡ true
    → (static_file_open k g_root path ds ≡ static_file_open k' g_root path ds)
      × ((static_file_open k g_root path ds).result ≢ static_file_ok)
unfolding static_file_open
static_file_open-climbs k k' g_root path decoded ds enc h = elim (Bool-cases (length g_root == 0)) [
  | inl unset ↦ simp unset (refl, λ e. cc)
  | inr set ↦ elim (ResolveResult-cases (decode_path path path_max)) [
    | inr (inl e) ↦ simp (set, e) (refl, λ f. cc)
    | inr (inr e) ↦ simp (set, e) (refl, λ f. cc)
    | inl (d, e) ↦
        let same : d ≡ decoded =
          Encodes-unique path d decoded ((decode_path-Encodes path d).0 e).0 enc in
        elim (ResolveResult-cases (join_under_root g_root d path_max)) [
          | inr (inl f) ↦ simp (set, e, f) (refl, λ g. cc)
          | inr (inr f) ↦ simp (set, e, f) (refl, λ g. cc)
          | inl (fs_path, f) ↦
              let flat = ((join_under_root-Joins g_root d fs_path).0 f).no_climb in
              absurd (cc (ap (λ s. climbs (segments s)) same))
        ]
  ]
]
