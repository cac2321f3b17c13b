-- ===== src/EventLoop/Steady.antt =====
-- What event_loop.c answers to a request does not depend on which descriptors are open.
use c_http_server.Prelude.{
  ℕ, ◌-◌, Bool, Bool-cases, true, false, not, inl, inr, Option-cases, none, Bytes, length, get_or,
  ◌==◌, ◌≡◌, refl, sym, ◌∙◌, ap, codes, if◌then◌else◌,
}
use c_http_server.HttpParser.{HttpRequestParser, HttpMethod}
use c_http_server.StaticFiles.{
  path_max, static_file_ok, static_file_not_found, static_file_invalid_path, StaticFileResult,
  StaticFile,
}
use c_http_server.StaticFiles.Descriptors.{Descriptors, holding}
use c_http_server.StaticFiles.Decode.{decode_path}
use c_http_server.StaticFiles.Join.{join_under_root}
use c_http_server.StaticFiles.Root.{fd_is_within_root}
use c_http_server.StaticFiles.Open.{
  Kernel, Opened, check_open_file, open_resolved, static_file_open,
}
use c_http_server.StaticFiles.Serves.{ResolveResult-cases}
use c_http_server.EventLoop.{RoutedResponse}
use c_http_server.EventLoop.Routing.{
  path_is, is_get, bad_request, simple_response, route_opened, route_static_file, route_request,
}

abbrev found : Opened → StaticFileResult × StaticFile
found o = (o.result, o.file)

module _ (k : Kernel) (g_root : Bytes) (ds ds' : Descriptors) where
  check-found :
      (fs_path : Bytes) (fd : ℕ)
      → found (check_open_file k g_root fs_path fd ds)
        ≡ found (check_open_file k g_root fs_path fd ds')
  unfolding check_open_file
  check-found fs_path fd = elim (Bool-cases (fd_is_within_root g_root (k.answer_readlink fd))) [
    | inr out ↦ simp (out, check_open_file) refl
    | inl within ↦ elim (Option-cases (k.answer_fstat fd)) [
      | inl bad ↦ simp (within, bad, check_open_file) refl
      | inr (st, got) ↦ elim (Bool-cases st.is_reg) [
        | inl reg ↦ simp (within, got, reg, check_open_file) refl
        | inr other ↦ simp (within, got, other, check_open_file) refl
      ]
    ]
  ]

module _ (k : Kernel) (g_root : Bytes) (ds ds' : Descriptors) where
  resolved-found :
      (decoded fs_path : Bytes)
      → found (open_resolved k g_root decoded fs_path ds)
        ≡ found (open_resolved k g_root decoded fs_path ds')
  unfolding open_resolved
  resolved-found decoded fs_path =
      elim (Bool-cases (get_or decoded (length decoded - 1) 0 == b'/')) [
        | inl slash ↦ simp (slash, open_resolved) refl
        | inr name ↦ elim (Option-cases (k.answer_open fs_path)) [
          | inl bad ↦ simp (name, bad, open_resolved) refl
          | inr (fd, opened) ↦
              simp (name, opened, open_resolved)
                (check-found k g_root (holding fd ds) (holding fd ds') fs_path fd)
        ]
      ]

  open-found :
      (path : Bytes)
      → found (static_file_open k g_root path ds) ≡ found (static_file_open k g_root path ds')
  unfolding static_file_open
  open-found path = elim (Bool-cases (length g_root == 0)) [
    | inl unset ↦ simp (unset, static_file_open) refl
    | inr set ↦ elim (ResolveResult-cases (decode_path path path_max)) [
      | inr (inl e) ↦ simp (set, e, static_file_open) refl
      | inr (inr e) ↦ simp (set, e, static_file_open) refl
      | inl (decoded, e) ↦ elim (ResolveResult-cases (join_under_root g_root decoded path_max)) [
        | inr (inl f) ↦ simp (set, e, f, static_file_open) refl
        | inr (inr f) ↦ simp (set, e, f, static_file_open) refl
        | inl (fs_path, f) ↦ simp (set, e, f, static_file_open) (resolved-found decoded fs_path)
      ]
    ]
  ]

-- The response to what a lookup found.
abbrev routed : HttpMethod → StaticFileResult × StaticFile → Descriptors → RoutedResponse
routed m (static_file_invalid_path, file) ds = bad_request
routed m (static_file_not_found, file) ds =
    simple_response 404 (codes "Not Found") (codes "Not Found") none
routed m (static_file_ok, file) ds = (route_opened m file ds).0

if_first :
    {A B : Type 0} (b : Bool) (x y : A) (d d' e e' : B)
    → (if◌then◌else◌ {A = A × B} b (x, d) (y, e)).0
      ≡ (if◌then◌else◌ {A = A × B} b (x, d') (y, e')).0
if_first true x y d d' e e' = refl
if_first false x y d d' e e' = refl

routed-same :
    (m : HttpMethod) (x : StaticFileResult × StaticFile) (ds ds' : Descriptors)
    → routed m x ds ≡ routed m x ds'
unfolding route_opened
routed-same m (static_file_invalid_path, file) ds ds' = refl
routed-same m (static_file_not_found, file) ds ds' = refl
routed-same m (static_file_ok, file) ds ds' = if_first (not (is_get m)) _ _ _ _ _ _

by_result :
    (m : HttpMethod) (r : StaticFileResult) (file : StaticFile) (ds : Descriptors)
    → (elim r as (λ x. RoutedResponse × Descriptors) [
      | static_file_invalid_path ↦ (bad_request, ds)
      | static_file_not_found ↦
          (simple_response 404 (codes "Not Found") (codes "Not Found") none, ds)
      | static_file_ok ↦ route_opened m file ds
    ]).0
      ≡ routed m (r, file) ds
by_result m static_file_invalid_path file ds = refl
by_result m static_file_not_found file ds = refl
by_result m static_file_ok file ds = refl

route_static-routed :
    (k : Kernel) (g_root : Bytes) (p : HttpRequestParser) (ds : Descriptors)
    → (route_static_file k g_root p ds).0
      ≡ routed p.method_id
          (found (static_file_open k g_root p.path ds))
          (static_file_open k g_root p.path ds).descriptors
unfolding route_static_file
route_static-routed k g_root p ds =
    let o = static_file_open k g_root p.path ds in
    by_result p.method_id o.result o.file o.descriptors

pub route_request-same :
    (k : Kernel) (g_root : Bytes) (p : HttpRequestParser) (ds ds' : Descriptors)
    → (route_request k g_root p ds).0 ≡ (route_request k g_root p ds').0
unfolding route_request
route_request-same k g_root p ds ds' = elim (Bool-cases (path_is p (codes "/"))) [
  | inl home ↦ elim (Bool-cases (is_get p.method_id)) [
    | inr other ↦ simp (home, other, route_request) refl
    | inl get ↦ simp (home, get, route_request) refl
  ]
  | inr not_home ↦ elim (Bool-cases (path_is p (codes "/hello"))) [
    | inl hello ↦ elim (Bool-cases (is_get p.method_id)) [
      | inr other ↦ simp (not_home, hello, other, route_request) refl
      | inl get ↦ simp (not_home, hello, get, route_request) refl
    ]
    | inr not_hello ↦
        simp (not_home, not_hello, route_request)
          (route_static-routed k g_root p ds
            ∙ ap (λ x. routed p.method_id x (static_file_open k g_root p.path ds).descriptors)
                (open-found k g_root ds ds' p.path)
            ∙ routed-same p.method_id (found (static_file_open k g_root p.path ds')) _ _
            ∙ sym (route_static-routed k g_root p ds'))
  ]
]
