-- ===== src/EventLoop/Routes.antt =====
-- The table of the routes that `route_request` of event_loop.c serves.
use c_http_server.Prelude.{
  Bool, Bool-cases, true, false, ◌&&◌, ◌⊎◌, inl, inr, none, [], ◌∷◌, Bytes, codes, ◌==◌, ◌≡◌, ◌≢◌,
  refl, ap, arith, length, memcmp_is_zero,
}
use c_http_server.HttpParser.{HttpMethod, method_get, HttpRequestParser}
use c_http_server.StaticFiles.{
  StaticFile, StaticFileResult, static_file_ok, static_file_not_found, static_file_invalid_path,
}
use c_http_server.StaticFiles.Descriptors.{Descriptors, holding, close-holding}
use c_http_server.StaticFiles.Open.{Kernel, static_file_open, static_file_close}
use c_http_server.StaticFiles.Serves.{Serves, static_file_open-Serves}
use c_http_server.EventLoop.{RoutedResponse}
use c_http_server.EventLoop.Routing.{
  before_query, path_is, simple_response, method_not_allowed, bad_request, is_get, route_opened,
  route_static_file, route_request,
}

-- The test on a path, without its parser.
abbrev is_target : Bytes → Bytes → Bool
is_target path target =
    length (before_query path) == length target && memcmp_is_zero (length target) path target

is_target-true : (path target : Bytes) → is_target path target ≡ true → before_query path ≡ target
unfolding before_query memcmp_is_zero
is_target-true [] [] h = refl
is_target-true [] (y ∷ ys) h = absurd (ground arith)
is_target-true (c ∷ cs) [] h = elim (Bool-cases (c == b'?')) [
  | inl query ↦ simp query refl
  | inr other ↦ absurd (ground (arith, simp other at h))
]
is_target-true (c ∷ cs) (y ∷ ys) h = elim (Bool-cases (c == b'?')) [
  | inl query ↦ absurd (ground (arith, simp query at h))
  | inr other ↦
      let k = simp other at h in
      let same : c ≡ y = ground (arith, k) in
      let rest = is_target-true cs ys (ground (arith, k)) in simp other (rw (rest, same) refl)
]

is_target-of : (path target : Bytes) → before_query path ≡ target → is_target path target ≡ true
unfolding before_query memcmp_is_zero
is_target-of [] [] h = refl
is_target-of [] (y ∷ ys) h = absurd (cc)
is_target-of (c ∷ cs) [] h = elim (Bool-cases (c == b'?')) [
  | inl query ↦ simp query refl
  | inr other ↦ absurd (cc (simp other at h))
]
is_target-of (c ∷ cs) (y ∷ ys) h = elim (Bool-cases (c == b'?')) [
  | inl query ↦ absurd (cc (simp query at h))
  | inr other ↦
      let k : c ∷ before_query cs ≡ y ∷ ys = simp other at h in
      let same : c ≡ y = cc k in
      let rest : before_query cs ≡ ys = cc k in
      let r = is_target-of cs ys rest in simp other (ground (arith, r, same))
]

path_is-true :
    (p : HttpRequestParser) (target : Bytes)
    → path_is p target ≡ true
    → before_query p.path ≡ target
unfolding path_is
path_is-true p target h = is_target-true p.path target h

path_is-false :
    (p : HttpRequestParser) (target : Bytes)
    → path_is p target ≡ false
    → before_query p.path ≢ target
unfolding path_is
path_is-false p target h e = let k = is_target-of p.path target e in cc

is_get-true : (m : HttpMethod) → is_get m ≡ true → m ≡ method_get
is_get-true method_get h = refl
is_get-true m h = cc

is_get-false : (m : HttpMethod) → is_get m ≡ false → m ≢ method_get
is_get-false m h e = cc (ap is_get e)

-- The path before a query is one of the two built-in ones.
abbrev pub BuiltIn : HttpRequestParser → Type 0
BuiltIn p = (before_query p.path ≡ codes "/") ⊎ (before_query p.path ≡ codes "/hello")

-- The response to a served file.
abbrev pub file_response : StaticFile → RoutedResponse
file_response file = record {
  status = 200;
  reason = codes "OK";
  body = none;
  content_type = file.content_type;
  extra_header = none;
  file = file;
}

-- The rows of the table: a response with the descriptors open behind it.
pub data Routes (k : Kernel) (g_root : Bytes) (p : HttpRequestParser) (ds : Descriptors)
    : RoutedResponse × Descriptors → Type 0 where
  home :
      before_query p.path ≡ codes "/"
      → p.method_id ≡ method_get
      → Routes k g_root p ds
          (simple_response 200 (codes "OK") (codes "Hello from my C server!") none, ds)
  hello :
      before_query p.path ≡ codes "/hello"
      → p.method_id ≡ method_get
      → Routes k g_root p ds (simple_response 200 (codes "OK") (codes "Hello, hello!") none, ds)
  built_in_refused :
      BuiltIn p → p.method_id ≢ method_get → Routes k g_root p ds (method_not_allowed, ds)
  illegal :
      ¬ BuiltIn p
      → (static_file_open k g_root p.path ds).result ≡ static_file_invalid_path
      → Routes k g_root p ds (bad_request, ds)
  missing :
      ¬ BuiltIn p
      → (static_file_open k g_root p.path ds).result ≡ static_file_not_found
      → Routes k g_root p ds (simple_response 404 (codes "Not Found") (codes "Not Found") none, ds)
  file_refused :
      ¬ BuiltIn p
      → Serves k g_root p.path ds (static_file_open k g_root p.path ds)
      → p.method_id ≢ method_get
      → Routes k g_root p ds (method_not_allowed, ds)
  file_served :
      ¬ BuiltIn p
      → (s : Serves k g_root p.path ds (static_file_open k g_root p.path ds))
      → p.method_id ≡ method_get
      → Routes k g_root p ds
          (file_response (static_file_open k g_root p.path ds).file, holding s.fd ds)

module _ (k : Kernel) (g_root : Bytes) (p : HttpRequestParser) (ds : Descriptors) where
  result-cases :
      (r : StaticFileResult)
      → (r ≡ static_file_ok) ⊎ ((r ≡ static_file_not_found) ⊎ (r ≡ static_file_invalid_path))
  result-cases static_file_ok = inl refl
  result-cases static_file_not_found = inr (inl refl)
  result-cases static_file_invalid_path = inr (inr refl)

  -- The file that was found, and a method that is not GET: it is closed.
  closes_served :
      (s : Serves k g_root p.path ds (static_file_open k g_root p.path ds))
      → (static_file_close
          (static_file_open k g_root p.path ds).file
          (static_file_open k g_root p.path ds).descriptors).1
        ≡ ds
  unfolding static_file_close
  closes_served s = rw (s.handed, s.held) (close-holding s.fd ds)

  static-Routes : ¬ BuiltIn p → Routes k g_root p ds (route_static_file k g_root p ds)
  unfolding route_static_file route_opened
  static-Routes other = elim (static_file_open-Serves k g_root p.path ds) [
    | inl (not_ok, no_file_out, kept) ↦
        elim (result-cases (static_file_open k g_root p.path ds).result) [
          | inl ok ↦ absurd (not_ok ok)
          | inr (inl e) ↦ simp (e, kept, route_static_file) (missing other e)
          | inr (inr e) ↦ simp (e, kept, route_static_file) (illegal other e)
        ]
    | inr s ↦ elim (Bool-cases (is_get p.method_id)) [
      | inl get ↦
          simp (s.ok, get, s.held, route_static_file)
            (file_served other s (is_get-true p.method_id get))
      | inr not_get ↦
          simp (s.ok, not_get, closes_served s, route_static_file)
            (file_refused other s (is_get-false p.method_id not_get))
    ]
  ]

-- Each request gets the response of its row in the table: the two built-in paths answer GET with
-- their greeting and any other method with 405 and an Allow line; any other path is looked up
-- first, so it is 400 where it is illegal, 404 where no file is served, whatever the method, and
-- for a file that is served 405 or, to GET, the file itself. Exactly the last row leaves a
-- descriptor open that was not open before, the one that the response owns.
pub route_request-Routes :
    (k : Kernel) (g_root : Bytes) (p : HttpRequestParser) (ds : Descriptors)
    → Routes k g_root p ds (route_request k g_root p ds)
unfolding route_request
route_request-Routes k g_root p ds = elim (Bool-cases (path_is p (codes "/"))) [
  | inl root ↦
      let at_root = path_is-true p (codes "/") root in
      elim (Bool-cases (is_get p.method_id)) [
        | inl get ↦ simp (root, get) (home at_root (is_get-true p.method_id get))
        | inr not_get ↦
            simp (root, not_get) (built_in_refused (inl at_root) (is_get-false p.method_id not_get))
      ]
  | inr not_root ↦ elim (Bool-cases (path_is p (codes "/hello"))) [
    | inl greeting ↦
        let at_hello = path_is-true p (codes "/hello") greeting in
        elim (Bool-cases (is_get p.method_id)) [
          | inl get ↦ simp (not_root, greeting, get) (hello at_hello (is_get-true p.method_id get))
          | inr not_get ↦
              simp (not_root, greeting, not_get)
                (built_in_refused (inr at_hello) (is_get-false p.method_id not_get))
        ]
    | inr neither ↦
        simp (not_root, neither)
          (static-Routes k g_root p ds (λ b. elim b [
            | inl e ↦ path_is-false p (codes "/") not_root e
            | inr e ↦ path_is-false p (codes "/hello") neither e
          ]))
  ]
]
