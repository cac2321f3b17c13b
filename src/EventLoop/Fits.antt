-- ===== src/EventLoop/Fits.antt =====
-- That every response of event_loop.c fits in the write buffer.
use c_http_server.Prelude.{
  ℕ, zero, suc, ◌+◌, ◌*◌, ◌/◌, ◌%◌, ◌^◌, ◌≤◌, ◌<◌, Bool, Bool-cases, lt→ltb, true, false, Option,
  Option-cases, some, inl, inr, List, [], ◌∷◌, Bytes, codes, leb, ltb, ◌≡◌, refl, arith,
  if◌then◌else◌, length, length-append,
}
use c_http_server.HttpParser.{HttpRequestParser}
use c_http_server.StaticFiles.ContentType.{
  table, strcasecmp_is_zero, strrchr, base_name, type_in, content_type_for,
}
use c_http_server.StaticFiles.Descriptors.{Descriptors}
use c_http_server.StaticFiles.Open.{Kernel, Stat}
use c_http_server.EventLoop.{response_buf_size, Connection, RoutedResponse}
use c_http_server.EventLoop.Routing.{simple_response, route_request}
use c_http_server.EventLoop.Routes.{
  Routes, home, hello, built_in_refused, illegal, missing, file_refused, file_served,
  route_request-Routes,
}
use c_http_server.EventLoop.Response.{
  digits, decimal, text_or_empty, build_response, build_file_response_head, set_write_buffer,
  response_text, adopt_file, prepare_response,
}

-- A power of ten.
abbrev ten_to : ℕ → ℕ
ten_to zero = 1
ten_to (suc d) = 10 * ten_to d

length-digits :
    (fuel n d : ℕ) (acc : Bytes)
    → n < ten_to (suc d)
    → length (digits fuel n acc) ≤ suc d + length acc
unfolding digits
length-digits zero n d acc h = omega arith
length-digits (suc fuel) n zero acc h = simp (lt→ltb n 10 h) (omega arith)
length-digits (suc fuel) n (suc d) acc h = elim (Bool-cases (ltb n 10)) [
  | inl small ↦ simp small (omega arith)
  | inr large ↦
      let shorter : n / 10 < ten_to (suc d) = omega arith in
      let rest = length-digits fuel (n / 10) d ((b'0' + n % 10) ∷ acc) shorter in
      simp large (omega (arith, rest))
]

-- What bounds the text of a response: the fields that the routes fill.
record IsShort (r : RoutedResponse) : Type 0 where
  status : r.status < 1000
  reason : length r.reason ≤ 18
  body : length (text_or_empty r.body) < 100
  content_type : length (text_or_empty r.content_type) ≤ 30
  extra_header : length (text_or_empty r.extra_header) ≤ 12
  size : r.file.size < ten_to 19

length-decimal : (n d : ℕ) → n < ten_to (suc d) → length (decimal n) ≤ suc d
length-decimal n d h = omega (arith, length-digits (n + 1) n d [] h)

build_response-short :
    (r : RoutedResponse) (v : Bytes) (w : ℕ)
    → IsShort r
    → length v ≤ 10
    → w < 100
    → length (build_response r v w) < response_buf_size
unfolding build_response
build_response-short r v w s hv hw = simp length-append (
    omega (
      arith,
      length-decimal r.status 2 s.status,
      length-decimal (length (text_or_empty r.body)) 1 s.body,
      length-decimal w 1 hw,
      s.reason,
      s.content_type,
      s.extra_header,
      s.body,
    ))

build_file_response_head-short :
    (r : RoutedResponse) (v : Bytes) (w : ℕ)
    → IsShort r
    → length v ≤ 10
    → w < 100
    → length (build_file_response_head r v w) < response_buf_size
unfolding build_file_response_head
build_file_response_head-short r v w s hv hw = simp length-append (
    omega (
      arith,
      length-decimal r.status 2 s.status,
      length-decimal r.file.size 18 s.size,
      length-decimal w 1 hw,
      s.reason,
      s.content_type,
    ))

connection_value-short :
    (keep_alive : Bool) → length (if keep_alive then codes "keep-alive" else codes "close") ≤ 10
connection_value-short true = omega arith
connection_value-short false = omega arith

response_text-short :
    (r : RoutedResponse) (keep_alive : Bool) (w : ℕ)
    → IsShort r
    → w < 100
    → length (response_text r keep_alive w) < response_buf_size
unfolding response_text
response_text-short r keep_alive w s hw =
    let v = if keep_alive then codes "keep-alive" else codes "close" in
    elim (Option-cases r.file.fd) [
      | inl no_fd ↦
          simp (no_fd, response_text)
            (build_response-short r v w s (connection_value-short keep_alive) hw)
      | inr (fd, has) ↦
          simp (has, response_text)
            (build_file_response_head-short r v w s (connection_value-short keep_alive) hw)
    ]

-- The types of a table are short.
abbrev TypesShort : List (Bytes × Bytes) → Type 0
TypesShort [] = Unit
TypesShort ((ext, type) ∷ rest) = (length type ≤ 30) × TypesShort rest

type_in-short :
    (rows : List (Bytes × Bytes)) (dot : Bytes) → TypesShort rows → length (type_in rows dot) ≤ 30
unfolding type_in
type_in-short [] dot h = omega arith
type_in-short ((ext, type) ∷ rest) dot h = elim (Bool-cases (strcasecmp_is_zero dot ext)) [
  | inl this ↦ simp this h.0
  | inr other ↦ simp other (type_in-short rest dot h.1)
]

table-TypesShort : TypesShort table
table-TypesShort = ground arith

content_type_for-short : (fs_path : Bytes) → length (content_type_for fs_path) ≤ 30
unfolding content_type_for
content_type_for-short fs_path = elim (Option-cases (strrchr b'.' (base_name fs_path))) [
  | inl no_dot ↦ simp (no_dot, content_type_for) (omega arith)
  | inr (dot, e) ↦ simp (e, content_type_for) (type_in-short table dot table-TypesShort)
]

-- `off_t` has 64 bits.
abbrev pub SizesFit : Kernel → Type 0
SizesFit k = (fd : ℕ) (st : Stat) → k.answer_fstat fd ≡ some st → st.st_size < 2 ^ 63

simple-IsShort :
    (status : ℕ) (reason body : Bytes) (extra_header : Option Bytes)
    → status < 1000
    → length reason ≤ 18
    → length body < 100
    → length (text_or_empty extra_header) ≤ 12
    → IsShort (simple_response status reason body extra_header)
simple-IsShort status reason body extra_header h1 h2 h3 h4 = record {
  status = h1;
  reason = h2;
  body = h3;
  content_type = omega arith;
  extra_header = h4;
  size = omega arith;
}

Routes-IsShort :
    (k : Kernel) (g_root : Bytes) (p : HttpRequestParser) (ds : Descriptors)
    (routed : RoutedResponse × Descriptors)
    → SizesFit k
    → Routes k g_root p ds routed
    → IsShort routed.0
Routes-IsShort k g_root p ds _ fit (home at get) =
    simple-IsShort _ _ _ _ (omega arith) (omega arith) (omega arith) (omega arith)
Routes-IsShort k g_root p ds _ fit (hello at get) =
    simple-IsShort _ _ _ _ (omega arith) (omega arith) (omega arith) (omega arith)
Routes-IsShort k g_root p ds _ fit (built_in_refused b not_get) =
    simple-IsShort _ _ _ _ (omega arith) (omega arith) (omega arith) (omega arith)
Routes-IsShort k g_root p ds _ fit (illegal b e) =
    simple-IsShort _ _ _ _ (omega arith) (omega arith) (omega arith) (omega arith)
Routes-IsShort k g_root p ds _ fit (missing b e) =
    simple-IsShort _ _ _ _ (omega arith) (omega arith) (omega arith) (omega arith)
Routes-IsShort k g_root p ds _ fit (file_refused b s not_get) =
    simple-IsShort _ _ _ _ (omega arith) (omega arith) (omega arith) (omega arith)
Routes-IsShort k g_root p ds _ fit (file_served b s get) =
    let size : s.st.st_size < ten_to 19 = omega (arith, fit s.fd s.st s.described) in
    rw s.handed (record {
      status = omega arith;
      reason = omega arith;
      body = omega arith;
      content_type = content_type_for-short s.fs_path;
      extra_header = omega arith;
      size = size;
    })

prepare_response-short :
    (conn : Connection) (r : RoutedResponse) (keep_alive : Bool) (w : ℕ) (ds : Descriptors)
    → IsShort r
    → w < 100
    → prepare_response conn r keep_alive w ds ≡ (
      adopt_file r (record conn {
        keep_alive_after_write = keep_alive;
        write_buf = response_text r keep_alive w;
        write_sent = 0;
      }),
      ds,
    )
unfolding prepare_response set_write_buffer
prepare_response-short conn r keep_alive w ds s hw =
    let fits : leb response_buf_size (length (response_text r keep_alive w)) ≡ false =
      ground (arith, response_text-short r keep_alive w s hw) in
    simp (fits, prepare_response) refl

-- The connection with this response in its buffer, and the file of the response taken over.
abbrev pub filled : Connection → RoutedResponse → Bool → ℕ → Connection
filled conn r keep_alive w = adopt_file r (record conn {
  keep_alive_after_write = keep_alive;
  write_buf = response_text r keep_alive w;
  write_sent = 0;
})

-- Every response that a request can get fits in the buffer of 512 bytes with the NUL, if file sizes
-- are below 2 ^ 63 and worker numbers below 100: the answer 500 for a truncated response is never
-- given, the buffer holds the whole text, and the response's file becomes the connection's.
pub prepare_response-filled :
    (k : Kernel) (g_root : Bytes) (p : HttpRequestParser) (ds : Descriptors) (conn : Connection)
    (keep_alive : Bool) (w : ℕ)
    → SizesFit k
    → w < 100
    → prepare_response conn
        (route_request k g_root p ds).0
        keep_alive
        w
        (route_request k g_root p ds).1
      ≡ (filled conn (route_request k g_root p ds).0 keep_alive w, (route_request k g_root p ds).1)
prepare_response-filled k g_root p ds conn keep_alive w fit hw =
    prepare_response-short conn (route_request k g_root p ds).0 keep_alive w
      (route_request k g_root p ds).1
      (Routes-IsShort k g_root p ds (route_request k g_root p ds) fit
        (route_request-Routes k g_root p ds))
      hw
