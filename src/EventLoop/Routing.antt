-- ===== src/EventLoop/Routing.antt =====
-- The routing of event_loop.c: which response a parsed request gets, and which descriptor it owns.
use c_http_server.Prelude.{
  ℕ, Bool, true, false, not, ◌&&◌, ◌||◌, Option, none, some, [], ◌∷◌, Bytes, codes, ◌==◌,
  if◌then◌else◌, length, memcmp_is_zero,
}
use c_http_server.HttpParser.{HttpMethod, method_get, HttpRequestParser}
use c_http_server.StaticFiles.{
  StaticFile, static_file_ok, static_file_not_found, static_file_invalid_path,
}
use c_http_server.StaticFiles.Descriptors.{Descriptors}
use c_http_server.StaticFiles.Open.{Kernel, no_file, static_file_open, static_file_close}
use c_http_server.EventLoop.{RoutedResponse}

-- `path_len` of `path_is`: the bytes before the first '?' that `memchr` finds.
unfoldable pub before_query : Bytes → Bytes
before_query [] = []
before_query (c ∷ cs) = if c == b'?' then [] else c ∷ before_query cs

unfoldable pub path_is : HttpRequestParser → Bytes → Bool
path_is p target =
    length (before_query p.path) == length target && memcmp_is_zero (length target) p.path target

abbrev pub simple_response : ℕ → Bytes → Bytes → Option Bytes → RoutedResponse
simple_response status reason body extra_header = record {
  status = status;
  reason = reason;
  body = some body;
  content_type = some (codes "text/plain");
  extra_header = extra_header;
  file = no_file;
}

abbrev pub method_not_allowed : RoutedResponse
method_not_allowed =
    simple_response 405 (codes "Method Not Allowed") (codes "Method Not Allowed")
      (some (codes "Allow: GET\r\n"))

abbrev pub bad_request : RoutedResponse
bad_request = simple_response 400 (codes "Bad Request") (codes "Bad Request") none

-- `parser->method_id != HTTP_METHOD_GET` is the negation.
abbrev pub is_get : HttpMethod → Bool
is_get method_get = true
is_get _ = false

-- The response to a file that `static_file_open` found, with the descriptors after it.
unfoldable pub route_opened : HttpMethod → StaticFile → Descriptors → RoutedResponse × Descriptors
route_opened method file ds =
    if not (is_get method) then (method_not_allowed, (static_file_close file ds).1) else (
      record {
        status = 200;
        reason = codes "OK";
        body = none;
        content_type = file.content_type;
        extra_header = none;
        file = file;
      },
      ds,
    )

unfoldable pub route_static_file :
    Kernel → Bytes → HttpRequestParser → Descriptors → RoutedResponse × Descriptors
route_static_file k g_root p ds =
    let o = static_file_open k g_root p.path ds in
    elim o.result [
      | static_file_invalid_path ↦ (bad_request, o.descriptors)
      | static_file_not_found ↦
          (simple_response 404 (codes "Not Found") (codes "Not Found") none, o.descriptors)
      | static_file_ok ↦ route_opened p.method_id o.file o.descriptors
    ]

unfoldable pub route_request :
    Kernel → Bytes → HttpRequestParser → Descriptors → RoutedResponse × Descriptors
route_request k g_root p ds =
    if path_is p (codes "/") || path_is p (codes "/hello")
    then (if not (is_get p.method_id)
        then (method_not_allowed, ds)
        else if path_is p (codes "/")
        then (simple_response 200 (codes "OK") (codes "Hello from my C server!") none, ds)
        else (simple_response 200 (codes "OK") (codes "Hello, hello!") none, ds))
    else route_static_file k g_root p ds
