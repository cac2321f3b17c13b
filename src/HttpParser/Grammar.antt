-- ===== src/HttpParser/Grammar.antt =====
-- The requests that http_parser.c takes, as data with their text: a request line, header lines
-- and a blank line, each ended by CRLF.
use c_http_server.Prelude.{
  ℕ, ◌+◌, ◌≤◌, ◌<◌, Bool, true, false, List, [], ◌∷◌, ◌++◌, Bytes, codes, ◌≡◌, ◌≢◌, if◌then◌else◌,
  length, map, to_lower,
}
use c_http_server.HttpParser.{
  http_method_max, http_path_max, http_header_line_max, http_max_headers, state_done,
  state_header_line_start, HttpRequestParser, HttpConnectionDirective, conn_unspecified,
}
use c_http_server.HttpParser.Chars.{
  is_method_char, is_path_char, is_header_name_char, is_header_value_char, classify_method,
}
use c_http_server.HttpParser.Connection.{is_blank}
use c_http_server.HttpParser.Directives.{elements, heed_all, same_bytes}

-- `pad` is the white space between the colon and the value.
pub record Header : Type 0 where
  pub name : Bytes
  pub pad : Bytes
  pub value : Bytes

pub record Request : Type 0 where
  pub method : Bytes
  pub path : Bytes
  pub major : ℕ
  pub minor : ℕ
  pub headers : List Header

abbrev pub crlf : Bytes
crlf = b'\r' ∷ b'\n' ∷ []

abbrev pub version_text : ℕ → ℕ → Bytes
version_text major minor = codes "HTTP/" ++ ((major + b'0') ∷ b'.' ∷ (minor + b'0') ∷ [])

unfoldable pub request_line : Request → Bytes
request_line r = r.method ++ (b' ' ∷ (r.path ++ (b' ' ∷ (version_text r.major r.minor ++ crlf))))

unfoldable pub header_text : Header → Bytes
header_text h = h.name ++ (b':' ∷ (h.pad ++ (h.value ++ crlf)))

unfoldable pub headers_text : List Header → Bytes
headers_text [] = []
headers_text (h ∷ hs) = header_text h ++ headers_text hs

unfoldable pub text : Request → Bytes
text r = request_line r ++ (headers_text r.headers ++ crlf)

-- Every byte passes the test.
abbrev pub AllPass : (ℕ → Bool) → Bytes → Type 0
AllPass test [] = Unit
AllPass test (c ∷ cs) = (test c ≡ true) × AllPass test cs

-- The first byte, if there is one, is no blank.
abbrev pub StartsValue : Bytes → Type 0
StartsValue [] = Unit
StartsValue (c ∷ cs) = is_blank c ≡ false

pub record IsHeader (h : Header) : Type 0 where
  pub name_chars : AllPass is_header_name_char h.name
  pub name_ne_nil : h.name ≢ []
  pub pad_blank : AllPass is_blank h.pad
  pub value_chars : AllPass is_header_value_char h.value
  pub value_start : StartsValue h.value
  pub fits : length h.name + length h.value < http_header_line_max

abbrev pub AreHeaders : List Header → Type 0
AreHeaders [] = Unit
AreHeaders (h ∷ hs) = IsHeader h × AreHeaders hs

pub record IsRequest (r : Request) : Type 0 where
  pub method_chars : AllPass is_method_char r.method
  pub method_ne_nil : r.method ≢ []
  pub method_fits : length r.method < http_method_max
  pub path_chars : AllPass is_path_char r.path
  pub path_ne_nil : r.path ≢ []
  pub path_fits : length r.path < http_path_max
  pub major_digit : r.major ≤ 9
  pub minor_digit : r.minor ≤ 9
  pub are_headers : AreHeaders r.headers
  pub headers_fit : length r.headers ≤ http_max_headers

-- What a header does to the directive.
unfoldable pub directive_after : HttpConnectionDirective → Header → HttpConnectionDirective
directive_after d h =
    if same_bytes (map to_lower h.name) (map to_lower (codes "Connection"))
    then heed_all d (elements h.value)
    else d

-- The parser's fields after a header line, and after all of them.
unfoldable pub after_header : HttpRequestParser → Header → HttpRequestParser
after_header p h = record p {
  state = state_header_line_start;
  header_line = h.name ++ h.value;
  header_name_len = length h.name;
  header_count = p.header_count + 1;
  connection_directive = directive_after p.connection_directive h;
}

unfoldable pub after_headers : HttpRequestParser → List Header → HttpRequestParser
after_headers p [] = p
after_headers p (h ∷ hs) = after_headers (after_header p h) hs

-- The parser's fields after the request line.
unfoldable pub after_request_line : Request → HttpRequestParser
after_request_line r = record {
  state = state_header_line_start;
  method = r.method;
  method_id = classify_method r.method;
  path = r.path;
  version = version_text r.major r.minor;
  http_major = r.major;
  http_minor = r.minor;
  header_line = [];
  header_name_len = 0;
  header_count = 0;
  connection_directive = conn_unspecified;
}

-- What the parser holds when it has taken the request.
unfoldable pub parsed : Request → HttpRequestParser
parsed r = record (after_headers (after_request_line r) r.headers) { state = state_done }
