-- ===== src/HttpParser/RoundTrip/RequestLine.antt =====
-- The request line of http_parser.c: method, path and version.
use c_http_server.Prelude.{
  ℕ, ◌+◌, ◌≤◌, ◌<◌, true, [], ◌∷◌, ◌++◌, Bytes, ◌≡◌, ◌≢◌, refl, arith, length,
}
use c_http_server.HttpParser.{
  http_method_max, http_path_max, version_max, state_path, state_version, state_request_line_lf,
  state_header_line_start, HttpRequestParser, http_parser_init,
}
use c_http_server.HttpParser.Chars.{
  is_method_char, is_path_char, is_version_char, is_valid_version, classify_method,
}
use c_http_server.HttpParser.Step.{step_in}
use c_http_server.HttpParser.Run.{consume_in, consume}
use c_http_server.HttpParser.Grammar.{
  Request, IsRequest, AllPass, request_line, version_text, after_request_line,
}
use c_http_server.HttpParser.Reads.{Reads, here, next, Reads-append, Reads-push}

abbrev pub at_method : Bytes → HttpRequestParser
at_method m = record http_parser_init { method = m }

abbrev pub at_path : Bytes → Bytes → HttpRequestParser
at_path m b = record http_parser_init {
  state = state_path;
  method = m;
  method_id = classify_method m;
  path = b;
}

abbrev pub at_version : Bytes → Bytes → Bytes → HttpRequestParser
at_version m b v = record (at_path m b) { state = state_version; version = v }

pub push_method :
    (b : Bytes) (c : ℕ)
    → is_method_char c ≡ true
    → length b + 1 < http_method_max
    → consume (at_method b) c ≡ at_method (b ++ c ∷ [])
unfolding consume_in step_in
push_method b c t f = ground arith

pub push_path :
    (m b : Bytes) (c : ℕ)
    → is_path_char c ≡ true
    → length b + 1 < http_path_max
    → consume (at_path m b) c ≡ at_path m (b ++ c ∷ [])
unfolding consume_in step_in
push_path m b c t f = ground arith

pub push_version :
    (m p b : Bytes) (c : ℕ)
    → is_version_char c ≡ true
    → length b + 1 < version_max
    → consume (at_version m p b) c ≡ at_version m p (b ++ c ∷ [])
unfolding consume_in step_in
push_version m p b c t f = ground arith

pub end_method : (m : Bytes) → m ≢ [] → consume (at_method m) b' ' ≡ at_path m []
unfolding consume_in step_in
end_method m ne = ground arith

pub end_path : (m b : Bytes) → b ≢ [] → consume (at_path m b) b' ' ≡ at_version m b []
unfolding consume_in step_in
end_path m b ne = ground arith

version_text_valid :
    (major minor : ℕ) → major ≤ 9 → minor ≤ 9 → is_valid_version (version_text major minor) ≡ true
unfolding is_valid_version
version_text_valid major minor h k = ground arith

pub version_text_chars :
    (major minor : ℕ) → major ≤ 9 → minor ≤ 9 → AllPass is_version_char (version_text major minor)
version_text_chars major minor h k = ground arith

pub end_version :
    (m b : Bytes) (major minor : ℕ)
    → major ≤ 9
    → minor ≤ 9
    → consume (at_version m b (version_text major minor)) b'\r'
      ≡ record (at_version m b (version_text major minor)) {
        state = state_request_line_lf;
        http_major = major;
        http_minor = minor;
      }
unfolding consume_in step_in
end_version m b major minor h k = ground (arith, version_text_valid major minor h k)

pub end_line :
    (p : HttpRequestParser)
    → p.state ≡ state_request_line_lf
    → consume p b'\n' ≡ record p { state = state_header_line_start }
unfolding consume_in step_in
end_line p e = ground arith

pub Reads-request_line :
    (r : Request) → IsRequest r → Reads (after_request_line r) http_parser_init (request_line r)
unfolding request_line after_request_line
Reads-request_line r v =
    let m = r.method in
    let b = r.path in
    let t = version_text r.major r.minor in
    Reads-append _
      (Reads-push at_method is_method_char http_method_max (λ _. refl) push_method m []
        v.method_chars (omega (arith, v.method_fits)))
      (next refl (end_method m v.method_ne_nil) (
        Reads-append _
          (Reads-push (at_path m) is_path_char http_path_max (λ _. refl) (push_path m) b []
            v.path_chars (omega (arith, v.path_fits)))
          (next refl (end_path m b v.path_ne_nil) (
            Reads-append _
              (Reads-push (at_version m b) is_version_char version_max (λ _. refl)
                (push_version m b) t [] (version_text_chars _ _ v.major_digit v.minor_digit)
                (omega arith))
              (next refl (end_version m b _ _ v.major_digit v.minor_digit)
                (next refl (end_line _ refl) (here refl)))))))
