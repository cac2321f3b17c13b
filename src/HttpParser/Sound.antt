-- ===== src/HttpParser/Sound.antt =====
-- Which inputs `http_parser_execute` of http_parser.c takes.
mod Split
mod RequestLine
mod HeaderLine
use c_http_server.Prelude.{
  ℕ, zero, suc, ◌+◌, ◌≤◌, ◌<◌, Bool-cases, inl, inr, false, List, [], ◌∷◌, ◌++◌, Bytes, some, ◌≡◌,
  refl, ◌∙◌, ap, sym, arith, length, length-append, append_assoc, ◌==◌, ==_iff,
}
use c_http_server.HttpParser.{
  http_max_headers, parse_complete, state_header_line_start, state_headers_end_lf, state_error,
  HttpRequestParser, http_parser_init,
}
use c_http_server.HttpParser.Step.{step_in}
use c_http_server.HttpParser.Execute.{Outcome, outcome, http_parser_execute}
use c_http_server.HttpParser.Run.{consume_in, consume, run, http_parser_execute-run}
use c_http_server.HttpParser.Grammar.{
  Header, IsHeader, AreHeaders, Request, IsRequest, header_text, request_line, headers_text, text,
  crlf, after_header, after_request_line, parsed,
}
use c_http_server.HttpParser.RoundTrip.{http_parser_execute-text, ending, end_headers}
use Split.{Completes, Completes-next, Completes-nil, Completes-error}
use RequestLine.{LineRead, read_line}
use HeaderLine.{read_header}

refuse_end :
    (p : HttpRequestParser) (c : ℕ)
    → (c == b'\n') ≡ false
    → (consume (ending p) c).state ≡ state_error
unfolding consume_in step_in
refuse_end p c h = ground arith

-- The LF of the blank line.
read_end :
    (p : HttpRequestParser) (cs : Bytes)
    → Completes (ending p) cs
    → (rest : Bytes) × (cs ≡ b'\n' ∷ rest)
read_end p [] h = absurd (Completes-nil (ending p) refl h)
read_end p (c ∷ cs) h = elim (Bool-cases (c == b'\n')) [
  | inl lf ↦ (cs, rw ((==_iff c b'\n').0 lf))
  | inr other ↦
      absurd (Completes-error _ cs (refuse_end p c other) (Completes-next (ending p) c cs refl h))
]

-- The headers of a request and its blank line.
record HeadersRead (p : HttpRequestParser) (cs : Bytes) : Type 0 where
  headers : List Header
  rest : Bytes
  splits : cs ≡ headers_text headers ++ (crlf ++ rest)
  are_headers : AreHeaders headers
  fit : p.header_count + length headers ≤ http_max_headers

header_text-length : (h : Header) → 0 < length (header_text h)
unfolding header_text
header_text-length h = omega (arith, length-append h.name)

rest-shorter : (h : Header) (cs rest : Bytes) → cs ≡ header_text h ++ rest → length rest < length cs
rest-shorter h cs rest e =
    omega (arith, ap length e, length-append (header_text h) rest, header_text-length h)

HeadersRead-cons :
    (p : HttpRequestParser) (h : Header) (cs rest : Bytes)
    → cs ≡ header_text h ++ rest
    → IsHeader h
    → HeadersRead (after_header p h) rest
    → HeadersRead p cs
unfolding headers_text after_header
HeadersRead-cons p h cs rest e v q = record {
  headers = h ∷ q.headers;
  rest = q.rest;
  splits =
      e
      ∙ ap (◌++◌ (header_text h)) q.splits
      ∙ sym (append_assoc (header_text h) (headers_text q.headers) (crlf ++ q.rest));
  are_headers = (v, q.are_headers);
  fit = omega (arith, q.fit);
}

read_headers :
    (n : ℕ) (p : HttpRequestParser) (cs : Bytes)
    → length cs < n
    → p.state ≡ state_header_line_start
    → p.header_count ≤ http_max_headers
    → Completes p cs
    → HeadersRead p cs
unfolding headers_text
read_headers zero p cs f e k h = elim f [ ]
read_headers (suc n) p [] f e k h = absurd (Completes-nil p (rw e) h)
read_headers (suc n) p (c ∷ cs) f e k h = elim (Bool-cases (c == b'\r')) [
  | inl cr ↦
      let h' = rw ((==_iff c b'\r').0 cr, end_headers p e) at (Completes-next p c cs (rw e) h) in
      let (rest, lf) = read_end p cs h' in
      record {
        headers = [];
        rest = rest;
        splits = rw ((==_iff c b'\r').0 cr, lf);
        are_headers = tt;
        fit = omega arith;
      }
  | inr other ↦
      let (room, r) = read_header p c cs e other h in
      let shorter = rest-shorter r.header (c ∷ cs) r.rest r.splits in
      HeadersRead-cons p r.header (c ∷ cs) r.rest r.splits r.is_header (
        read_headers n (after_header p r.header) r.rest (omega arith) (unfold after_header in refl)
          (unfold after_header in omega arith) r.goes_on)
]

request_splits :
    (line : Request) (hs : List Header) (bytes behind rest : Bytes)
    → bytes ≡ request_line line ++ behind
    → behind ≡ headers_text hs ++ (crlf ++ rest)
    → bytes ≡ text (record line { headers = hs }) ++ rest
unfolding text request_line
request_splits line hs bytes behind rest e f = e ∙ rw f (simp append_assoc)

-- The text of a request in front of the input.
pub record RequestRead (bytes : Bytes) : Type 0 where
  pub request : Request
  pub rest : Bytes
  pub splits : bytes ≡ text request ++ rest
  pub is_request : IsRequest request

read_request : (bytes : Bytes) → Completes http_parser_init bytes → RequestRead bytes
unfolding after_request_line
read_request bytes h =
    let l = read_line bytes h in
    let q =
      read_headers (suc (length l.rest)) (after_request_line l.line) l.rest (omega arith) refl
        (omega arith) l.goes_on in
    record {
      request = record (l.line) { headers = q.headers };
      rest = q.rest;
      splits = request_splits l.line q.headers bytes l.rest q.rest l.splits q.splits;
      is_request = record {
        method_chars = l.method_chars;
        method_ne_nil = l.method_ne_nil;
        method_fits = l.method_fits;
        path_chars = l.path_chars;
        path_ne_nil = l.path_ne_nil;
        path_fits = l.path_fits;
        major_digit = l.major_digit;
        minor_digit = l.minor_digit;
        are_headers = q.are_headers;
        headers_fit = omega (arith, q.fit);
      };
    }

RequestRead-outcome :
    (bytes : Bytes) (o : Outcome) (q : RequestRead bytes)
    → http_parser_execute http_parser_init bytes ≡ some o
    → o ≡ outcome parse_complete (parsed q.request) (length (text q.request))
RequestRead-outcome bytes o q e = cc (
  ap (http_parser_execute http_parser_init) q.splits,
  http_parser_execute-text q.request q.rest q.is_request,
)

-- Only the texts of requests of the grammar are taken: if a fresh parser completes on an input,
-- the input begins with the text of such a request, every line ended by CRLF, and the parser has
-- consumed exactly that text and holds that request.
pub http_parser_execute-RequestRead :
    (bytes : Bytes) (o : Outcome)
    → http_parser_execute http_parser_init bytes ≡ some o
    → o.result ≡ parse_complete
    → (q : RequestRead bytes) × (o
        ≡ outcome parse_complete (parsed q.request) (length (text q.request)))
http_parser_execute-RequestRead bytes o e done =
    let same : run http_parser_init bytes ≡ o =
      cc (http_parser_execute-run http_parser_init bytes) in
    let q = read_request bytes (0, ap (λ (r : Outcome). r.result) same ∙ done) in
    (q, RequestRead-outcome bytes o q e)
