-- ===== src/HttpParser/RoundTrip.antt =====
-- `http_parser_execute` of http_parser.c on the text of a request.
pub mod RequestLine
pub mod HeaderLine
use c_http_server.Prelude.{
  ℕ, suc, ◌+◌, ◌≤◌, ◌<◌, true, false, List, [], ◌∷◌, ◌++◌, Bytes, some, ◌≡◌, refl, ◌∙◌, ap, arith,
  length, length-append, append_assoc,
}
use c_http_server.HttpParser.{
  is_terminal, http_max_headers, parse_complete, state_header_line_start, state_headers_end_lf,
  state_done, HttpRequestParser, http_parser_init,
}
use c_http_server.HttpParser.Step.{step_in}
use c_http_server.HttpParser.Execute.{outcome, http_parser_execute}
use c_http_server.HttpParser.Run.{
  consume_in, consume, run_from, run, run_from_terminal, http_parser_execute-run,
}
use c_http_server.HttpParser.Grammar.{
  Header, AreHeaders, Request, IsRequest, headers_text, text, crlf, after_header, after_headers,
  after_request_line, parsed,
}
use c_http_server.HttpParser.Reads.{Reads, here, next, Reads-append, run_from-Reads}
use RequestLine.{Reads-request_line}
use HeaderLine.{Reads-header_text}

Reads-headers_text :
    (hs : List Header) (p : HttpRequestParser)
    → p.state ≡ state_header_line_start
    → p.header_count + length hs ≤ http_max_headers
    → AreHeaders hs
    → Reads (after_headers p hs) p (headers_text hs)
unfolding headers_text after_headers
Reads-headers_text [] p e n v = here refl
Reads-headers_text (h ∷ hs) p e n v = Reads-append _ (Reads-header_text p h e (omega arith) v.0) (
    Reads-headers_text hs (after_header p h) (unfold after_header in refl)
      (unfold after_header in omega arith) v.1)

after_headers-state :
    (hs : List Header) (p : HttpRequestParser)
    → p.state ≡ state_header_line_start
    → (after_headers p hs).state ≡ state_header_line_start
unfolding after_headers after_header
after_headers-state [] p e = e
after_headers-state (h ∷ hs) p e = after_headers-state hs (after_header p h) refl

abbrev pub ending : HttpRequestParser → HttpRequestParser
ending p = record p { state = state_headers_end_lf }

pub end_headers :
    (p : HttpRequestParser) → p.state ≡ state_header_line_start → consume p b'\r' ≡ ending p
unfolding consume_in step_in
end_headers p e = ground arith

end_request : (p : HttpRequestParser) → consume (ending p) b'\n' ≡ record p { state = state_done }
unfolding consume_in step_in
end_request p = ground arith

Reads-text : (r : Request) → IsRequest r → Reads (parsed r) http_parser_init (text r)
unfolding text parsed
Reads-text r v =
    let start = after_request_line r in
    let begun : start.state ≡ state_header_line_start = unfold after_request_line in refl in
    let q = after_headers start r.headers in
    let all = after_headers-state r.headers start begun in
    Reads-append _ (Reads-request_line r v) (
      Reads-append _
        (Reads-headers_text r.headers start begun
          (unfold after_request_line in omega (arith, v.headers_fit)) v.are_headers)
        (next (rw all) (end_headers q all) (next refl (end_request q) (here refl))))

-- The parser reads back every request of the grammar: given its text, whatever follows, it
-- consumes exactly that text and ends complete, with the method, path, version and last header of
-- the request, the number of its headers and the directive of its Connection headers.
pub http_parser_execute-text :
    (r : Request) (rest : Bytes)
    → IsRequest r
    → http_parser_execute http_parser_init (text r ++ rest)
      ≡ some (outcome parse_complete (parsed r) (length (text r)))
unfolding parsed
http_parser_execute-text r rest v =
    http_parser_execute-run http_parser_init (text r ++ rest)
    ∙ ap some (
        run_from-Reads 0 rest (Reads-text r v)
        ∙ run_from_terminal _ (parsed r) rest refl
        ∙ ap (λ n. outcome parse_complete (parsed r) n) (omega arith))
