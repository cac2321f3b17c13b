-- ===== src/HttpParser/Tests.antt =====
-- Requests run through http_parser.c, and its theorems at them.
use c_http_server.Prelude.{
  ℕ, ◌∷◌, [], ◌++◌, Bytes, codes, ◌≡◌, ◌≢◌, refl, some, none, length, drop, arith, ◌&&◌, ◌==◌, leb,
}
use mathlib.Core.Option
use mathlib.Core.List.{flatten}
use c_http_server.HttpParser.{
  HttpRequestParser, http_parser_init, parse_complete, parse_incomplete, HttpParseResult,
  conn_keepalive, HttpConnectionDirective,
}
use c_http_server.HttpParser.Chars.{
  is_method_char, is_path_char, is_header_name_char, is_header_value_char,
}
use c_http_server.HttpParser.Connection.{note_connection_header}
use c_http_server.HttpParser.Execute.{
  Outcome, outcome, http_parser_execute, http_parser_should_keep_alive,
}
use c_http_server.HttpParser.Run.{run, run_from, consume_in, http_parser_execute-run}
use c_http_server.HttpParser.Chunks.{execute_chunks, execute_chunks-flatten}
use c_http_server.HttpParser.Bounds.{InBounds, init-InBounds, http_parser_execute-InBounds}
use c_http_server.HttpParser.Consumed.{Accounts, http_parser_execute-Accounts}
use c_http_server.HttpParser.Directives.{elements, heed_all, note_connection_header-heed_all}
use c_http_server.HttpParser.Grammar.{
  Request, IsRequest, text, request_line, header_text, headers_text, parsed,
}
use c_http_server.HttpParser.RoundTrip.{http_parser_execute-text}
use c_http_server.HttpParser.Sound.{RequestRead, http_parser_execute-RequestRead}
use c_http_server.HttpParser.KeepAlive.{wish_of, wish_or, http_parser_should_keep_alive-parsed}

abbrev request_bytes : Bytes
request_bytes = codes "GET /a HTTP/1.0\r\nHost: x\r\nConnection: close , Keep-Alive \r\n\r\n"

abbrev request : Request
request = record {
  method = codes "GET";
  path = codes "/a";
  major = 1;
  minor = 0;
  headers =
      record { name = codes "Host"; pad = codes " "; value = codes "x" }
      ∷ record { name = codes "Connection"; pad = codes " "; value = codes "close , Keep-Alive " }
      ∷ [];
}

request-IsRequest : IsRequest request
unfolding is_method_char is_path_char is_header_name_char is_header_value_char
request-IsRequest = ground arith

-- What the call on the request returns.
abbrev answer : Outcome
answer = run http_parser_init request_bytes

abbrev summary : Outcome → HttpParseResult × ℕ × Bytes × HttpConnectionDirective
summary o = (o.result, o.consumed, o.parser.path, o.parser.connection_directive)

request_parsed :
    Option.map summary (http_parser_execute http_parser_init (request_bytes ++ codes "GET"))
    ≡ some (parse_complete, length request_bytes, codes "/a", conn_keepalive)
unfolding http_parser_execute
request_parsed = refl

request_text : text request ≡ request_bytes
unfolding text request_line headers_text header_text
request_text = refl

-- A bare LF is refused.
bare_lf_refused :
    Option.map
      (λ (o : Outcome). o.result)
      (http_parser_execute http_parser_init (codes "GET / HTTP/1.1\n"))
    ≡ some HttpParseResult.parse_error
unfolding http_parser_execute
bare_lf_refused = refl

http_parser_execute-text_example :
    http_parser_execute http_parser_init (text request ++ codes "GET")
    ≡ some (outcome parse_complete (parsed request) (length (text request)))
http_parser_execute-text_example = http_parser_execute-text request (codes "GET") request-IsRequest

answer_complete : answer.result ≡ parse_complete
unfolding run_from consume_in http_parser_execute
answer_complete = refl

http_parser_execute-RequestRead_example :
    (q : RequestRead request_bytes) × (answer
      ≡ outcome parse_complete (parsed q.request) (length (text q.request)))
http_parser_execute-RequestRead_example =
    http_parser_execute-RequestRead request_bytes answer
      (http_parser_execute-run http_parser_init request_bytes) answer_complete

execute_chunks-flatten_example :
    execute_chunks http_parser_init (codes "GE" ∷ codes "T / HTTP/1.1\r" ∷ codes "\n\r\nX" ∷ [])
    ≡ http_parser_execute http_parser_init
        (flatten (codes "GE" ∷ codes "T / HTTP/1.1\r" ∷ codes "\n\r\nX" ∷ []))
execute_chunks-flatten_example =
    execute_chunks-flatten http_parser_init
      (codes "GE" ∷ codes "T / HTTP/1.1\r" ∷ codes "\n\r\nX" ∷ [])

http_parser_execute-InBounds_example : InBounds answer.parser
http_parser_execute-InBounds_example =
    http_parser_execute-InBounds http_parser_init request_bytes answer init-InBounds
      (http_parser_execute-run http_parser_init request_bytes)

http_parser_execute-run_example :
    http_parser_execute http_parser_init request_bytes ≡ some (run http_parser_init request_bytes)
http_parser_execute-run_example = http_parser_execute-run http_parser_init request_bytes

http_parser_execute-Accounts_example : Accounts http_parser_init request_bytes answer
http_parser_execute-Accounts_example =
    http_parser_execute-Accounts http_parser_init request_bytes answer
      (http_parser_execute-run http_parser_init request_bytes)

answer_finished : answer.result ≢ parse_incomplete
answer_finished e = cc answer_complete

-- A parser at the LF of a Connection header.
abbrev at_connection : HttpRequestParser
at_connection = record http_parser_init {
  header_line = codes "Connectionclose, x";
  header_name_len = 10;
}

note_connection_header-heed_all_example :
    note_connection_header at_connection ≡ record at_connection {
      connection_directive =
          heed_all at_connection.connection_directive
            (elements (drop at_connection.header_name_len at_connection.header_line));
    }
note_connection_header-heed_all_example = note_connection_header-heed_all at_connection

http_parser_should_keep_alive-parsed_example :
    http_parser_should_keep_alive (parsed request)
    ≡ wish_or (wish_of none request.headers) (request.major == 1 && leb 1 request.minor)
http_parser_should_keep_alive-parsed_example = http_parser_should_keep_alive-parsed request
