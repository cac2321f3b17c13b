-- ===== src/HttpParser/Execute.antt =====
-- The loop of `http_parser_execute`, and `http_parser_should_keep_alive`.
use c_http_server.Prelude.{
  ℕ, zero, suc, ◌+◌, ◌*◌, Bool, true, false, ◌&&◌, Option, none, some, [], ◌∷◌, Bytes, leb, ◌==◌,
  if◌then◌else◌, length,
}
use c_http_server.HttpParser.{
  conn_unspecified, conn_close, conn_keepalive, HttpConnectionDirective, HttpParseResult,
  parse_incomplete, parse_complete, parse_error, HttpParserState, state_done, state_error,
  HttpRequestParser,
}
use c_http_server.HttpParser.Chars.{is_valid_version, classify_method}
use c_http_server.HttpParser.Connection.{header_name_is, note_connection_header}
use c_http_server.HttpParser.Step.{step_in, step}

-- The returned value, the parser after the call and `*consumed`.
pub record Outcome : Type 0 where
  pub result : HttpParseResult
  pub parser : HttpRequestParser
  pub consumed : ℕ

abbrev pub outcome : HttpParseResult → HttpRequestParser → ℕ → Outcome
outcome r p n = record { result = r; parser = p; consumed = n }

-- The two exit tests at the end of a round, before the loop goes on with the bytes left.
unfoldable pub next_round :
    (HttpRequestParser → Bytes → ℕ → Option Outcome)
    → HttpRequestParser
    → Bytes
    → ℕ
    → Option Outcome
next_round loop q left j = elim q.state [
  | state_error ↦ some (outcome parse_error q j)
  | state_done ↦ some (outcome parse_complete q j)
  | _ ↦ loop q left j
]

-- The loop at `i`, with the bytes from `i` on. `none` means that the fuel ran out.
unfoldable pub execute_loop : ℕ → HttpRequestParser → Bytes → ℕ → Option Outcome
execute_loop zero p bytes i = none
execute_loop (suc fuel) p [] i = some (outcome parse_incomplete p i)
execute_loop (suc fuel) p (c ∷ cs) i =
    let (q, advance) = step p c in
    next_round (execute_loop fuel) q (if advance then cs else c ∷ cs) (if advance then i + 1 else i)

-- The body of the call on the state it is entered in. A byte takes two rounds at most, so twice
-- the length and one round more are enough fuel.
unfoldable pub execute_in : HttpParserState → HttpRequestParser → Bytes → Option Outcome
execute_in state_done p bytes = some (outcome parse_complete p 0)
execute_in state_error p bytes = some (outcome parse_error p 0)
execute_in _ p bytes = execute_loop (2 * length bytes + 1) p bytes 0

unfoldable pub http_parser_execute : HttpRequestParser → Bytes → Option Outcome
unfolding execute_in execute_loop next_round step_in classify_method is_valid_version header_name_is
    note_connection_header
http_parser_execute p bytes = execute_in p.state p bytes

unfoldable pub keep_alive_by : HttpConnectionDirective → HttpRequestParser → Bool
keep_alive_by conn_close p = false
keep_alive_by conn_keepalive p = true
keep_alive_by conn_unspecified p = p.http_major == 1 && leb 1 p.http_minor

unfoldable pub http_parser_should_keep_alive : HttpRequestParser → Bool
unfolding keep_alive_by
http_parser_should_keep_alive p = keep_alive_by p.connection_directive p
