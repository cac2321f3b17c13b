-- ===== src/HttpParser.antt =====
-- The data of src/http_parser.h: enumerations, size limits and the parser's state.
-- A character buffer and its length field are the list of the bytes below that length; the NUL
-- that the code keeps behind them is the end of the list. `int` and `size_t` counters are ℕ: all
-- stay below 2 ^ 14, see HttpParser.Bounds.
pub mod Chars
pub mod Connection
pub mod Step
pub mod Execute
pub mod Run
pub mod Chunks
pub mod Bounds
pub mod Consumed
pub mod Directives
pub mod Grammar
pub mod Reads
pub mod RoundTrip
pub mod Sound
pub mod KeepAlive
mod Tests
use c_http_server.Prelude.{ℕ, Bool, true, false, List, [], Bytes}

abbrev pub http_method_max : ℕ
http_method_max = 16

abbrev pub http_path_max : ℕ
http_path_max = 2048

abbrev pub http_header_line_max : ℕ
http_header_line_max = 8192

abbrev pub http_max_headers : ℕ
http_max_headers = 64

-- The size of the `version` buffer.
abbrev pub version_max : ℕ
version_max = 16

pub data HttpMethod : Type 0 where
  method_get method_post method_put method_delete : HttpMethod
  method_head method_options method_patch method_other : HttpMethod

pub data HttpConnectionDirective : Type 0 where
  conn_unspecified conn_close conn_keepalive : HttpConnectionDirective

pub data HttpParseResult : Type 0 where
  parse_incomplete parse_complete parse_error : HttpParseResult

pub data HttpParserState : Type 0 where
  state_method state_path state_version state_request_line_lf : HttpParserState
  state_header_line_start state_header_name state_header_value_sp : HttpParserState
  state_header_value state_header_lf state_headers_end_lf : HttpParserState
  state_done state_error : HttpParserState

pub record HttpRequestParser : Type 0 where
  pub state : HttpParserState
  pub method : Bytes
  pub method_id : HttpMethod
  pub path : Bytes
  pub version : Bytes
  pub http_major : ℕ
  pub http_minor : ℕ
  pub header_line : Bytes
  pub header_name_len : ℕ
  pub header_count : ℕ
  pub connection_directive : HttpConnectionDirective

-- `http_parser_init`: all zero, where 0 is `HTTP_METHOD_GET` and `HTTP_CONN_UNSPECIFIED`.
abbrev pub http_parser_init : HttpRequestParser
http_parser_init = record {
  state = state_method;
  method = [];
  method_id = method_get;
  path = [];
  version = [];
  http_major = 0;
  http_minor = 0;
  header_line = [];
  header_name_len = 0;
  header_count = 0;
  connection_directive = conn_unspecified;
}

-- Whether `http_parser_execute` has finished with this request.
abbrev pub is_terminal : HttpParserState → Bool
is_terminal state_done = true
is_terminal state_error = true
is_terminal _ = false
