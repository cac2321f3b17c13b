-- ===== src/EventLoop/Replies.antt =====
-- The bytes that event_loop.c owes for the requests of a chunk, one response after the other.
pub mod Answered
use c_http_server.Prelude.{
  ℕ, zero, suc, ◌+◌, Bool, Bool-cases, true, false, not, inl, inr, Option, Option-cases, none, some,
  [], ◌∷◌, ◌++◌, Bytes, leb, length, take, drop, append-nil, if◌then◌else◌, ◌≡◌, refl, sym, ◌∙◌, ap,
  ◌&&◌,
}
use mathlib.Core.Path.{subst}
use c_http_server.HttpParser.{
  HttpRequestParser, http_parser_init, parse_incomplete, parse_complete, parse_error,
}
use c_http_server.HttpParser.Execute.{Outcome, http_parser_execute, http_parser_should_keep_alive}
use c_http_server.StaticFiles.Descriptors.{Descriptors, none_open}
use c_http_server.EventLoop.{response_buf_size, Connection, RoutedResponse}
use c_http_server.EventLoop.Routing.{bad_request, route_request}
use c_http_server.EventLoop.Response.{
  internal_error, response_text, set_write_buffer, adopt_file, prepare_response,
}
use c_http_server.EventLoop.Owed.{owed, Owes, Delivers}
use c_http_server.EventLoop.Flush.{Flushed, try_flush_response}
use c_http_server.EventLoop.Delivery.{Flush-cases, try_flush_response-Delivers}
use c_http_server.EventLoop.Serve.{
  Loop, World, After, release_file_body, close_connection, listen_again, finish_after_response_sent,
  file_content, after_flush, send_response, respond,
}
use c_http_server.EventLoop.Steady.{route_request-same}

-- A response as the client sees it, and whether the connection stays. One whose head does not fit
-- is replaced.
abbrev pub does_fit : RoutedResponse → Bool → ℕ → Bool
does_fit r keep_alive worker_id =
    not (leb response_buf_size (length (response_text r keep_alive worker_id)))

abbrev pub file_bytes : Loop → ℕ → Option ℕ → Bytes
file_bytes loop size none = []
file_bytes loop size (some fd) = take size (loop.content fd)

abbrev pub reply : Loop → RoutedResponse → Bool → Bytes
reply loop r keep_alive =
    if does_fit r keep_alive loop.worker_id
    then response_text r keep_alive loop.worker_id ++ file_bytes loop r.file.size r.file.fd
    else internal_error

-- The response to a request that has been parsed.
abbrev pub routed : Loop → HttpRequestParser → RoutedResponse
routed loop p = (route_request loop.kernel loop.g_root p none_open).0

-- The connection stays behind that response.
abbrev pub stays_open : Loop → HttpRequestParser → Bool
stays_open loop p =
    let keep_alive = http_parser_should_keep_alive p in
    keep_alive && does_fit (routed loop p) keep_alive loop.worker_id

-- What follows a response, if the connection stays open behind it.
abbrev pub behind : Bool → Bytes → Bytes
behind true more = more
behind false more = []

-- Behind one call of the parser, `more` being the replies to what is left.
unfoldable pub replies_from : Loop → Bytes → Outcome → Bytes
replies_from loop more o = elim (o.result) [
  | parse_incomplete ↦ []
  | parse_error ↦ reply loop bad_request false
  | parse_complete ↦
      reply loop (routed loop o.parser) (http_parser_should_keep_alive o.parser)
      ++ behind (stays_open loop o.parser) more
]

-- The replies to the requests that end in the input, in their order, up to one behind which the
-- connection is closed. On fuel, one round more than there are bytes.
unfoldable pub replies_in : ℕ → Loop → HttpRequestParser → Bytes → Bytes
replies_in zero loop p input = []
replies_in (suc fuel) loop p [] = []
replies_in (suc fuel) loop p (c ∷ cs) = elim (http_parser_execute p (c ∷ cs)) [
  | none ↦ []
  | some o ↦ replies_from loop (replies_in fuel loop http_parser_init (drop o.consumed (c ∷ cs))) o
]

abbrev pub replies : Loop → HttpRequestParser → Bytes → Bytes
replies loop p input = replies_in (length input + 1) loop p input
