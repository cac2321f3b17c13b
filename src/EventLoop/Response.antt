-- ===== src/EventLoop/Response.antt =====
-- Building a response in the write buffer: the two builders of event_loop.c, `set_write_buffer`
-- and `prepare_response`. What `snprintf` returns is the length of the whole text; what it stores
-- is read only where that length fits, so the builders give the text.
use c_http_server.Prelude.{
  ℕ, zero, suc, ◌+◌, ◌/◌, ◌%◌, Bool, false, Option, none, some, [], ◌∷◌, ◌++◌, Bytes, codes, leb,
  ltb, if◌then◌else◌, length,
}
use c_http_server.StaticFiles.Descriptors.{Descriptors}
use c_http_server.StaticFiles.Open.{static_file_close}
use c_http_server.EventLoop.{response_buf_size, Connection, RoutedResponse}

-- `%d`, `%zu` and `%jd` of a natural number, the digits in front of `acc`. Every round takes a
-- digit, and a number has at most as many digits as its value plus one.
unfoldable pub digits : ℕ → ℕ → Bytes → Bytes
digits zero n acc = acc
digits (suc fuel) n acc =
    let rest = digits fuel (n / 10) ((b'0' + n % 10) ∷ acc) in
    if ltb n 10 then (b'0' + n) ∷ acc else rest

abbrev pub decimal : ℕ → Bytes
decimal n = digits (n + 1) n []

-- `%s` of a pointer that may be `NULL`; the callers print "" for a missing header line and never
-- print another `NULL`.
abbrev pub text_or_empty : Option Bytes → Bytes
text_or_empty none = []
text_or_empty (some s) = s

-- The lines that both builders begin with.
abbrev pub head_lines : RoutedResponse → ℕ → ℕ → Bytes
head_lines r content_length worker_id =
    codes "HTTP/1.1 "
    ++ decimal r.status
    ++ codes " "
    ++ r.reason
    ++ codes "\r\nContent-Type: "
    ++ text_or_empty r.content_type
    ++ codes "\r\nContent-Length: "
    ++ decimal content_length
    ++ codes "\r\nX-Worker: "
    ++ decimal worker_id
    ++ codes "\r\n"

unfoldable pub build_response : RoutedResponse → Bytes → ℕ → Bytes
build_response r connection_value worker_id =
    let body = text_or_empty r.body in
    head_lines r (length body) worker_id
    ++ text_or_empty r.extra_header
    ++ codes "Connection: "
    ++ connection_value
    ++ codes "\r\n\r\n"
    ++ body

unfoldable pub build_file_response_head : RoutedResponse → Bytes → ℕ → Bytes
build_file_response_head r connection_value worker_id =
    head_lines r r.file.size worker_id
    ++ codes "Connection: "
    ++ connection_value
    ++ codes "\r\n\r\n"

-- `none` is the answer false, where the text does not fit with a NUL behind it.
unfoldable pub set_write_buffer : Connection → Bytes → Option Connection
set_write_buffer conn written =
    if leb response_buf_size (length written)
    then none
    else some (record conn { write_buf = written; write_sent = 0 })

abbrev pub internal_error : Bytes
internal_error =
    codes "HTTP/1.1 500 Internal Server Error\r\nContent-Type: text/plain\r\n"
    ++ codes "Content-Length: 21\r\nConnection: close\r\n\r\nInternal Server Error"

-- The text of the response `r`.
unfoldable pub response_text : RoutedResponse → Bool → ℕ → Bytes
response_text r keep_alive worker_id =
    let connection_value = if keep_alive then codes "keep-alive" else codes "close" in
    elim (r.file.fd) [
      | some fd ↦ build_file_response_head r connection_value worker_id
      | none ↦ build_response r connection_value worker_id
    ]

-- Taking over the file of the response, where it has one.
unfoldable pub adopt_file : RoutedResponse → Connection → Connection
adopt_file r conn = elim (r.file.fd) [
  | some fd ↦ record conn { file_fd = some fd; file_offset = 0; file_size = r.file.size }
  | none ↦ conn
]

-- The connection and the descriptors after the call.
unfoldable pub prepare_response :
    Connection → RoutedResponse → Bool → ℕ → Descriptors → Connection × Descriptors
prepare_response conn r keep_alive worker_id ds =
    elim (set_write_buffer (record conn { keep_alive_after_write = keep_alive })
      (response_text r keep_alive worker_id)) [
        | none ↦ (
          record conn {
            write_buf = internal_error;
            write_sent = 0;
            keep_alive_after_write = false;
          },
          (static_file_close r.file ds).1,
        )
        | some filled ↦ (adopt_file r filled, ds)
      ]
