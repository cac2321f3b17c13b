-- ===== src/EventLoop/Tests.antt =====
-- Responses of event_loop.c at concrete requests, and its theorems at them.
mod Serving
mod Runs
mod Lists
use c_http_server.Prelude.{
  ℕ, true, false, Option, some, List, [], ◌∷◌, Bytes, codes, ◌≡◌, refl, arith, memcmp_is_zero,
}
use mathlib.Core.Option
use c_http_server.HttpParser.{HttpRequestParser, http_parser_init, method_post}
use c_http_server.StaticFiles.Descriptors.{none_open}
use c_http_server.StaticFiles.Open.{Kernel}
use c_http_server.EventLoop.{Connection}
use c_http_server.EventLoop.Routing.{route_request, path_is, before_query}
use c_http_server.EventLoop.Routes.{Routes, route_request-Routes}
use c_http_server.EventLoop.Response.{prepare_response, response_text, build_response, digits}
use c_http_server.EventLoop.Fits.{SizesFit, filled, prepare_response-filled}
use c_http_server.EventLoop.Flush.{
  Transfer, takes, interrupted, would_block, Flush, blocked, Flushed, try_flush_response,
  try_flush_write_buffer, then_body, try_sendfile_body,
}
use c_http_server.EventLoop.Delivery.{try_flush_response-Delivers}
use c_http_server.EventLoop.Returns.{try_flush_response-returns}
use c_http_server.EventLoop.Owed.{Delivers}

-- A file system with one file of five bytes.
abbrev pub one_file : Kernel
one_file = record {
  answer_open = λ path. some 7;
  answer_readlink = λ fd. some (codes "/srv/a.txt");
  answer_fstat = λ fd. some (record { is_reg = true; is_dir = false; st_size = 5 });
  answer_realpath = λ path. some path;
  answer_stat = λ path. some (record { is_reg = false; is_dir = true; st_size = 0 });
}

one_file-SizesFit : SizesFit one_file
one_file-SizesFit fd st e = let size : st.st_size ≡ 5 = cc e in omega (arith, size)

abbrev file_request : HttpRequestParser
file_request = record http_parser_init { path = codes "/a.txt?v=1" }

-- A connection that has a head of four bytes and a file of five to send.
abbrev pub sending : Connection
sending = record {
  fd = 5;
  parser = http_parser_init;
  write_buf = codes "head";
  write_sent = 0;
  keep_alive_after_write = true;
  awaiting_writable = false;
  file_fd = some 7;
  file_offset = 0;
  file_size = 5;
  pending_input = [];
  last_activity = 0;
}

abbrev answers : List Transfer
answers = takes 3 ∷ interrupted ∷ takes 9 ∷ takes 2 ∷ would_block ∷ takes 1 ∷ []

abbrev sent : Option Flushed
sent = try_flush_response (codes "world") answers sending []

abbrev state_of : Flushed → Flush × Bytes × ℕ
state_of f = (f.flush, f.wire, f.conn.file_offset)

partly_sent : Option.map state_of sent ≡ some (blocked, codes "headwo", 2)
unfolding try_flush_response try_flush_write_buffer then_body try_sendfile_body
partly_sent = refl

hello_text :
    response_text
      (route_request one_file
        (codes "/srv")
        (record http_parser_init { path = codes "/hello?x=1"; method_id = method_post })
        none_open).0
      true
      3
    ≡ codes
        "HTTP/1.1 405 Method Not Allowed\r\nContent-Type: text/plain\r\nContent-Length: 18\r\nX-Worker: 3\r\nAllow: GET\r\nConnection: keep-alive\r\n\r\nMethod Not Allowed"
unfolding route_request path_is before_query memcmp_is_zero response_text build_response digits
hello_text = refl

try_flush_response-returns_example :
    (f : Flushed) × (try_flush_response
        (codes "world")
        (takes 9
          ∷ takes 9
          ∷ takes 9
          ∷ takes 9
          ∷ takes 9
          ∷ takes 9
          ∷ takes 9
          ∷ takes 9
          ∷ takes 9
          ∷ [])
        sending
        []
      ≡ some f)
try_flush_response-returns_example =
    try_flush_response-returns (codes "world")
      (takes 9 ∷ takes 9 ∷ takes 9 ∷ takes 9 ∷ takes 9 ∷ takes 9 ∷ takes 9 ∷ takes 9 ∷ takes 9 ∷ [])
      sending [] (omega arith)

abbrev half_sent : Flushed
half_sent = record {
  flush = blocked;
  conn = record sending { write_sent = 4; file_offset = 2 };
  wire = codes "headwo";
  answers = takes 1 ∷ [];
}

sent_half : try_flush_response (codes "world") answers sending [] ≡ some half_sent
unfolding try_flush_response try_flush_write_buffer then_body try_sendfile_body
sent_half = refl

try_flush_response-Delivers_example : Delivers (codes "world") sending [] half_sent
try_flush_response-Delivers_example =
    try_flush_response-Delivers (codes "world") answers sending [] half_sent sent_half

route_request-Routes_example :
    Routes one_file
      (codes "/srv")
      file_request
      none_open
      (route_request one_file (codes "/srv") file_request none_open)
route_request-Routes_example = route_request-Routes one_file (codes "/srv") file_request none_open

prepare_response-filled_example :
    prepare_response sending
      (route_request one_file (codes "/srv") file_request none_open).0
      true
      3
      (route_request one_file (codes "/srv") file_request none_open).1
    ≡ (
      filled sending (route_request one_file (codes "/srv") file_request none_open).0 true 3,
      (route_request one_file (codes "/srv") file_request none_open).1,
    )
prepare_response-filled_example =
    prepare_response-filled one_file (codes "/srv") file_request none_open sending true 3
      one_file-SizesFit (omega arith)
