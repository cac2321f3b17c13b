-- ===== src/EventLoop/Tests/Serving.antt =====
-- The theorems on serving connections at concrete ones.
use c_http_server.Prelude.{true, none, List, [], ◌∷◌, ◌++◌, Bytes, codes, refl}
use c_http_server.HttpParser.{http_parser_init}
use c_http_server.StaticFiles.Descriptors.{holding, none_open}
use c_http_server.EventLoop.{Connection}
use c_http_server.EventLoop.Flush.{takes, would_block}
use c_http_server.EventLoop.Serve.{Loop, World, process_input}
use c_http_server.EventLoop.Outcomes.{IsReading, HandlesInput}
use c_http_server.EventLoop.Handles.{process_input-Handles}
use c_http_server.EventLoop.Handlers.{
  Read, got, read_interrupted, end_of_stream, flush_pending_write,
}
use c_http_server.EventLoop.Wakeups.{HandlesStash, IsPaused, flush_pending_write-Handles}
use c_http_server.EventLoop.Owed.{owed}
use c_http_server.EventLoop.Replies.{replies}
use c_http_server.EventLoop.Sends.{Sends}
use c_http_server.EventLoop.Pipeline.{process_input-Sends}
use c_http_server.EventLoop.Resumes.{later, flush_pending_write-Sends}
use c_http_server.EventLoop.Tests.{one_file, sending}

-- A connection that has just been accepted, and a system whose socket takes what it is given.
abbrev accepted_conn : Connection
accepted_conn = record sending { write_buf = []; file_fd = none; file_size = 0 }

abbrev pub test_loop : Loop
test_loop = record {
  kernel = one_file;
  g_root = codes "/srv";
  worker_id = 3;
  content = λ fd. codes "world";
  mod_ok = λ n. true;
  clock = λ n. n;
}

abbrev fresh_world : World
fresh_world = record {
  wire = [];
  answers = takes 500 ∷ would_block ∷ takes 500 ∷ takes 500 ∷ [];
  descriptors = holding 5 (holding 3 none_open);
  mods = 0;
  times = 0;
}

accepted-IsReading : IsReading (holding 3 none_open) accepted_conn fresh_world
accepted-IsReading = record { reading = refl; no_file = refl; live = refl; owns = refl }

abbrev pub two_requests : Bytes
two_requests = codes "GET /hello HTTP/1.1\r\n\r\nGET / HTTP/1.1\r\n\r\nGET"

process_input-Handles_example :
    HandlesInput
      (holding 3 none_open)
      5
      http_parser_init
      two_requests
      (process_input test_loop accepted_conn two_requests fresh_world)
process_input-Handles_example =
    process_input-Handles (holding 3 none_open) test_loop accepted_conn two_requests fresh_world
      accepted-IsReading

abbrev test_reads : List Read
test_reads = got two_requests ∷ read_interrupted ∷ end_of_stream ∷ []

abbrev stalled_conn : Connection
stalled_conn = record sending {
  awaiting_writable = true;
  pending_input = codes "GET / HTTP/1.1\r\n\r\nGE";
}

abbrev stalled_world : World
stalled_world = record fresh_world {
  answers = takes 500 ∷ takes 500 ∷ takes 500 ∷ [];
  descriptors = holding 7 (holding 5 (holding 3 none_open));
}

stalled-IsPaused : IsPaused (holding 3 none_open) stalled_conn stalled_world
stalled-IsPaused = record { writing = refl; owns = refl }

flush_pending_write-Handles_example :
    HandlesStash
      (holding 3 none_open)
      stalled_conn
      (flush_pending_write test_loop stalled_conn stalled_world)
flush_pending_write-Handles_example =
    flush_pending_write-Handles (holding 3 none_open) test_loop stalled_conn stalled_world
      stalled-IsPaused

process_input-Sends_example :
    Sends test_loop accepted_conn.parser two_requests
      (replies test_loop accepted_conn.parser two_requests)
      []
      (process_input test_loop accepted_conn two_requests fresh_world)
process_input-Sends_example =
    process_input-Sends test_loop accepted_conn two_requests fresh_world refl refl refl

flush_pending_write-Sends_example :
    Sends test_loop http_parser_init stalled_conn.pending_input
      (owed (codes "world") stalled_conn ++ later test_loop true stalled_conn.pending_input)
      []
      (flush_pending_write test_loop stalled_conn stalled_world)
flush_pending_write-Sends_example =
    flush_pending_write-Sends test_loop stalled_conn stalled_world refl
