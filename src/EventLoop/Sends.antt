-- ===== src/EventLoop/Sends.antt =====
-- What `process_input` and `flush_pending_write` of event_loop.c have put on the socket, and what
-- they still owe.
use c_http_server.Prelude.{none, true, false, [], ◌++◌, Bytes, append_assoc, ◌≡◌, sym, ◌∙◌, ap}
use c_http_server.HttpParser.{HttpRequestParser, http_parser_init, is_terminal}
use c_http_server.EventLoop.Owed.{owed}
use c_http_server.EventLoop.Serve.{Loop, After, Progress, returns, waits, file_content}
use c_http_server.EventLoop.Replies.{behind, replies}
use c_http_server.EventLoop.Streams.{Reads}

-- What is still to come when `process_input` returns: nothing, where the connection reads on with
-- the parser that has answered the input; the rest of a response that is blocked, and the replies
-- to the stashed input if the connection stays open behind it; or it was closed.
pub data StillOwes (loop : Loop) (p : HttpRequestParser) (input : Bytes) (a : After) (rest : Bytes)
    : Type 0 where
  all_sent :
      a.alive ≡ true
      → a.conn.awaiting_writable ≡ false
      → a.conn.file_fd ≡ none
      → is_terminal a.conn.parser.state ≡ false
      → Reads loop p input a.conn.parser
      → rest ≡ []
      → StillOwes loop p input a rest
  to_send :
      a.alive ≡ true
      → a.conn.awaiting_writable ≡ true
      → rest
        ≡ owed (file_content loop a.conn.file_fd) a.conn
          ++ behind a.conn.keep_alive_after_write
              (replies loop http_parser_init a.conn.pending_input)
      → StillOwes loop p input a rest
  given_up : a.alive ≡ false → StillOwes loop p input a rest

-- What was put on the socket and what is still to come are `total`, behind what was there.
pub data Sends (loop : Loop) (p : HttpRequestParser) (input total wire : Bytes)
    : Progress → Type 0 where
  sends :
      (a : After) (rest : Bytes)
      → a.world.wire ++ rest ≡ wire ++ total
      → StillOwes loop p input a rest
      → Sends loop p input total wire (returns a)
  not_answered : Sends loop p input total wire waits

pub joined :
    (out rest wire total more : Bytes)
    → out ++ rest ≡ wire ++ total
    → out ++ (rest ++ more) ≡ wire ++ (total ++ more)
joined out rest wire total more e =
    sym (append_assoc out rest more) ∙ ap (λ x. x ++ more) e ∙ append_assoc wire total more

-- What follows other requests.
pub Sends-from :
    (loop : Loop) (p p' : HttpRequestParser) (input input' total total' wire wire' : Bytes)
    (run : Progress)
    → ((q : HttpRequestParser) → Reads loop p input q → Reads loop p' input' q)
    → wire ++ total ≡ wire' ++ total'
    → Sends loop p input total wire run
    → Sends loop p' input' total' wire' run
Sends-from loop p p' input input' total total' wire wire' _ longer same
      (sends a rest e (all_sent live reading no_fd goes_on reads none_left)) =
    sends a rest (e ∙ same)
      (all_sent live reading no_fd goes_on (longer a.conn.parser reads) none_left)
Sends-from loop p p' input input' total total' wire wire' _ longer same
      (sends a rest e (to_send live writing owes)) =
    sends a rest (e ∙ same) (to_send live writing owes)
Sends-from loop p p' input input' total total' wire wire' _ longer same
      (sends a rest e (given_up dead)) =
    sends a rest (e ∙ same) (given_up dead)
Sends-from loop p p' input input' total total' wire wire' _ longer same not_answered = not_answered
