-- ===== src/EventLoop/Outcomes.antt =====
-- The states that the handlers of event_loop.c leave a connection in, with its input.
use c_http_server.Prelude.{ℕ, true, false, ◌⊎◌, inl, inr, none, [], Bytes, ◌≡◌, ◌≢◌, refl, drop}
use c_http_server.HttpParser.{
  HttpRequestParser, http_parser_init, is_terminal, HttpParseResult, parse_incomplete,
  parse_complete, parse_error,
}
use c_http_server.HttpParser.Run.{run}
use c_http_server.StaticFiles.Descriptors.{Descriptors}
use c_http_server.EventLoop.{Connection}
use c_http_server.EventLoop.Serve.{World, After, Progress, returns, waits}
use c_http_server.EventLoop.Owns.{Owns}

-- A connection between two chunks: its parser can go on, it sends nothing, and it holds its socket.
pub record IsReading (base : Descriptors) (conn : Connection) (w : World) : Type 0 where
  pub reading : conn.awaiting_writable ≡ false
  pub no_file : conn.file_fd ≡ none
  pub live : is_terminal conn.parser.state ≡ false
  pub owns : Owns base conn w

-- `left` is what follows the last of one or more requests at the beginning of `input`. The parser
-- `p` ends the first, and a fresh parser each of the others; only the last may end in error.
pub data Behind (left : Bytes) : HttpRequestParser → Bytes → Type 0 where
  behind_one :
      {p : HttpRequestParser} {input : Bytes}
      → (run p input).result ≢ parse_incomplete
      → left ≡ drop (run p input).consumed input
      → Behind left p input
  behind_more :
      {p : HttpRequestParser} {input : Bytes}
      → (run p input).result ≡ parse_complete
      → Behind left http_parser_init (drop (run p input).consumed input)
      → Behind left p input

-- `q` is the parser that all of `input` leaves, where `p` reads the first request.
pub data ReadsTo (q : HttpRequestParser) : HttpRequestParser → Bytes → Type 0 where
  nothing_read : {p : HttpRequestParser} → q ≡ p → ReadsTo q p []
  part_read :
      {p : HttpRequestParser} {input : Bytes}
      → (run p input).result ≡ parse_incomplete
      → q ≡ (run p input).parser
      → ReadsTo q p input
  one_read :
      {p : HttpRequestParser} {input : Bytes}
      → (run p input).result ≡ parse_complete
      → ReadsTo q http_parser_init (drop (run p input).consumed input)
      → ReadsTo q p input

-- Behind a handler: closed, with nothing of its own open; or paused on a response, as `Paused`
-- says; or reading, as `Reading` says.
pub data Handled (base : Descriptors) (fd : ℕ) (Paused Reading : Connection → Type 0) (a : After)
    : Type 0 where
  ended : a.alive ≡ false → a.world.descriptors ≡ base → Handled base fd Paused Reading a
  paused :
      a.alive ≡ true
      → a.conn.awaiting_writable ≡ true
      → a.conn.fd ≡ fd
      → Owns base a.conn a.world
      → Paused a.conn
      → Handled base fd Paused Reading a
  reads_on :
      a.alive ≡ true
      → a.conn.fd ≡ fd
      → IsReading base a.conn a.world
      → Reading a.conn
      → Handled base fd Paused Reading a

-- It returns so, or waits for the kernel to answer a transfer.
pub data Handles (base : Descriptors) (fd : ℕ) (Paused Reading : Connection → Type 0)
    : Progress → Type 0 where
  handled :
      (a : After) → Handled base fd Paused Reading a → Handles base fd Paused Reading (returns a)
  unanswered : Handles base fd Paused Reading waits

-- As the input: what is behind its requests is stashed, or all of it has been parsed.
abbrev pub HandlesInput : Descriptors → ℕ → HttpRequestParser → Bytes → Progress → Type 0
HandlesInput base fd p input =
    Handles base fd (λ c. Behind c.pending_input p input) (λ c. ReadsTo c.parser p input)

pub Handles-map :
    (base : Descriptors) (fd : ℕ) (P Q P' Q' : Connection → Type 0) (run : Progress)
    → ((c : Connection) → P c → P' c)
    → ((c : Connection) → Q c → Q' c)
    → Handles base fd P Q run
    → Handles base fd P' Q' run
Handles-map base fd P Q P' Q' _ f g (handled a (ended d o)) = handled a (ended d o)
Handles-map base fd P Q P' Q' _ f g (handled a (paused l s n o x)) =
    handled a (paused l s n o (f a.conn x))
Handles-map base fd P Q P' Q' _ f g (handled a (reads_on l n r x)) =
    handled a (reads_on l n r (g a.conn x))
Handles-map base fd P Q P' Q' _ f g unanswered = unanswered

pub result-cases :
    (r : HttpParseResult) → (r ≡ parse_incomplete) ⊎ ((r ≡ parse_complete) ⊎ (r ≡ parse_error))
result-cases parse_incomplete = inl refl
result-cases parse_complete = inr (inl refl)
result-cases parse_error = inr (inr refl)
