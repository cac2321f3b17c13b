-- ===== src/HttpParser/Bounds.antt =====
-- The fixed-size buffers of the parser in http_parser.h and the writes of http_parser.c to them.
use c_http_server.Prelude.{
  NoNul, ℕ, ◌+◌, ◌≤◌, ◌<◌, Bool-cases, ◌==◌, codes, some, [], ◌∷◌, ◌++◌, Bytes, ◌≡◌, refl, inl, inr,
  arith, length, length-append,
}
use c_http_server.HttpParser.{
  is_terminal, http_method_max, http_path_max, http_header_line_max, http_max_headers, version_max,
  HttpParserState, state_method, state_path, state_version, state_header_line_start,
  state_header_name, state_header_value_sp, state_header_value, state_header_lf, HttpRequestParser,
  http_parser_init,
}
use c_http_server.HttpParser.Connection.{header_name_is, note_connection_header}
use c_http_server.HttpParser.Step.{on_header_lf, step_in, goto}
use c_http_server.HttpParser.Execute.{Outcome, http_parser_execute}
use c_http_server.HttpParser.Run.{consume_in, consume, run_from, run, http_parser_execute-run}

-- The headers counted so far, with the one that is being read.
abbrev headers_begun : HttpParserState → ℕ → ℕ
headers_begun state_header_name n = n + 1
headers_begun state_header_value_sp n = n + 1
headers_begun state_header_value n = n + 1
headers_begun state_header_lf n = n + 1
headers_begun _ n = n

-- Where the value of a header is being read, its start lies inside the line.
abbrev CursorInside : HttpParserState → ℕ → ℕ → Type 0
CursorInside state_header_value_sp start len = start ≤ len
CursorInside state_header_value start len = start ≤ len
CursorInside state_header_lf start len = start ≤ len
CursorInside _ start len = Unit

-- Every buffer has room for the NUL behind its bytes.
pub record InBounds (p : HttpRequestParser) : Type 0 where
  pub method_fits : length p.method < http_method_max
  pub path_fits : length p.path < http_path_max
  pub version_fits : length p.version < version_max
  pub line_fits : length p.header_line < http_header_line_max
  pub no_nul : NoNul p.header_line
  pub name_fits : p.header_name_len < http_header_line_max
  pub cursor_inside : CursorInside p.state p.header_name_len (length p.header_line)
  pub count_fits : headers_begun p.state p.header_count ≤ http_max_headers

NoNul-concat : (xs : Bytes) (c : ℕ) → NoNul xs → 0 < c → NoNul (xs ++ c ∷ [])
NoNul-concat [] c h k = (k, tt)
NoNul-concat (x ∷ xs) c h k = (h.0, NoNul-concat xs c h.1 k)

noted-InBounds :
    (p : HttpRequestParser)
    → p.state ≡ state_header_lf
    → InBounds p
    → InBounds (record (note_connection_header p) {
      header_count = (note_connection_header p).header_count + 1;
      state = state_header_line_start;
    })
unfolding note_connection_header
noted-InBounds p e b = record {
  method_fits = b.method_fits;
  path_fits = b.path_fits;
  version_fits = b.version_fits;
  line_fits = b.line_fits;
  no_nul = b.no_nul;
  name_fits = b.name_fits;
  cursor_inside = tt;
  count_fits = rw e at b.count_fits;
}

on_header_lf-InBounds :
    (p : HttpRequestParser) (c : ℕ)
    → p.state ≡ state_header_lf
    → InBounds p
    → InBounds (on_header_lf p c)
on_header_lf-InBounds p c e b = elim (Bool-cases (c == b'\n')) [
  | inl lf ↦ elim (Bool-cases (header_name_is p (codes "Connection"))) [
    | inl named ↦ unfold on_header_lf in rw (lf, named) (noted-InBounds p e b)
    | inr other ↦ unfold on_header_lf in rw (lf, other) ground arith
  ]
  | inr bad ↦ unfold on_header_lf in ground arith
]

step_in-InBounds :
    (s : HttpParserState) (p : HttpRequestParser) (c : ℕ)
    → p.state ≡ s
    → InBounds p
    → InBounds (step_in s p c).0
unfolding step_in
step_in-InBounds state_method p c e b = ground (arith, length-append p.method (c ∷ []))
step_in-InBounds state_path p c e b = ground (arith, length-append p.path (c ∷ []))
step_in-InBounds state_version p c e b = ground (arith, length-append p.version (c ∷ []))
step_in-InBounds state_header_line_start p c e b = ground arith
step_in-InBounds state_header_name p c e b =
    ground (arith, length-append p.header_line (c ∷ []), NoNul-concat p.header_line c)
step_in-InBounds state_header_value p c e b =
    ground (arith, length-append p.header_line (c ∷ []), NoNul-concat p.header_line c)
step_in-InBounds state_header_lf p c e b = on_header_lf-InBounds p c e b
step_in-InBounds _ p c e b = ground arith

consume_in-InBounds :
    (s : HttpParserState) (p : HttpRequestParser) (c : ℕ)
    → p.state ≡ s
    → InBounds p
    → InBounds (consume_in s p c)
unfolding consume_in
consume_in-InBounds state_header_value_sp p c e b =
    let moved : InBounds (goto state_header_value p) = ground arith in
    let ran = step_in-InBounds state_header_value (goto state_header_value p) c refl moved in
    unfold step_in in ground (arith, ran)
consume_in-InBounds state_method p c e b = step_in-InBounds state_method p c e b
consume_in-InBounds _ p c e b = step_in-InBounds _ p c e b

run_from-InBounds :
    (i : ℕ) (p : HttpRequestParser) (bytes : Bytes)
    → InBounds p
    → InBounds (run_from i p bytes).parser
unfolding run_from
run_from-InBounds i p [] b = b
run_from-InBounds i p (c ∷ cs) b = elim (Bool-cases (is_terminal p.state)) [
  | inl stop ↦ simp stop b
  | inr live ↦
      simp live
        (run_from-InBounds (i + 1) (consume p c) cs (consume_in-InBounds p.state p c refl b))
]

pub init-InBounds : InBounds http_parser_init
init-InBounds = omega arith

-- No input makes the parser write past one of its buffers: if each buffer of a parser has room for
-- its bytes and the NUL behind them, the header line holds no NUL of its own, a header value being
-- read starts inside the line, and at most 64 headers have begun, the same holds after any call.
pub http_parser_execute-InBounds :
    (p : HttpRequestParser) (bytes : Bytes) (o : Outcome)
    → InBounds p
    → http_parser_execute p bytes ≡ some o
    → InBounds o.parser
http_parser_execute-InBounds p bytes o b e =
    let same : run p bytes ≡ o = cc (http_parser_execute-run p bytes) in
    rw same at (run_from-InBounds 0 p bytes b)
