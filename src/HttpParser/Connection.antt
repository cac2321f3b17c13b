-- ===== src/HttpParser/Connection.antt =====
-- `header_name_is` and `note_connection_header` of http_parser.c. A cursor into the header line
-- is the list of the bytes from it up to the NUL.
use c_http_server.Prelude.{
  ℕ, zero, suc, Bool, ◌&&◌, ◌||◌, [], ◌∷◌, Bytes, codes, ◌==◌, if◌then◌else◌, length, drop,
  strncasecmp_is_zero,
}
use c_http_server.HttpParser.{
  HttpConnectionDirective, conn_close, conn_keepalive, HttpRequestParser,
}

unfoldable pub header_name_is : HttpRequestParser → Bytes → Bool
unfolding strncasecmp_is_zero
header_name_is p name =
    p.header_name_len == length name && strncasecmp_is_zero (length name) p.header_line name

abbrev pub is_blank : ℕ → Bool
is_blank c = c == b' ' || c == b'\t'

-- The loop over blanks and commas before a token.
unfoldable pub skip_separators : Bytes → Bytes
skip_separators [] = []
skip_separators (c ∷ cs) = if is_blank c || c == b',' then skip_separators cs else c ∷ cs

-- The token from `tok_start` up to the next comma, and the cursor behind it.
unfoldable pub token : Bytes → Bytes
token [] = []
token (c ∷ cs) = if c == b',' then [] else c ∷ token cs

unfoldable pub after_token : Bytes → Bytes
after_token [] = []
after_token (c ∷ cs) = if c == b',' then c ∷ cs else after_token cs

-- Moving `tok_end` back over trailing blanks.
unfoldable pub trim_end : Bytes → Bytes
trim_end [] = []
trim_end (c ∷ cs) =
    let rest = trim_end cs in
    elim rest [ [] ↦ if is_blank c then [] else c ∷ [] | d ∷ ds ↦ c ∷ d ∷ ds ]

-- What one token does to the directive.
unfoldable pub note_token : HttpConnectionDirective → Bytes → HttpConnectionDirective
unfolding strncasecmp_is_zero
note_token directive tok =
    if length tok == 5 && strncasecmp_is_zero 5 tok (codes "close")
    then conn_close
    else if length tok == 10 && strncasecmp_is_zero 10 tok (codes "keep-alive")
    then conn_keepalive
    else directive

-- The outer loop, on fuel. Every round takes at least one byte: see HttpParser.Directives.
unfoldable pub scan_tokens : ℕ → Bytes → HttpConnectionDirective → HttpConnectionDirective
unfolding skip_separators token after_token trim_end note_token
scan_tokens zero cursor directive = directive
scan_tokens (suc fuel) cursor directive = elim (skip_separators cursor) [
  | [] ↦ directive
  | c ∷ cs ↦
      scan_tokens fuel (after_token (c ∷ cs)) (note_token directive (trim_end (token (c ∷ cs))))
]

unfoldable pub note_connection_header : HttpRequestParser → HttpRequestParser
unfolding scan_tokens
note_connection_header p =
    let value = drop p.header_name_len p.header_line in
    record p {
      connection_directive = scan_tokens (suc (length value)) value p.connection_directive;
    }
