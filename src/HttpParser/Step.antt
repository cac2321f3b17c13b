-- ===== src/HttpParser/Step.antt =====
-- The `switch` of `http_parser_execute`: one function for each state, on one byte.
use c_http_server.Prelude.{
  ℕ, ◌+◌, ◌-◌, Bool, true, false, not, ◌||◌, [], ◌∷◌, ◌++◌, Bytes, codes, leb, ◌==◌, if◌then◌else◌,
  length,
}
use c_http_server.HttpParser.{
  http_method_max, http_path_max, http_header_line_max, http_max_headers, version_max,
  HttpParserState, state_method, state_path, state_version, state_request_line_lf,
  state_header_line_start, state_header_name, state_header_value_sp, state_header_value,
  state_header_lf, state_headers_end_lf, state_done, state_error, HttpRequestParser,
}
use c_http_server.HttpParser.Chars.{
  is_method_char, is_path_char, is_header_name_char, is_header_value_char, is_version_char, byte_at,
  is_valid_version, classify_method,
}
use c_http_server.HttpParser.Connection.{header_name_is, note_connection_header}

abbrev pub goto : HttpParserState → HttpRequestParser → HttpRequestParser
goto s p = record p { state = s }

-- `len >= sizeof(buffer) - 1`: no room for a byte and the NUL behind it.
abbrev pub is_full : Bytes → ℕ → Bool
is_full buffer size = leb (size - 1) (length buffer)

unfoldable pub on_method : HttpRequestParser → ℕ → HttpRequestParser
unfolding is_method_char
on_method p c =
    if c == b' '
    then (if length p.method == 0
        then goto state_error p
        else record p { method_id = classify_method p.method; state = state_path })
    else if is_method_char c
    then (if is_full p.method http_method_max
        then goto state_error p
        else record p { method = p.method ++ c ∷ [] })
    else goto state_error p

unfoldable pub on_path : HttpRequestParser → ℕ → HttpRequestParser
unfolding is_path_char
on_path p c =
    if c == b' '
    then (if length p.path == 0 then goto state_error p else goto state_version p)
    else if is_path_char c
    then (if is_full p.path http_path_max
        then goto state_error p
        else record p { path = p.path ++ c ∷ [] })
    else goto state_error p

unfoldable pub on_version : HttpRequestParser → ℕ → HttpRequestParser
on_version p c =
    if c == b'\r'
    then (if not (is_valid_version p.version) then goto state_error p else record p {
      http_major = byte_at p.version 5 - b'0';
      http_minor = byte_at p.version 7 - b'0';
      state = state_request_line_lf;
    })
    else if is_version_char c
    then (if is_full p.version version_max
        then goto state_error p
        else record p { version = p.version ++ c ∷ [] })
    else goto state_error p

unfoldable pub on_header_line_start : HttpRequestParser → ℕ → HttpRequestParser
unfolding is_header_name_char
on_header_line_start p c =
    if c == b'\r'
    then goto state_headers_end_lf p
    else if is_header_name_char c
    then (if leb http_max_headers p.header_count
        then goto state_error p
        else record p { header_line = c ∷ []; state = state_header_name })
    else goto state_error p

unfoldable pub on_header_name : HttpRequestParser → ℕ → HttpRequestParser
unfolding is_header_name_char
on_header_name p c =
    if c == b':'
    then record p { header_name_len = length p.header_line; state = state_header_value_sp }
    else if is_header_name_char c
    then (if is_full p.header_line http_header_line_max
        then goto state_error p
        else record p { header_line = p.header_line ++ c ∷ [] })
    else goto state_error p

unfoldable pub on_header_value : HttpRequestParser → ℕ → HttpRequestParser
unfolding is_header_value_char
on_header_value p c =
    if c == b'\r'
    then goto state_header_lf p
    else if is_header_value_char c
    then (if is_full p.header_line http_header_line_max
        then goto state_error p
        else record p { header_line = p.header_line ++ c ∷ [] })
    else goto state_error p

unfoldable pub on_header_lf : HttpRequestParser → ℕ → HttpRequestParser
on_header_lf p c =
    if c == b'\n'
    then (let q = if header_name_is p (codes "Connection") then note_connection_header p else p in
        record q { header_count = q.header_count + 1; state = state_header_line_start })
    else goto state_error p

-- One run of the `switch`; the flag is `advance`.
unfoldable pub step_in : HttpParserState → HttpRequestParser → ℕ → HttpRequestParser × Bool
unfolding on_method on_path on_version on_header_line_start on_header_name on_header_value
    on_header_lf
step_in state_method p c = (on_method p c, true)
step_in state_path p c = (on_path p c, true)
step_in state_version p c = (on_version p c, true)
step_in state_request_line_lf p c =
    (goto (if c == b'\n' then state_header_line_start else state_error) p, true)
step_in state_header_line_start p c = (on_header_line_start p c, true)
step_in state_header_name p c = (on_header_name p c, true)
step_in state_header_value_sp p c =
    if c == b' ' || c == b'\t' then (p, true) else (goto state_header_value p, false)
step_in state_header_value p c = (on_header_value p c, true)
step_in state_header_lf p c = (on_header_lf p c, true)
step_in state_headers_end_lf p c = (goto (if c == b'\n' then state_done else state_error) p, true)
step_in state_done p c = (p, true)
step_in state_error p c = (p, true)

abbrev pub step : HttpRequestParser → ℕ → HttpRequestParser × Bool
step p c = step_in p.state p c
