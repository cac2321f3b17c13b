-- ===== src/HttpParser/RoundTrip/HeaderLine.antt =====
-- A header line of http_parser.c.
use c_http_server.Prelude.{
  ℕ, ◌+◌, ◌<◌, true, false, ◌&&◌, [], ◌∷◌, ◌++◌, Bytes, codes, ◌≡◌, ◌≢◌, refl, ◌∙◌, arith, length,
  drop, ◌==◌, map, to_lower, strncasecmp_is_zero, inl, inr, Bool-cases,
}
use c_http_server.HttpParser.{
  http_header_line_max, http_max_headers, state_header_line_start, state_header_name,
  state_header_value_sp, state_header_value, state_header_lf, HttpRequestParser,
}
use c_http_server.HttpParser.Chars.{is_header_name_char, is_header_value_char}
use c_http_server.HttpParser.Connection.{is_blank, header_name_is}
use c_http_server.HttpParser.Step.{step_in}
use c_http_server.HttpParser.Run.{consume_in, consume}
use c_http_server.HttpParser.Directives.{
  same_bytes, strncasecmp-same_bytes, note_connection_header-heed_all,
}
use c_http_server.HttpParser.Grammar.{
  Header, IsHeader, AllPass, StartsValue, header_text, crlf, directive_after, after_header,
}
use c_http_server.HttpParser.Reads.{Reads, here, next, Reads-append, Reads-push}

drop-append : (xs ys : Bytes) → drop (length xs) (xs ++ ys) ≡ ys
drop-append [] ys = refl
drop-append (x ∷ xs) ys = drop-append xs ys

-- The name is compared on its own length, so the value behind it in the buffer does not count.
strncasecmp-append :
    (a v b : Bytes)
    → (length a == length b && strncasecmp_is_zero (length b) (a ++ v) b)
      ≡ (length a == length b && strncasecmp_is_zero (length b) a b)
unfolding strncasecmp_is_zero
strncasecmp-append [] v [] = refl
strncasecmp-append [] v (y ∷ b) = ground arith
strncasecmp-append (x ∷ a) v [] = refl
strncasecmp-append (x ∷ a) v (y ∷ b) = ground (arith, strncasecmp-append a v b)

pub header_name_is-same_bytes :
    (p : HttpRequestParser) (name value key : Bytes)
    → p.header_line ≡ name ++ value
    → p.header_name_len ≡ length name
    → header_name_is p key ≡ same_bytes (map to_lower name) (map to_lower key)
unfolding header_name_is
header_name_is-same_bytes p name value key e f =
    simp (e, f) (strncasecmp-append name value key ∙ strncasecmp-same_bytes name key)

module _ (p : HttpRequestParser) where
  abbrev pub at_name : Bytes → HttpRequestParser
  at_name b = record p { state = state_header_name; header_line = b }

  abbrev pub at_pad : Bytes → HttpRequestParser
  at_pad name = record p {
    state = state_header_value_sp;
    header_line = name;
    header_name_len = length name;
  }

  abbrev pub at_value : Bytes → Bytes → HttpRequestParser
  at_value name b = record p {
    state = state_header_value;
    header_line = b;
    header_name_len = length name;
  }

  abbrev pub at_lf : Bytes → Bytes → HttpRequestParser
  at_lf name b = record (at_value name b) { state = state_header_lf }

  pub begin_name :
      (c : ℕ)
      → p.state ≡ state_header_line_start
      → is_header_name_char c ≡ true
      → p.header_count < http_max_headers
      → consume p c ≡ at_name (c ∷ [])
  unfolding consume_in step_in
  begin_name c e t f = ground arith

  pub push_name :
      (b : Bytes) (c : ℕ)
      → is_header_name_char c ≡ true
      → length b + 1 < http_header_line_max
      → consume (at_name b) c ≡ at_name (b ++ c ∷ [])
  unfolding consume_in step_in
  push_name b c t f = ground arith

  pub end_name : (b : Bytes) → consume (at_name b) b':' ≡ at_pad b
  unfolding consume_in step_in
  end_name b = ground arith

  pub skip_pad : (b : Bytes) (c : ℕ) → is_blank c ≡ true → consume (at_pad b) c ≡ at_pad b
  unfolding consume_in step_in
  skip_pad b c t = ground arith

  Reads-pad : (b pad : Bytes) → AllPass is_blank pad → Reads (at_pad b) (at_pad b) pad
  Reads-pad b [] t = here refl
  Reads-pad b (c ∷ cs) t = next refl (skip_pad b c t.0) (Reads-pad b cs t.1)

  pub push_value :
      (name b : Bytes) (c : ℕ)
      → is_header_value_char c ≡ true
      → length b + 1 < http_header_line_max
      → consume (at_value name b) c ≡ at_value name (b ++ c ∷ [])
  unfolding consume_in step_in
  push_value name b c t f = ground arith

  pub end_value : (name b : Bytes) → consume (at_value name b) b'\r' ≡ at_lf name b
  unfolding consume_in step_in
  end_value name b = ground arith

  pub re_run :
      (name : Bytes) (c : ℕ)
      → is_blank c ≡ false
      → consume (at_pad name) c ≡ consume (at_value name name) c
  unfolding consume_in step_in
  re_run name c h = ground arith

  pub end_header :
      (h : Header) → consume (at_lf h.name (h.name ++ h.value)) b'\n' ≡ after_header p h
  unfolding consume_in step_in after_header directive_after
  end_header h =
      let q = at_lf h.name (h.name ++ h.value) in
      let key = codes "Connection" in
      let compared = header_name_is-same_bytes q h.name h.value key refl refl in
      elim (Bool-cases (same_bytes (map to_lower h.name) (map to_lower key))) [
        | inl named ↦
            simp (compared, named) (rw (note_connection_header-heed_all q) (rw drop-append refl))
        | inr other ↦ simp (compared, other)
      ]

  -- The first byte behind the white space is run again as a byte of the value.
  Reads-re_run :
      (name xs : Bytes) {q : HttpRequestParser}
      → StartsValue xs
      → xs ≢ []
      → Reads q (at_value name name) xs
      → Reads q (at_pad name) xs
  Reads-re_run name [] s ne r = absurd (ne refl)
  Reads-re_run name (c ∷ cs) s ne (next l e r) = next refl (re_run name c s ∙ e) r

  StartsValue-crlf : (value : Bytes) → StartsValue value → StartsValue (value ++ crlf)
  StartsValue-crlf [] s = refl
  StartsValue-crlf (c ∷ cs) s = s

  append-ne-nil : (value : Bytes) → value ++ crlf ≢ []
  append-ne-nil [] e = cc
  append-ne-nil (c ∷ cs) e = cc

  Reads-name :
      (name : Bytes)
      → p.state ≡ state_header_line_start
      → p.header_count < http_max_headers
      → name ≢ []
      → AllPass is_header_name_char name
      → length name < http_header_line_max
      → Reads (at_name name) p name
  Reads-name [] e n ne t f = absurd (ne refl)
  Reads-name (c ∷ cs) e n ne t f = next (rw e) (begin_name c e t.0 n) (
      Reads-push at_name is_header_name_char http_header_line_max (λ _. refl) push_name cs (c ∷ [])
        t.1 (omega arith))

  pub Reads-header_text :
      (h : Header)
      → p.state ≡ state_header_line_start
      → p.header_count < http_max_headers
      → IsHeader h
      → Reads (after_header p h) p (header_text h)
  unfolding header_text
  Reads-header_text h e n v =
      Reads-append _ (Reads-name h.name e n v.name_ne_nil v.name_chars (omega (arith, v.fits))) (
        next refl (end_name h.name) (
          Reads-append _ (Reads-pad h.name h.pad v.pad_blank) (
            Reads-re_run h.name (h.value ++ crlf) (StartsValue-crlf h.value v.value_start)
              (append-ne-nil h.value)
              (Reads-append _
                (Reads-push (at_value h.name) is_header_value_char http_header_line_max (λ _. refl)
                  (push_value h.name) h.value h.name v.value_chars v.fits)
                (next refl (end_value h.name _) (next refl (end_header h) (here refl)))))))
