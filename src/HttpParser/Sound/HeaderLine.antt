-- ===== src/HttpParser/Sound/HeaderLine.antt =====
-- A header line of a run of http_parser.c that completes.
use c_http_server.Prelude.{
  ℕ, ◌+◌, ◌≤◌, ◌<◌, Bool-cases, inl, inr, true, false, [], ◌∷◌, ◌++◌, Bytes, ◌≡◌, refl, ◌∙◌, ap,
  arith, length, ◌==◌, ltb, ltb→lt, append_assoc, ==_iff,
}
use c_http_server.HttpParser.{
  http_header_line_max, http_max_headers, state_header_line_start, state_error, HttpRequestParser,
}
use c_http_server.HttpParser.Chars.{is_header_name_char, is_header_value_char}
use c_http_server.HttpParser.Connection.{is_blank}
use c_http_server.HttpParser.Step.{step_in}
use c_http_server.HttpParser.Run.{consume_in, consume}
use c_http_server.HttpParser.Grammar.{
  Header, IsHeader, AllPass, StartsValue, header_text, after_header,
}
use c_http_server.HttpParser.RoundTrip.HeaderLine.{
  at_name, at_pad, at_value, at_lf, begin_name, push_name, end_name, skip_pad, push_value,
  end_value, re_run, end_header,
}
use c_http_server.HttpParser.Sound.Split.{
  Completes, Completes-next, Completes-back, Completes-nil, Completes-error, Piece, split,
}

module _ (p : HttpRequestParser) where
  refuse_name :
      (b : Bytes) (c : ℕ)
      → (c == b':') ≡ false
      → is_header_name_char c ≡ false
      → (consume (at_name p b) c).state ≡ state_error
  unfolding consume_in step_in
  refuse_name b c n t = ground arith

  full_name :
      (b : Bytes) (c : ℕ)
      → is_header_name_char c ≡ true
      → http_header_line_max ≤ length b + 1
      → (consume (at_name p b) c).state ≡ state_error
  unfolding consume_in step_in
  full_name b c t f = ground arith

  refuse_value :
      (name b : Bytes) (c : ℕ)
      → (c == b'\r') ≡ false
      → is_header_value_char c ≡ false
      → (consume (at_value p name b) c).state ≡ state_error
  unfolding consume_in step_in
  refuse_value name b c n t = ground arith

  full_value :
      (name b : Bytes) (c : ℕ)
      → is_header_value_char c ≡ true
      → http_header_line_max ≤ length b + 1
      → (consume (at_value p name b) c).state ≡ state_error
  unfolding consume_in step_in
  full_value name b c t f = ground arith

  refuse_lf :
      (name b : Bytes) (c : ℕ)
      → (c == b'\n') ≡ false
      → (consume (at_lf p name b) c).state ≡ state_error
  unfolding consume_in step_in
  refuse_lf name b c h = ground arith

  refuse_line :
      (c : ℕ)
      → p.state ≡ state_header_line_start
      → (c == b'\r') ≡ false
      → is_header_name_char c ≡ false
      → (consume p c).state ≡ state_error
  unfolding consume_in step_in
  refuse_line c e h t = ground arith

  too_many :
      (c : ℕ)
      → p.state ≡ state_header_line_start
      → is_header_name_char c ≡ true
      → http_max_headers ≤ p.header_count
      → (consume p c).state ≡ state_error
  unfolding consume_in step_in
  too_many c e t f = ground arith

  -- The white space behind the colon, and what is run again as the value.
  record PadRead (name cs : Bytes) : Type 0 where
    pad : Bytes
    rest : Bytes
    splits : cs ≡ pad ++ rest
    blank : AllPass is_blank pad
    starts : StartsValue rest
    goes_on : Completes (at_value p name name) rest

  read_pad : (name cs : Bytes) → Completes (at_pad p name) cs → PadRead name cs
  read_pad name [] h = absurd (Completes-nil (at_pad p name) refl h)
  read_pad name (c ∷ cs) h = elim (Bool-cases (is_blank c)) [
    | inl skipped ↦
        let h' = Completes-next (at_pad p name) c cs refl h in
        let q = read_pad name cs (rw (skip_pad p name c skipped) at h') in
        record {
          pad = c ∷ q.pad;
          rest = q.rest;
          splits = ap (◌∷◌ c) q.splits;
          blank = (skipped, q.blank);
          starts = q.starts;
          goes_on = q.goes_on;
        }
    | inr kept ↦ record {
      pad = [];
      rest = c ∷ cs;
      splits = refl;
      blank = tt;
      starts = kept;
      goes_on =
          Completes-back (at_value p name name) c cs refl
            (rw (re_run p name c kept) at (Completes-next (at_pad p name) c cs refl h));
    }
  ]

  read_lf :
      (name b cs : Bytes)
      → Completes (at_lf p name b) cs
      → (rest : Bytes) × (cs ≡ b'\n' ∷ rest) × Completes (consume (at_lf p name b) b'\n') rest
  read_lf name b [] h = absurd (Completes-nil (at_lf p name b) refl h)
  read_lf name b (c ∷ cs) h =
      let h' = Completes-next (at_lf p name b) c cs refl h in
      elim (Bool-cases (c == b'\n')) [
        | inl lf ↦ (cs, rw ((==_iff c b'\n').0 lf), rw ((==_iff c b'\n').0 lf) at h')
        | inr other ↦ absurd (Completes-error _ cs (refuse_lf name b c other) h')
      ]

  StartsValue-prefix : (xs ys : Bytes) → StartsValue (xs ++ ys) → StartsValue xs
  StartsValue-prefix [] ys s = tt
  StartsValue-prefix (x ∷ xs) ys s = s

  header_splits :
      (h : Header) (behind_name behind_pad behind_value rest : Bytes) (cs : Bytes)
      → cs ≡ h.name ++ (b':' ∷ behind_name)
      → behind_name ≡ h.pad ++ behind_pad
      → behind_pad ≡ h.value ++ (b'\r' ∷ behind_value)
      → behind_value ≡ b'\n' ∷ rest
      → cs ≡ header_text h ++ rest
  unfolding header_text
  header_splits h b1 b2 b3 rest cs e f g k = e ∙ rw (f, g, k) (simp append_assoc)

  -- A header line in front of what completes the request.
  pub record HeaderRead (cs : Bytes) : Type 0 where
    pub header : Header
    pub rest : Bytes
    pub splits : cs ≡ header_text header ++ rest
    pub is_header : IsHeader header
    pub goes_on : Completes (after_header p header) rest

  read_value :
      (name cs : Bytes)
      → length name < http_header_line_max
      → Completes (at_value p name name) cs
      → Piece
          (at_value p name)
          is_header_value_char
          http_header_line_max
          b'\r'
          (λ _. refl)
          (push_value p name)
          (full_value name)
          (refuse_value name)
          name
          cs
  read_value name cs f h =
      split (at_value p name) is_header_value_char http_header_line_max b'\r' (λ _. refl)
        (push_value p name) (full_value name) (refuse_value name) name cs f h

  -- The rest of a line whose first byte begins a name.
  read_header_line :
      (c : ℕ) (cs : Bytes)
      → is_header_name_char c ≡ true
      → Completes (at_name p (c ∷ [])) cs
      → HeaderRead (c ∷ cs)
  read_header_line c cs t h =
      let n =
        split (at_name p) is_header_name_char http_header_line_max b':' (λ _. refl) (push_name p)
          full_name refuse_name (c ∷ []) cs (omega arith) h in
      let name : Bytes = c ∷ n.piece in
      let d = read_pad name n.rest (rw (end_name p name) at n.goes_on) in
      let v = read_value name d.rest (omega (arith, n.fits)) d.goes_on in
      let value = v.piece in
      let (rest, lf, on) =
        read_lf name (name ++ value) v.rest (rw (end_value p name (name ++ value)) at v.goes_on) in
      let header : Header = record { name = name; pad = d.pad; value = value } in
      record {
        header = header;
        rest = rest;
        splits =
            header_splits header n.rest d.rest v.rest rest (c ∷ cs) (ap (◌∷◌ c) n.splits) d.splits
              v.splits lf;
        is_header = record {
          name_chars = (t, n.passes);
          name_ne_nil = λ e. cc;
          pad_blank = d.blank;
          value_chars = v.passes;
          value_start = StartsValue-prefix value (b'\r' ∷ v.rest) (rw v.splits at d.starts);
          fits = v.fits;
        };
        goes_on = rw (end_header p header) at on;
      }

  -- What stands at the start of a header line: a header, or the CR of the blank line.
  pub read_header :
      (c : ℕ) (cs : Bytes)
      → p.state ≡ state_header_line_start
      → (c == b'\r') ≡ false
      → Completes p (c ∷ cs)
      → (p.header_count < http_max_headers) × HeaderRead (c ∷ cs)
  read_header c cs e n h =
      let h' = Completes-next p c cs (rw e) h in
      elim (Bool-cases (is_header_name_char c)) [
        | inr bad ↦ absurd (Completes-error _ cs (refuse_line c e n bad) h')
        | inl good ↦ elim (Bool-cases (ltb p.header_count http_max_headers)) [
          | inr many ↦ absurd (Completes-error _ cs (too_many c e good (ground arith)) h')
          | inl room ↦
              let fits = ltb→lt p.header_count http_max_headers room in
              (fits, read_header_line c cs good (rw (begin_name p c e good fits) at h'))
        ]
      ]
