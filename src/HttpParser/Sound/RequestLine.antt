-- ===== src/HttpParser/Sound/RequestLine.antt =====
-- The request line of a run of http_parser.c that completes.
use c_http_server.Prelude.{
  ℕ, ◌+◌, ◌-◌, ◌≤◌, ◌<◌, Bool-cases, inl, inr, true, false, [], ◌∷◌, ◌++◌, Bytes, ◌≡◌, ◌≢◌, refl,
  ◌∙◌, arith, length, ◌==◌, append_assoc, ==_iff,
}
use c_http_server.HttpParser.{
  http_method_max, http_path_max, version_max, state_request_line_lf, state_header_line_start,
  state_error, HttpRequestParser, http_parser_init,
}
use c_http_server.HttpParser.Chars.{is_method_char, is_path_char, is_version_char, is_valid_version}
use c_http_server.HttpParser.Step.{step_in}
use c_http_server.HttpParser.Run.{consume_in, consume}
use c_http_server.HttpParser.Grammar.{
  Request, AllPass, request_line, version_text, crlf, after_request_line,
}
use c_http_server.HttpParser.RoundTrip.RequestLine.{
  at_method, at_path, at_version, push_method, push_path, push_version, end_method, end_path,
  end_version, end_line,
}
use c_http_server.HttpParser.Sound.Split.{
  Completes, Completes-next, Completes-nil, Completes-error, split,
}

full_method :
    (b : Bytes) (c : ℕ)
    → is_method_char c ≡ true
    → http_method_max ≤ length b + 1
    → (consume (at_method b) c).state ≡ state_error
unfolding consume_in step_in
full_method b c t f = ground arith

refuse_method :
    (b : Bytes) (c : ℕ)
    → (c == b' ') ≡ false
    → is_method_char c ≡ false
    → (consume (at_method b) c).state ≡ state_error
unfolding consume_in step_in
refuse_method b c n t = ground arith

empty_method : (consume (at_method []) b' ').state ≡ state_error
unfolding consume_in step_in
empty_method = refl

full_path :
    (m b : Bytes) (c : ℕ)
    → is_path_char c ≡ true
    → http_path_max ≤ length b + 1
    → (consume (at_path m b) c).state ≡ state_error
unfolding consume_in step_in
full_path m b c t f = ground arith

refuse_path :
    (m b : Bytes) (c : ℕ)
    → (c == b' ') ≡ false
    → is_path_char c ≡ false
    → (consume (at_path m b) c).state ≡ state_error
unfolding consume_in step_in
refuse_path m b c n t = ground arith

empty_path : (m : Bytes) → (consume (at_path m []) b' ').state ≡ state_error
unfolding consume_in step_in
empty_path m = refl

full_version :
    (m p b : Bytes) (c : ℕ)
    → is_version_char c ≡ true
    → version_max ≤ length b + 1
    → (consume (at_version m p b) c).state ≡ state_error
unfolding consume_in step_in
full_version m p b c t f = ground arith

refuse_version :
    (m p b : Bytes) (c : ℕ)
    → (c == b'\r') ≡ false
    → is_version_char c ≡ false
    → (consume (at_version m p b) c).state ≡ state_error
unfolding consume_in step_in
refuse_version m p b c n t = ground arith

bad_version :
    (m p v : Bytes)
    → is_valid_version v ≡ false
    → (consume (at_version m p v) b'\r').state ≡ state_error
unfolding consume_in step_in
bad_version m p v h = ground arith

refuse_lf :
    (p : HttpRequestParser) (c : ℕ)
    → p.state ≡ state_request_line_lf
    → (c == b'\n') ≡ false
    → (consume p c).state ≡ state_error
unfolding consume_in step_in
refuse_lf p c e h = ground arith

-- A valid version token is "HTTP/", a digit, a dot and a digit.
version_text_of_valid :
    (v : Bytes)
    → is_valid_version v ≡ true
    → (major : ℕ) × (minor : ℕ) × (v ≡ version_text major minor) × (major ≤ 9) × (minor ≤ 9)
unfolding is_valid_version
version_text_of_valid (a ∷ b ∷ c ∷ d ∷ e ∷ f ∷ g ∷ h ∷ []) valid =
    (f - b'0', h - b'0', ground arith, ground arith, ground arith)
version_text_of_valid _ valid = ground arith

-- A request line in front of what completes the request.
pub record LineRead (cs : Bytes) : Type 0 where
  pub line : Request
  pub rest : Bytes
  pub splits : cs ≡ request_line line ++ rest
  pub method_chars : AllPass is_method_char line.method
  pub method_ne_nil : line.method ≢ []
  pub method_fits : length line.method < http_method_max
  pub path_chars : AllPass is_path_char line.path
  pub path_ne_nil : line.path ≢ []
  pub path_fits : length line.path < http_path_max
  pub major_digit : line.major ≤ 9
  pub minor_digit : line.minor ≤ 9
  pub goes_on : Completes (after_request_line line) rest

-- The LF behind a CR.
read_lf :
    (p : HttpRequestParser) (cs : Bytes)
    → p.state ≡ state_request_line_lf
    → Completes p cs
    → (rest : Bytes) × (cs ≡ b'\n' ∷ rest)
      × Completes (record p { state = state_header_line_start }) rest
read_lf p [] e h = absurd (Completes-nil p (rw e) h)
read_lf p (c ∷ cs) e h =
    let h' = Completes-next p c cs (rw e) h in
    elim (Bool-cases (c == b'\n')) [
      | inl lf ↦ (cs, rw ((==_iff c b'\n').0 lf), rw ((==_iff c b'\n').0 lf, end_line p e) at h')
      | inr other ↦ absurd (Completes-error _ cs (refuse_lf p c e other) h')
    ]

module _ (m b : Bytes) where
  -- The version token and CRLF behind a method and a path.
  record VersionRead (cs : Bytes) : Type 0 where
    major : ℕ
    minor : ℕ
    rest : Bytes
    splits : cs ≡ version_text major minor ++ (crlf ++ rest)
    major_digit : major ≤ 9
    minor_digit : minor ≤ 9
    goes_on :
        Completes
          (record (at_version m b (version_text major minor)) {
            state = state_header_line_start;
            http_major = major;
            http_minor = minor;
          })
          rest

  read_version : (cs : Bytes) → Completes (at_version m b []) cs → VersionRead cs
  read_version cs h =
      let q =
        split (at_version m b) is_version_char version_max b'\r' (λ _. refl) (push_version m b)
          (full_version m b) (refuse_version m b) [] cs (omega arith) h in
      elim (Bool-cases (is_valid_version q.piece)) [
        | inr bad ↦ absurd (Completes-error _ q.rest (bad_version m b q.piece bad) q.goes_on)
        | inl valid ↦
            let (major, minor, e, h1, h2) = version_text_of_valid q.piece valid in
            let (rest, lf, on) =
              read_lf _ q.rest refl (rw (e, end_version m b major minor h1 h2) at q.goes_on) in
            record {
              major = major;
              minor = minor;
              rest = rest;
              splits = q.splits ∙ rw (e, lf);
              major_digit = h1;
              minor_digit = h2;
              goes_on = on;
            }
      ]

  -- The path of a request is not empty, and a version follows it.
  path_ne_nil : (rest : Bytes) → Completes (consume (at_path m b) b' ') rest → b ≢ []
  path_ne_nil rest h e = Completes-error _ rest (rw e (empty_path m)) h

method_ne_nil : (m rest : Bytes) → Completes (consume (at_method m) b' ') rest → m ≢ []
method_ne_nil m rest h e = Completes-error _ rest (rw e empty_method) h

line_splits :
    (r : Request) (cs behind_method behind_path rest : Bytes)
    → cs ≡ r.method ++ (b' ' ∷ behind_method)
    → behind_method ≡ r.path ++ (b' ' ∷ behind_path)
    → behind_path ≡ version_text r.major r.minor ++ (crlf ++ rest)
    → cs ≡ request_line r ++ rest
unfolding request_line
line_splits r cs behind_method behind_path rest e f g = e ∙ rw (f, g) (simp append_assoc)

pub read_line : (cs : Bytes) → Completes http_parser_init cs → LineRead cs
unfolding after_request_line
read_line cs h =
    let p =
      split at_method is_method_char http_method_max b' ' (λ _. refl) push_method full_method
        refuse_method [] cs (omega arith) h in
    let m = p.piece in
    let p_ne = method_ne_nil m p.rest p.goes_on in
    let q =
      split (at_path m) is_path_char http_path_max b' ' (λ _. refl) (push_path m) (full_path m)
        (refuse_path m) [] p.rest (omega arith) (rw (end_method m p_ne) at p.goes_on) in
    let b = q.piece in
    let q_ne = path_ne_nil m b q.rest q.goes_on in
    let v = read_version m b q.rest (rw (end_path m b q_ne) at q.goes_on) in
    let line : Request = record {
      method = m;
      path = b;
      major = v.major;
      minor = v.minor;
      headers = [];
    } in
    record {
      line = line;
      rest = v.rest;
      splits = line_splits line cs p.rest q.rest v.rest p.splits q.splits v.splits;
      method_chars = p.passes;
      method_ne_nil = p_ne;
      method_fits = omega (arith, p.fits);
      path_chars = q.passes;
      path_ne_nil = q_ne;
      path_fits = omega (arith, q.fits);
      major_digit = v.major_digit;
      minor_digit = v.minor_digit;
      goes_on = v.goes_on;
    }
