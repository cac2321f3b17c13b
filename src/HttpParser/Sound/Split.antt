-- ===== src/HttpParser/Sound/Split.antt =====
-- Reading a run that completes from its first byte on: what each byte of it must have been.
use c_http_server.Prelude.{
  ℕ, ◌+◌, ◌≤◌, ◌<◌, Bool, true, false, [], ◌∷◌, ◌++◌, Bytes, Bool-cases, ltb, ltb→lt, ==_iff, ◌==◌,
  ◌≡◌, ◌≢◌, inl, inr, ◌∙◌, ap, sym, arith, length, length-append, append-nil, append_assoc,
}
use c_http_server.HttpParser.{
  is_terminal, HttpParserState, state_error, parse_complete, HttpRequestParser,
}
use c_http_server.HttpParser.Execute.{Outcome}
use c_http_server.HttpParser.Chunks.{run_from_shift}
use c_http_server.HttpParser.Run.{consume, result_of, run_from, run_from_terminal}
use c_http_server.HttpParser.Grammar.{AllPass}

-- From `p` the bytes lead to a complete request.
abbrev pub Completes : HttpRequestParser → Bytes → Type 0
Completes p bytes = (i : ℕ) × ((run_from i p bytes).result ≡ parse_complete)

pub Completes-next :
    (p : HttpRequestParser) (c : ℕ) (cs : Bytes)
    → is_terminal p.state ≡ false
    → Completes p (c ∷ cs)
    → Completes (consume p c) cs
unfolding run_from
Completes-next p c cs live (i, h) = (i + 1, simp live at h)

result_of_live : (s : HttpParserState) → is_terminal s ≡ false → result_of s ≢ parse_complete
result_of_live HttpParserState.state_done live = cc
result_of_live state_error live = cc
result_of_live _ live = cc

result_any :
    (i j : ℕ) (p : HttpRequestParser) (cs : Bytes)
    → (run_from i p cs).result ≡ (run_from j p cs).result
result_any i j p cs =
    let from_zero : (k : ℕ) → (run_from k p cs).result ≡ (run_from 0 p cs).result = λ k.
      ap (λ n. (run_from n p cs).result) (omega arith)
      ∙ ap (λ (o : Outcome). o.result) (run_from_shift k 0 p cs) in
    from_zero i ∙ sym (from_zero j)

pub Completes-back :
    (p : HttpRequestParser) (c : ℕ) (cs : Bytes)
    → is_terminal p.state ≡ false
    → Completes (consume p c) cs
    → Completes p (c ∷ cs)
unfolding run_from
Completes-back p c cs live (i, h) = (0, simp live (result_any (0 + 1) i (consume p c) cs ∙ h))

pub Completes-nil : (p : HttpRequestParser) → is_terminal p.state ≡ false → ¬ Completes p []
unfolding run_from
Completes-nil p live (i, h) = result_of_live p.state live h

pub Completes-error :
    (p : HttpRequestParser) (cs : Bytes) → p.state ≡ state_error → ¬ Completes p cs
Completes-error p cs e (i, h) =
    let stopped = run_from_terminal i p cs (ap is_terminal e) in
    let failed : result_of p.state ≡ result_of state_error = ap result_of e in cc

-- Bytes that a state adds to a buffer up to a byte that ends the piece.
module _ (put : Bytes → HttpRequestParser) (test : ℕ → Bool) (size end : ℕ)
    (live : (buffer : Bytes) → is_terminal (put buffer).state ≡ false)
    (push : (buffer : Bytes) (c : ℕ)
      → test c ≡ true
      → length buffer + 1 < size
      → consume (put buffer) c ≡ put (buffer ++ c ∷ []))
    (full : (buffer : Bytes) (c : ℕ)
      → test c ≡ true
      → size ≤ length buffer + 1
      → (consume (put buffer) c).state ≡ state_error)
    (refuse : (buffer : Bytes) (c : ℕ)
      → (c == end) ≡ false
      → test c ≡ false
      → (consume (put buffer) c).state ≡ state_error) where
  -- The piece behind `buffer`, and what follows the byte that ends it.
  pub record Piece (buffer cs : Bytes) : Type 0 where
    pub piece : Bytes
    pub rest : Bytes
    pub splits : cs ≡ piece ++ (end ∷ rest)
    pub passes : AllPass test piece
    pub fits : length buffer + length piece < size
    pub goes_on : Completes (consume (put (buffer ++ piece)) end) rest

  Piece-cons :
      (buffer : Bytes) (c : ℕ) (cs : Bytes)
      → test c ≡ true
      → Piece (buffer ++ c ∷ []) cs
      → Piece buffer (c ∷ cs)
  Piece-cons buffer c cs good q = record {
    piece = c ∷ q.piece;
    rest = q.rest;
    splits = ap (◌∷◌ c) q.splits;
    passes = (good, q.passes);
    fits = omega (arith, q.fits, length-append buffer (c ∷ []));
    goes_on = rw append_assoc at q.goes_on;
  }

  pub split :
      (buffer cs : Bytes) → length buffer < size → Completes (put buffer) cs → Piece buffer cs
  split buffer [] f h = absurd (Completes-nil (put buffer) (live buffer) h)
  split buffer (c ∷ cs) f h =
      let h' = Completes-next (put buffer) c cs (live buffer) h in
      elim (Bool-cases (c == end)) [
        | inl at_end ↦ record {
          piece = [];
          rest = cs;
          splits = rw ((==_iff c end).0 at_end);
          passes = tt;
          fits = omega (arith, f);
          goes_on = rw append-nil (rw ((==_iff c end).0 at_end) at h');
        }
        | inr inside ↦ elim (Bool-cases (test c)) [
          | inr bad ↦ absurd (Completes-error _ cs (refuse buffer c inside bad) h')
          | inl good ↦ elim (Bool-cases (ltb (length buffer + 1) size)) [
            | inr no_room ↦ absurd (Completes-error _ cs (full buffer c good (ground arith)) h')
            | inl room ↦ Piece-cons buffer c cs good (
                split (buffer ++ c ∷ []) cs
                  (rw length-append (ground (arith, ltb→lt (length buffer + 1) size)))
                  (rw (push buffer c good (ltb→lt _ _ room)) at h'))
          ]
        ]
      ]
