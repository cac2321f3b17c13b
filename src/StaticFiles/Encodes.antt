-- ===== src/StaticFiles/Encodes.antt =====
-- `decode_path` of static_files.c against the percent-encoding of RFC 3986.
use c_http_server.Prelude.{
  ℕ, ◌+◌, ◌*◌, ◌<◌, Bool-cases, true, false, ◌||◌, ◌↔◌, ◌⊎◌, inl, inr, some, Option-cases, [], ◌∷◌,
  ◌++◌, Bytes, ◌==◌, ◌≡◌, ◌≢◌, ◌∙◌, sym, ap, arith, length, length-append, append-nil, append_assoc,
  ==_iff,
}
use c_http_server.StaticFiles.{path_max, resolve_ok}
use c_http_server.StaticFiles.Decode.{escaped, decode_loop, decode_path}
use c_http_server.StaticFiles.Escapes.{
  IsHex, special, escaped-some, escaped_of_IsHex, decode_loop-plain, decode_loop-query,
  decode_loop-escape, store-fits, store-ok, decode_loop-truncated, decode_loop-malformed,
}

-- A path, up to its query or fragment, stands for the decoded bytes.
pub data Encodes : Bytes → Bytes → Type 0 where
  done : Encodes [] []
  query : {c : ℕ} {path : Bytes} → (c ≡ b'?') ⊎ (c ≡ b'#') → Encodes (c ∷ path) []
  plain :
      {c : ℕ} {path d : Bytes}
      → c ≢ b'%'
      → c ≢ b'?'
      → c ≢ b'#'
      → Encodes path d
      → Encodes (c ∷ path) (c ∷ d)
  escape :
      {e a b hi lo v : ℕ} {path d : Bytes}
      → e ≡ b'%'
      → IsHex a hi
      → IsHex b lo
      → v ≡ hi * 16 + lo
      → 0 < v
      → Encodes path d
      → Encodes (e ∷ a ∷ b ∷ path) (v ∷ d)

-- A path that stands for bytes for which there is room is decoded to them.
Encodes-decode_loop :
    {path d : Bytes} (size : ℕ) (out : Bytes)
    → Encodes path d
    → length out + length d < size
    → decode_loop size out path ≡ resolve_ok (out ++ d)
Encodes-decode_loop size out done f = unfold decode_loop in rw append-nil
Encodes-decode_loop size out (query {c} {path} e) f =
    decode_loop-query size out c path (ground arith) ∙ rw append-nil
Encodes-decode_loop size out (plain {c} {path} {d} n m k e) f =
    decode_loop-plain size out c path (unfold special in ground arith)
    ∙ store-fits size out c (λ o. decode_loop size o path) (omega arith)
    ∙ Encodes-decode_loop size (out ++ c ∷ []) e (omega (arith, length-append out (c ∷ [])))
    ∙ rw append_assoc
Encodes-decode_loop size out (escape {a} {b} {hi} {lo} {v} {path} {d} p ha hb q pos e) f = rw p (
    decode_loop-escape size out a b v path (escaped_of_IsHex a b hi lo v ha hb q pos)
    ∙ store-fits size out v (λ o. decode_loop size o path) (omega arith)
    ∙ Encodes-decode_loop size (out ++ v ∷ []) e (omega (arith, length-append out (v ∷ [])))
    ∙ rw append_assoc)

-- What the loop adds to `out` on success.
record Decoded (size : ℕ) (out path r : Bytes) : Type 0 where
  bytes : Bytes
  appended : r ≡ out ++ bytes
  encodes : Encodes path bytes
  fits : length out + length bytes < size

Decoded-plain :
    (size : ℕ) (out : Bytes) (c : ℕ) (path r : Bytes)
    → special c ≡ false
    → Decoded size (out ++ c ∷ []) path r
    → Decoded size out (c ∷ path) r
unfolding special
Decoded-plain size out c path r s q = record {
  bytes = c ∷ q.bytes;
  appended = q.appended ∙ append_assoc out (c ∷ []) q.bytes;
  encodes = plain (ground arith) (ground arith) (ground arith) q.encodes;
  fits = omega (arith, q.fits, length-append out (c ∷ []));
}

Decoded-query :
    (size : ℕ) (out : Bytes) (c : ℕ) (path r : Bytes)
    → length out < size
    → (c == b'?' || c == b'#') ≡ true
    → decode_loop size out (c ∷ path) ≡ resolve_ok r
    → Decoded size out (c ∷ path) r
Decoded-query size out c path r f t h = record {
  bytes = [];
  appended =
      let ended = decode_loop-query size out c path t in
      let same : r ≡ out = cc in same ∙ sym (append-nil out);
  encodes = query (ground arith);
  fits = omega arith;
}

module _ (size : ℕ) (out : Bytes) (c : ℕ) (path r : Bytes) (f : length out < size)
    (h : decode_loop size out (c ∷ path) ≡ resolve_ok r) where
  -- One round of the loop that succeeds, given what its other rounds and an escape give.
  Decoded-round :
      (length (out ++ c ∷ []) < size
        → decode_loop size (out ++ c ∷ []) path ≡ resolve_ok r
        → Decoded size (out ++ c ∷ []) path r)
      → ((c == b'%') ≡ true → Decoded size out (c ∷ path) r)
      → Decoded size out (c ∷ path) r
  Decoded-round rest at_percent = elim (Bool-cases (c == b'?' || c == b'#')) [
    | inl t ↦ Decoded-query size out c path r f t h
    | inr n ↦ elim (Bool-cases (c == b'%')) [
      | inl t ↦ at_percent t
      | inr m ↦
          let s : special c ≡ false = unfold special in ground arith in
          let next = λ (o : Bytes). decode_loop size o path in
          let (fits, on) =
            store-ok size out c next r (sym (decode_loop-plain size out c path s) ∙ h) in
          Decoded-plain size out c path r s (rest (omega (arith, length-append out (c ∷ []))) on)
    ]
  ]

Decoded-escape :
    (size : ℕ) (out : Bytes) (c a b v : ℕ) (path r : Bytes)
    → (c == b'%') ≡ true
    → escaped a b ≡ some v
    → Decoded size (out ++ v ∷ []) path r
    → Decoded size out (c ∷ a ∷ b ∷ path) r
Decoded-escape size out c a b v path r t e q =
    let (hi, lo, ha, hb, same, pos) = escaped-some a b v e in
    record {
      bytes = v ∷ q.bytes;
      appended = q.appended ∙ append_assoc out (v ∷ []) q.bytes;
      encodes = escape ((==_iff c b'%').0 t) ha hb same pos q.encodes;
      fits = omega (arith, q.fits, length-append out (v ∷ []));
    }

-- What is left in the buffer by a decoding that succeeds is what the path stands for.
decode_loop-Decoded :
    (size : ℕ) (out path r : Bytes)
    → length out < size
    → decode_loop size out path ≡ resolve_ok r
    → Decoded size out path r
decode_loop-Decoded size out [] r f h =
    let same : r ≡ out = unfold decode_loop in cc in
    record {
      bytes = [];
      appended = same ∙ sym (append-nil out);
      encodes = done;
      fits = omega arith;
    }
decode_loop-Decoded size out (c ∷ []) r f h =
    Decoded-round size out c [] r f h (λ k g. decode_loop-Decoded size (out ++ c ∷ []) [] r k g)
      (λ t. absurd (cc (decode_loop-truncated size out c [] t (omega arith))))
decode_loop-Decoded size out (c ∷ a ∷ []) r f h =
    Decoded-round size out c (a ∷ []) r f h
      (λ k g. decode_loop-Decoded size (out ++ c ∷ []) (a ∷ []) r k g)
      (λ t. absurd (cc (decode_loop-truncated size out c (a ∷ []) t (omega arith))))
decode_loop-Decoded size out (c ∷ a ∷ b ∷ path) r f h =
    Decoded-round size out c (a ∷ b ∷ path) r f h
      (λ k g. decode_loop-Decoded size (out ++ c ∷ []) (a ∷ b ∷ path) r k g)
      λ t. elim (Option-cases (escaped a b)) [
        | inl e ↦ absurd (cc (decode_loop-malformed size out c a b path t e))
        | inr (v, e) ↦
            let stored = decode_loop-escape size out a b v path e in
            let here = rw ((==_iff c b'%').0 t) at h in
            let (fits, on) =
              store-ok size out v (λ o. decode_loop size o path) r (sym stored ∙ here) in
            Decoded-escape size out c a b v path r t e (
              decode_loop-Decoded size (out ++ v ∷ []) path r
                (omega (arith, length-append out (v ∷ []))) on)
      ]

-- Decoding succeeds exactly for the percent-encodings, up to a query or fragment and with no escape
-- of a NUL, of a byte string that fits into the buffer with a NUL behind it, and gives that string.
pub decode_path-Encodes :
    (path d : Bytes)
    → (decode_path path path_max ≡ resolve_ok d) ↔ (Encodes path d × (length d < path_max))
unfolding decode_path
decode_path-Encodes path d = (
  (λ h.
      let q = decode_loop-Decoded path_max [] path d (omega arith) h in
      (rw (← q.appended) at q.encodes, omega (arith, q.fits, ap length q.appended))),
  (λ e. Encodes-decode_loop path_max [] e.0 (omega (arith, e.1))),
)

-- A path stands for one byte string.
pub Encodes-unique : (path d d' : Bytes) → Encodes path d → Encodes path d' → d ≡ d'
Encodes-unique path d d' e e' =
    let size = length d + length d' + 1 in
    cc (Encodes-decode_loop size [] e (omega arith), Encodes-decode_loop size [] e' (omega arith))
