-- ===== src/StaticFiles/Escapes.antt =====
-- The escapes of a percent-encoding, and one round of the loop of `decode_path` of static_files.c.
use c_http_server.Prelude.{
  ℕ, ◌+◌, ◌-◌, ◌*◌, ◌<◌, Bool, true, false, ◌||◌, ◌⊎◌, inl, inr, none, some, Option-cases, [], ◌∷◌,
  ◌++◌, Bytes, ltb, ◌==◌, ◌≡◌, arith, if◌then◌else◌, length,
}
use c_http_server.StaticFiles.{ResolveResult, resolve_ok, resolve_illegal}
use c_http_server.StaticFiles.Decode.{hex_digit, escaped, store, decode_loop}

-- The digit for a value below 16, in either case.
abbrev pub digit_from : ℕ → ℕ → ℕ
digit_from ten v = if ltb v 10 then v + b'0' else v - 10 + ten

abbrev pub IsHex : ℕ → ℕ → Type 0
IsHex c v = (v < 16) × ((c ≡ digit_from b'a' v) ⊎ (c ≡ digit_from b'A' v))

hex_digit-IsHex : (c v : ℕ) → hex_digit c ≡ some v → IsHex c v
unfolding hex_digit
hex_digit-IsHex c v h = ground arith

hex_digit_of_IsHex : (c v : ℕ) → IsHex c v → hex_digit c ≡ some v
unfolding hex_digit
hex_digit_of_IsHex c v h = ground arith

pub escaped-some :
    (a b v : ℕ)
    → escaped a b ≡ some v
    → (hi : ℕ) × (lo : ℕ) × IsHex a hi × IsHex b lo × (v ≡ hi * 16 + lo) × (0 < v)
unfolding escaped
escaped-some a b v h = elim (Option-cases (hex_digit a)) [
  | inl none_a ↦ absurd (ground arith)
  | inr (hi, ha) ↦ elim (Option-cases (hex_digit b)) [
    | inl none_b ↦ absurd (ground arith)
    | inr (lo, hb) ↦
        (hi, lo, hex_digit-IsHex a hi ha, hex_digit-IsHex b lo hb, ground arith, ground arith)
  ]
]

pub escaped_of_IsHex :
    (a b hi lo v : ℕ) → IsHex a hi → IsHex b lo → v ≡ hi * 16 + lo → 0 < v → escaped a b ≡ some v
unfolding escaped
escaped_of_IsHex a b hi lo v ha hb e pos =
    ground (arith, hex_digit_of_IsHex a hi ha, hex_digit_of_IsHex b lo hb)

unfoldable pub special : ℕ → Bool
special c = c == b'?' || c == b'#' || c == b'%'

pub decode_loop-plain :
    (size : ℕ) (out : Bytes) (c : ℕ) (path : Bytes)
    → special c ≡ false
    → decode_loop size out (c ∷ path) ≡ store size out c (λ o. decode_loop size o path)
unfolding decode_loop special
decode_loop-plain size out c [] h = ground arith
decode_loop-plain size out c (a ∷ []) h = ground arith
decode_loop-plain size out c (a ∷ b ∷ rest) h = ground arith

pub decode_loop-query :
    (size : ℕ) (out : Bytes) (c : ℕ) (path : Bytes)
    → (c == b'?' || c == b'#') ≡ true
    → decode_loop size out (c ∷ path) ≡ resolve_ok out
unfolding decode_loop
decode_loop-query size out c [] h = rw h
decode_loop-query size out c (a ∷ []) h = rw h
decode_loop-query size out c (a ∷ b ∷ rest) h = rw h

pub decode_loop-escape :
    (size : ℕ) (out : Bytes) (a b v : ℕ) (path : Bytes)
    → escaped a b ≡ some v
    → decode_loop size out (b'%' ∷ a ∷ b ∷ path) ≡ store size out v (λ o. decode_loop size o path)
unfolding decode_loop
decode_loop-escape size out a b v path h = rw h

pub store-fits :
    (size : ℕ) (out : Bytes) (c : ℕ) (k : Bytes → ResolveResult)
    → length out + 1 < size
    → store size out c k ≡ k (out ++ c ∷ [])
store-fits size out c k h = ground arith

pub store-ok :
    (size : ℕ) (out : Bytes) (c : ℕ) (k : Bytes → ResolveResult) (r : Bytes)
    → store size out c k ≡ resolve_ok r
    → (length out + 1 < size) × (k (out ++ c ∷ []) ≡ resolve_ok r)
store-ok size out c k r h = ground arith

pub decode_loop-truncated :
    (size : ℕ) (out : Bytes) (c : ℕ) (path : Bytes)
    → (c == b'%') ≡ true
    → length path < 2
    → decode_loop size out (c ∷ path) ≡ resolve_illegal
unfolding decode_loop
decode_loop-truncated size out c [] t f = ground arith
decode_loop-truncated size out c (a ∷ []) t f = ground arith
decode_loop-truncated size out c (a ∷ b ∷ path) t f = absurd (omega arith)

pub decode_loop-malformed :
    (size : ℕ) (out : Bytes) (c a b : ℕ) (path : Bytes)
    → (c == b'%') ≡ true
    → escaped a b ≡ none
    → decode_loop size out (c ∷ a ∷ b ∷ path) ≡ resolve_illegal
unfolding decode_loop
decode_loop-malformed size out c a b path t e = ground arith
