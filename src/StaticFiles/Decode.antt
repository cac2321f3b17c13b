-- ===== src/StaticFiles/Decode.antt =====
-- `hex_digit` and `decode_path` of static_files.c.
use c_http_server.Prelude.{
  ℕ, ◌+◌, ◌-◌, ◌*◌, ◌&&◌, ◌||◌, Option, none, some, [], ◌∷◌, ◌++◌, Bytes, leb, ◌==◌, if◌then◌else◌,
  length,
}
use c_http_server.StaticFiles.{ResolveResult, resolve_ok, resolve_illegal, resolve_too_long}

-- `none` is -1.
unfoldable pub hex_digit : ℕ → Option ℕ
hex_digit c =
    if leb b'0' c && leb c b'9'
    then some (c - b'0')
    else if leb b'a' c && leb c b'f'
    then some (c - b'a' + 10)
    else if leb b'A' c && leb c b'F'
    then some (c - b'A' + 10)
    else none

-- The byte of the escape with these two digits; `none` is `RESOLVE_ILLEGAL`. The low digit is
-- below 16, so `(hi << 4) | lo` is a sum.
unfoldable pub escaped : ℕ → ℕ → Option ℕ
escaped a b = elim (hex_digit a) [
  | none ↦ none
  | some hi ↦ elim (hex_digit b) [
    | none ↦ none
    | some lo ↦ if hi * 16 + lo == 0 then none else some (hi * 16 + lo)
  ]
]

-- The end of a round: the byte `c` behind the bytes written so far, then the next round.
abbrev pub store : ℕ → Bytes → ℕ → (Bytes → ResolveResult) → ResolveResult
store out_size out c next_round =
    if leb out_size (length out + 1) then resolve_too_long else next_round (out ++ c ∷ [])

-- The loop over what is left of the path, `out` holding the bytes written so far.
unfoldable pub decode_loop : ℕ → Bytes → Bytes → ResolveResult
decode_loop out_size out [] = resolve_ok out
decode_loop out_size out (c ∷ a ∷ b ∷ rest) =
    if c == b'?' || c == b'#'
    then resolve_ok out
    else if c == b'%'
    then elim (escaped a b) [
      | none ↦ resolve_illegal
      | some d ↦ store out_size out d (λ o. decode_loop out_size o rest)
    ]
    else store out_size out c (λ o. decode_loop out_size o (a ∷ b ∷ rest))
decode_loop out_size out (c ∷ rest) =
    if c == b'?' || c == b'#'
    then resolve_ok out
    else if c == b'%'
    then resolve_illegal
    else store out_size out c (λ o. decode_loop out_size o rest)

unfoldable pub decode_path : Bytes → ℕ → ResolveResult
unfolding decode_loop escaped hex_digit
decode_path path out_size = decode_loop out_size [] path
