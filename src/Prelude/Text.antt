-- ===== src/Prelude/Text.antt =====
-- Bytes as numbers, ASCII literals as bytes, and the comparisons of <string.h> and <strings.h>.
use Prim.Native.Char.{code}
use Prim.Native.Nat.{ℕ, zero, suc, ◌+◌, ◌<◌}
use Prim.Native.String.{String}
use mathlib.Core.Bool.{Bool, true, false, ◌&&◌}
use mathlib.Core.List.{List, [], ◌∷◌}
use c_http_server.Prelude.Tests.{leb, ◌==◌, if◌then◌else◌}

abbrev pub Bytes : Type 0
Bytes = List ℕ

-- The bytes of an ASCII literal.
abbrev pub codes : String → Bytes
codes String.[] = []
codes (String.◌∷◌ c s) = code c ∷ codes s

-- No byte is the NUL that ends a C string.
abbrev pub NoNul : Bytes → Type 0
NoNul [] = Unit
NoNul (c ∷ cs) = (0 < c) × NoNul cs

-- `memcmp(a, b, n) == 0`.
unfoldable pub memcmp_is_zero : ℕ → Bytes → Bytes → Bool
memcmp_is_zero zero a b = true
memcmp_is_zero (suc n) (x ∷ a) (y ∷ b) = x == y && memcmp_is_zero n a b
memcmp_is_zero (suc n) a b = false

-- `tolower` of the C locale.
unfoldable pub to_lower : ℕ → ℕ
to_lower c = if leb b'A' c && leb c b'Z' then c + 32 else c

-- `strncasecmp(a, b, n) == 0` for strings whose NUL is the end of the list.
unfoldable pub strncasecmp_is_zero : ℕ → Bytes → Bytes → Bool
unfolding to_lower
strncasecmp_is_zero zero a b = true
strncasecmp_is_zero (suc n) [] [] = true
strncasecmp_is_zero (suc n) (x ∷ a) (y ∷ b) = to_lower x == to_lower y && strncasecmp_is_zero n a b
strncasecmp_is_zero (suc n) a b = false
