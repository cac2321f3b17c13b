-- ===== src/Prelude/Strtol.antt =====
-- `strtol` of <stdlib.h> in base 10, with a `long` of 64 bits.
use Prim.Native.Nat.{ℕ, ◌+◌, ◌-◌, ◌*◌, ◌^◌, min}
use mathlib.Core.Bool.{Bool, true, false, ◌&&◌, ◌||◌}
use mathlib.Core.List.{[], ◌∷◌}
use mathlib.Core.Option.{Option, none, some}
use c_http_server.Prelude.Tests.{leb, ◌==◌, if◌then◌else◌}
use c_http_server.Prelude.Text.{Bytes}

abbrev pub is_digit : ℕ → Bool
is_digit c = leb b'0' c && leb c b'9'

-- The digits at the front, read behind the value `v`, and what follows them.
unfoldable pub digits_value : ℕ → Bytes → ℕ × Bytes
digits_value v [] = (v, [])
digits_value v (c ∷ cs) =
    let rest = digits_value (v * 10 + (c - b'0')) cs in if is_digit c then rest else (v, c ∷ cs)

-- A number behind its sign: whether it is negative, its size, which stops at the ends of `long`,
-- and `*end`. `none` where no digit stands there, and `end` is the whole string.
unfoldable pub number : Bool → Bytes → Option (Bool × ℕ × Bytes)
number negative [] = none
number negative (c ∷ cs) =
    let (v, end) = digits_value 0 (c ∷ cs) in
    if is_digit c
    then some (negative, min v (if negative then 2 ^ 63 else 2 ^ 63 - 1), end)
    else none

-- `isspace` of the C locale.
abbrev pub is_space : ℕ → Bool
is_space c = c == b' ' || (leb 9 c && leb c 13)

unfoldable pub skip_space : Bytes → Bytes
skip_space [] = []
skip_space (c ∷ cs) = if is_space c then skip_space cs else c ∷ cs

unfoldable pub signed : Bytes → Option (Bool × ℕ × Bytes)
unfolding number
signed [] = none
signed (c ∷ cs) =
    if c == b'-'
    then number true cs
    else if c == b'+'
    then number false cs
    else number false (c ∷ cs)

unfoldable pub strtol : Bytes → Option (Bool × ℕ × Bytes)
unfolding skip_space
strtol s = signed (skip_space s)
