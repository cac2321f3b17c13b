-- ===== src/StaticFiles/Descriptors.antt =====
-- The open descriptors of the process, which the sources open and `close`.
use c_http_server.Prelude.{ℕ, ◌+◌, ◌-◌, Bool-cases, inl, inr, ◌==◌, if◌then◌else◌, ◌≡◌, refl, arith}
use mathlib.Core.Path.{fun_ext}

-- How many times each number is open; the order in which they were opened is forgotten.
abbrev pub Descriptors : Type 0
Descriptors = ℕ → ℕ

abbrev pub none_open : Descriptors
none_open fd = 0

-- `fd` beside `ds`.
unfoldable pub holding : ℕ → Descriptors → Descriptors
holding fd ds q = if q == fd then ds q + 1 else ds q

-- `close(fd)`.
unfoldable pub close : ℕ → Descriptors → Descriptors
close fd ds q = if q == fd then ds q - 1 else ds q

pub close-holding : (fd : ℕ) (ds : Descriptors) → close fd (holding fd ds) ≡ ds
unfolding close holding
close-holding fd ds = fun_ext (λ q. elim (Bool-cases (q == fd)) [
  | inl this ↦ let e : ds q + 1 - 1 ≡ ds q = omega arith in simp this e
  | inr other ↦ simp other refl
])

pub holding_swap :
    (a b : ℕ) (ds : Descriptors) → holding a (holding b ds) ≡ holding b (holding a ds)
unfolding holding
holding_swap a b ds = fun_ext (λ q. elim (Bool-cases (q == a)) [
  | inl this ↦ elim (Bool-cases (q == b)) [
    | inl both ↦ simp (this, both) refl
    | inr only ↦ simp (this, only) refl
  ]
  | inr other ↦ elim (Bool-cases (q == b)) [
    | inl this ↦ simp (this, other) refl
    | inr neither ↦ simp (other, neither) refl
  ]
])
