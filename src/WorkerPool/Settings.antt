-- ===== src/WorkerPool/Settings.antt =====
-- What the settings in the environment of worker_pool.c and main.c come to.
use c_http_server.Prelude.{
  ℕ, zero, suc, ◌+◌, ◌-◌, ◌*◌, ◌/◌, ◌%◌, ◌^◌, ◌≤◌, ◌<◌, Bool, Bool-cases, true, false, ◌&&◌, ◌||◌,
  Option, none, some, [], ◌∷◌, Bytes, ltb, leb, ◌==◌, ◌≡◌, refl, ◌∙◌, arith, inl, inr, is_digit,
  digits_value, number, skip_space, signed, strtol,
}
use Prim.Native.Nat.{min}
use c_http_server.EventLoop.Response.{digits, decimal}
use c_http_server.WorkerPool.{max_workers, default_idle_timeout_seconds}
use c_http_server.WorkerPool.Count.{
  online_cpu_count, accepted, worker_pool_worker_count, idle_timeout_from_env,
}

abbrev pub Within : ℕ → ℕ → Type 0
Within highest n = (1 ≤ n) × (n ≤ highest)

online_cpu_count-Within : (online : Option ℕ) → Within max_workers (online_cpu_count online)
unfolding online_cpu_count
online_cpu_count-Within none = (omega arith, omega arith)
online_cpu_count-Within (some n) = ground arith

accepted-Within :
    (highest fallback : ℕ) (read : Option (Bool × ℕ × Bytes))
    → Within highest fallback
    → Within highest (accepted highest fallback read)
unfolding accepted
accepted-Within highest fallback none h = h
accepted-Within highest fallback (some (negative, value, end)) h = ground arith

-- Whatever the variable holds and the system says of its CPUs, there are 1 to 64 workers.
pub worker_pool_worker_count-Within :
    (raw : Option Bytes) (online : Option ℕ)
    → (1 ≤ worker_pool_worker_count raw online) × (worker_pool_worker_count raw online ≤ 64)
unfolding worker_pool_worker_count
worker_pool_worker_count-Within none online = online_cpu_count-Within online
worker_pool_worker_count-Within (some []) online = online_cpu_count-Within online
worker_pool_worker_count-Within (some (c ∷ cs)) online =
    accepted-Within max_workers (online_cpu_count online) (strtol (c ∷ cs))
      (online_cpu_count-Within online)

-- Whatever the variable holds, a connection may be idle for 1 to 3600 seconds.
pub idle_timeout_from_env-Within :
    (raw : Option Bytes) → (1 ≤ idle_timeout_from_env raw) × (idle_timeout_from_env raw ≤ 3600)
unfolding idle_timeout_from_env
idle_timeout_from_env-Within none = (omega arith, omega arith)
idle_timeout_from_env-Within (some []) = (omega arith, omega arith)
idle_timeout_from_env-Within (some (c ∷ cs)) =
    accepted-Within 3600 default_idle_timeout_seconds (strtol (c ∷ cs)) (omega arith, omega arith)

digits_value-digits :
    (fuel n : ℕ) (acc : Bytes) → n < fuel → digits_value 0 (digits fuel n acc) ≡ digits_value n acc
unfolding digits digits_value
digits_value-digits zero n acc h = absurd (omega arith)
digits_value-digits (suc fuel) n acc h = elim (Bool-cases (ltb n 10)) [
  | inl small ↦
      let digit : is_digit (b'0' + n) ≡ true = ground arith in
      let value : 0 * 10 + (b'0' + n - b'0') ≡ n = omega arith in simp (small, digit, value) refl
  | inr large ↦
      let digit : is_digit (b'0' + n % 10) ≡ true = ground arith in
      let value : n / 10 * 10 + (b'0' + n % 10 - b'0') ≡ n = omega arith in
      simp large (
        digits_value-digits fuel (n / 10) ((b'0' + n % 10) ∷ acc) (ground arith)
        ∙ simp (digit, value) refl)
]

-- A printed number begins with a digit.
digits-head :
    (fuel n : ℕ) (acc : Bytes)
    → n < fuel
    → (c : ℕ) × (cs : Bytes) × (digits fuel n acc ≡ c ∷ cs) × (is_digit c ≡ true)
unfolding digits
digits-head zero n acc h = absurd (omega arith)
digits-head (suc fuel) n acc h = elim (Bool-cases (ltb n 10)) [
  | inl small ↦ (b'0' + n, acc, simp small refl, ground arith)
  | inr large ↦
      let (c, cs, e, d) = digits-head fuel (n / 10) ((b'0' + n % 10) ∷ acc) (ground arith) in
      (c, cs, simp large e, d)
]

-- `strtol` at a string that begins with a digit.
strtol-digit :
    (c n : ℕ) (cs : Bytes)
    → is_digit c ≡ true
    → digits_value 0 (c ∷ cs) ≡ (n, [])
    → n < 2 ^ 62
    → strtol (c ∷ cs) ≡ some (false, n, [])
unfolding strtol skip_space signed number
strtol-digit c n cs d e h =
    let no_space : (c == b' ' || (leb 9 c && leb c 13)) ≡ false = ground arith in
    let no_minus : c == b'-' ≡ false = ground arith in
    let no_plus : c == b'+' ≡ false = ground arith in
    let fits : min n (2 ^ 63 - 1) ≡ n = omega arith in
    simp (no_space, no_minus, no_plus, d, e, fits) refl

-- A number from 1 to `highest` that is written in decimal is read back.
module _ (n highest : ℕ) (at_least : 1 ≤ n) (at_most : n ≤ highest) (small : highest < 2 ^ 62) where
  accepted-decimal : (fallback : ℕ) → accepted highest fallback (some (false, n, [])) ≡ n
  unfolding accepted
  accepted-decimal fallback = ground arith

  reads_back :
      (c : ℕ) (cs : Bytes)
      → decimal n ≡ c ∷ cs
      → is_digit c ≡ true
      → strtol (c ∷ cs) ≡ some (false, n, [])
  unfolding digits_value
  reads_back c cs e d =
      strtol-digit c n cs d (rw e at (digits_value-digits (n + 1) n [] (omega arith))) (omega arith)

-- A number of workers from 1 to 64, written in decimal, is taken as it stands.
pub worker_pool_worker_count-decimal :
    (n : ℕ) (online : Option ℕ)
    → 1 ≤ n
    → n ≤ 64
    → worker_pool_worker_count (some (decimal n)) online ≡ n
unfolding worker_pool_worker_count
worker_pool_worker_count-decimal n online h1 h2 =
    let (c, cs, e, d) = digits-head (n + 1) n [] (omega arith) in
    rw e (
      rw (reads_back n 64 h1 h2 (omega arith) c cs e d)
        (accepted-decimal n 64 h1 h2 (omega arith) (online_cpu_count online)))

-- A timeout from 1 to 3600 seconds, written in decimal, is taken as it stands.
pub idle_timeout_from_env-decimal :
    (n : ℕ) → 1 ≤ n → n ≤ 3600 → idle_timeout_from_env (some (decimal n)) ≡ n
unfolding idle_timeout_from_env
idle_timeout_from_env-decimal n h1 h2 =
    let (c, cs, e, d) = digits-head (n + 1) n [] (omega arith) in
    rw e (
      rw (reads_back n 3600 h1 h2 (omega arith) c cs e d)
        (accepted-decimal n 3600 h1 h2 (omega arith) default_idle_timeout_seconds))
