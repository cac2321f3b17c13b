-- ===== src/Main/Signals.antt =====
-- `handle_shutdown_signal` of main.c. The counter of the eventfd is the kernel's: a `write` of 1
-- answers with the counter behind it and whether it fails, with its `errno`.
use Prim.Native.Nat.{min}
use c_http_server.Prelude.{
  Bool-cases, inl, inr, ◌==◌, ◌+◌, ◌∙◌, ap, arith, ℕ, zero, suc, ◌<◌, ◌≤◌, Option, none, some, ◌≡◌,
  refl,
}

-- The thread's `errno` and the counter of `g_shutdown_fd`.
pub record Signalled : Type 0 where
  pub errno : ℕ
  pub counter : ℕ

-- What `write` leaves: the counter, and `errno` if it failed.
pub record Written : Type 0 where
  pub counter : ℕ
  pub error : Option ℕ

abbrev errno_after : Option ℕ → ℕ → ℕ
errno_after none errno = errno
errno_after (some e) errno = e

-- `write` of 1 to the eventfd.
unfoldable pub write_one : (ℕ → Written) → Signalled → Signalled
write_one answer_write s = record {
  errno = errno_after (answer_write s.counter).error s.errno;
  counter = (answer_write s.counter).counter;
}

unfoldable pub handle_shutdown_signal : (ℕ → Written) → Signalled → Signalled
handle_shutdown_signal answer_write s =
    let saved_errno = s.errno in record (write_one answer_write s) { errno = saved_errno }

-- Any number of signals, one after the other.
unfoldable pub signals : (ℕ → Written) → ℕ → Signalled → Signalled
signals answer_write zero s = s
signals answer_write (suc n) s = signals answer_write n (handle_shutdown_signal answer_write s)

-- eventfd(2): a write of 1 adds to the counter below its maximum; at the maximum it fails, and the
-- counter stays.
pub record WritesCount (answer_write : ℕ → Written) (most : ℕ) : Type 0 where
  pub adds : (c : ℕ) → c < most → (answer_write c).counter ≡ c + 1
  pub full : (answer_write most).counter ≡ most

one_more :
    (answer_write : ℕ → Written) (most c : ℕ)
    → WritesCount answer_write most
    → c ≤ most
    → (answer_write c).counter ≡ min most (c + 1)
one_more answer_write most c w low = elim (Bool-cases (c == most)) [
  | inl at ↦
      let here : c ≡ most = ground (arith, at) in
      let stays = w.full in ap (λ (q : ℕ). (answer_write q).counter) here ∙ omega arith
  | inr other ↦
      let below : c < most = ground (arith, other, low) in let added = w.adds c below in omega arith
]

-- However many signals come, the handler leaves the interrupted thread's errno as it was, and the
-- shutdown descriptor counts them, up to the maximum of its counter, if the writes count as
-- eventfd(2) says.
pub signals-counter :
    (answer_write : ℕ → Written) (most n : ℕ) (s : Signalled)
    → WritesCount answer_write most
    → s.counter ≤ most
    → ((signals answer_write n s).errno ≡ s.errno)
      × ((signals answer_write n s).counter ≡ min most (s.counter + n))
unfolding signals handle_shutdown_signal write_one
signals-counter answer_write most zero s w low = (refl, omega arith)
signals-counter answer_write most (suc n) s w low =
    let once = one_more answer_write most s.counter w low in
    let (same, counts) =
      signals-counter answer_write most n (handle_shutdown_signal answer_write s) w (omega arith) in
    (same, counts ∙ omega arith)
