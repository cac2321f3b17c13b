-- ===== src/WorkerPool/Serving.antt =====
-- When the pool of worker_pool.c reports success, and what its workers leave open.
use c_http_server.Prelude.{
  ℕ, ◌+◌, ◌<◌, Bool, Bool-cases, true, false, not, ◌&&◌, Option, Option-cases, none, some, inl, inr,
  ◌↔◌, List, [], ◌∷◌, ◌≡◌, refl, ◌∙◌, ap, arith, if◌then◌else◌, length,
}
use c_http_server.StaticFiles.Descriptors.{Descriptors, close, holding, close-holding}
use c_http_server.WorkerPool.Run.{
  WorkerCalls, create_listen_socket, worker_main, started_count, serving_count, worker_pool_run,
}

-- The four calls behind `socket`, which all close it when they fail.
set_up :
    (a b c d : Bool) (fd : ℕ) (ds : Descriptors)
    → ◌≡◌ {A = Option ℕ × Descriptors}
        (if not a
          then (none, close fd (holding fd ds))
          else if not b
          then (none, close fd (holding fd ds))
          else if not c
          then (none, close fd (holding fd ds))
          else if not d
          then (none, close fd (holding fd ds))
          else (some fd, holding fd ds))
        (if a && b && c && d then (some fd, holding fd ds) else (none, ds))
set_up false b c d fd ds = ap (λ x. (none, x)) (close-holding fd ds)
set_up true false c d fd ds = ap (λ x. (none, x)) (close-holding fd ds)
set_up true true false d fd ds = ap (λ x. (none, x)) (close-holding fd ds)
set_up true true true false fd ds = ap (λ x. (none, x)) (close-holding fd ds)
set_up true true true true fd ds = refl

abbrev pub all_ok : WorkerCalls → Bool
all_ok w = w.reuseaddr_ok && w.reuseport_ok && w.bind_ok && w.listen_ok

create_listen_socket-opened :
    (w : WorkerCalls) (fd : ℕ) (ds : Descriptors)
    → w.answer_socket ≡ some fd
    → create_listen_socket w ds ≡ (if all_ok w then (some fd, holding fd ds) else (none, ds))
unfolding create_listen_socket
create_listen_socket-opened w fd ds e =
    simp (e, create_listen_socket)
      (set_up w.reuseaddr_ok w.reuseport_ok w.bind_ok w.listen_ok fd ds)

-- What a worker returns.
abbrev pub serves : WorkerCalls → Option ℕ → Bool
serves w none = false
serves w (some fd) = all_ok w && w.loop_ok

-- A worker leaves no descriptor of its own open, on any path, and counts as having served exactly
-- if it got a socket, set it up, listened on it, and its event loop returned 0.
pub worker_main-serves :
    (w : WorkerCalls) (ds : Descriptors) → worker_main w ds ≡ (serves w w.answer_socket, ds)
unfolding worker_main
worker_main-serves w ds = elim (Option-cases w.answer_socket) [
  | inl failed ↦
      let none_open : create_listen_socket w ds ≡ (none, ds) =
        unfold create_listen_socket in simp (failed, create_listen_socket) refl in
      simp (none_open, failed, worker_main) refl
  | inr (fd, opened) ↦ elim (Bool-cases (all_ok w)) [
    | inl ok ↦
        let listening : create_listen_socket w ds ≡ (some fd, holding fd ds) =
          create_listen_socket-opened w fd ds opened ∙ simp ok refl in
        simp (listening, opened, ok, close-holding, worker_main) refl
    | inr broken ↦
        let given_up : create_listen_socket w ds ≡ (none, ds) =
          create_listen_socket-opened w fd ds opened ∙ simp broken refl in
        simp (given_up, opened, broken, worker_main) refl
  ]
]

-- One of the workers was created and joined, and had served.
pub data SomeServes : List WorkerCalls → Type 0 where
  here :
      {w : WorkerCalls} {ws : List WorkerCalls}
      → w.create_ok ≡ true
      → w.join_ok ≡ true
      → serves w w.answer_socket ≡ true
      → SomeServes (w ∷ ws)
  there : {w : WorkerCalls} {ws : List WorkerCalls} → SomeServes ws → SomeServes (w ∷ ws)

-- No thread leaves a descriptor open.
serving_count-descriptors :
    (ds : Descriptors) (ws : List WorkerCalls) → (serving_count ds ws).1 ≡ ds
unfolding serving_count
serving_count-descriptors ds [] = refl
serving_count-descriptors ds (w ∷ ws) =
    let rest = serving_count-descriptors ds ws in
    rw (worker_main-serves w ds) (ground (arith, rest))

serving_count-cons :
    (ds : Descriptors) (w : WorkerCalls) (ws : List WorkerCalls)
    → (serving_count ds (w ∷ ws)).0 ≡ (
        if w.create_ok && w.join_ok && serves w w.answer_socket
        then (serving_count ds ws).0 + 1
        else (serving_count ds ws).0)
unfolding serving_count
serving_count-cons ds w ws = rw (worker_main-serves w ds) (ground arith)

some_serve :
    (ds : Descriptors) (ws : List WorkerCalls) → 0 < (serving_count ds ws).0 → SomeServes ws
some_serve ds [] h = absurd (unfold serving_count in omega arith)
some_serve ds (w ∷ ws) h =
    elim (Bool-cases (w.create_ok && w.join_ok && serves w w.answer_socket)) [
      | inl this ↦ here (ground arith) (ground arith) (ground arith)
      | inr other ↦ there (some_serve ds ws (rw (serving_count-cons ds w ws, other) at h))
    ]

serving_positive :
    (ds : Descriptors) (ws : List WorkerCalls) → SomeServes ws → 0 < (serving_count ds ws).0
serving_positive ds [] s = elim s [ ]
serving_positive ds (w ∷ ws) (here created joined served) =
    rw (serving_count-cons ds w ws, created, joined, served) (omega arith)
serving_positive ds (w ∷ ws) (there later) =
    let rest = serving_positive ds ws later in
    rw (serving_count-cons ds w ws) (ground (arith, rest))

started_positive : (ws : List WorkerCalls) → SomeServes ws → 0 < started_count ws
unfolding started_count
started_positive [] s = elim s [ ]
started_positive (w ∷ ws) (here created joined served) = rw created (omega arith)
started_positive (w ∷ ws) (there later) =
    let rest = started_positive ws later in ground (arith, rest)

nonempty : (ws : List WorkerCalls) → SomeServes ws → 0 < length ws
nonempty [] s = elim s [ ]
nonempty (w ∷ ws) s = omega arith

-- The pool returns 0 exactly if its array could be allocated and one of its workers was created,
-- served and was joined.
pub worker_pool_run-SomeServes :
    (calloc_ok : Bool) (ds : Descriptors) (ws : List WorkerCalls)
    → ((worker_pool_run calloc_ok ds ws).0 ≡ true) ↔ ((calloc_ok ≡ true) × SomeServes ws)
unfolding worker_pool_run
worker_pool_run-SomeServes calloc_ok ds ws = (
  λ h. (ground (arith, h), some_serve ds ws (ground (arith, h))),
  λ s.
      let n = nonempty ws s.1 in
      let p = started_positive ws s.1 in
      let q = serving_positive ds ws s.1 in ground (arith, n, p, q, s.0),
)

-- Nor does the pool, however many of its workers were created, served and were joined.
pub worker_pool_run-descriptors :
    (calloc_ok : Bool) (ds : Descriptors) (ws : List WorkerCalls)
    → (worker_pool_run calloc_ok ds ws).1 ≡ ds
unfolding worker_pool_run
worker_pool_run-descriptors calloc_ok ds ws =
    let after = serving_count-descriptors ds ws in ground (arith, after)
