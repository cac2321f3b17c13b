-- ===== src/EventLoop/Sweep.antt =====
-- `sweep_idle_connections` of event_loop.c on a chain.
use c_http_server.Prelude.{
  ℕ, zero, suc, ◌+◌, ◌<◌, ◌==◌, Bool, Bool-cases, true, false, inl, inr, Option, none, some, List,
  [], ◌∷◌, ◌++◌, append_assoc, length, ◌≡◌, ◌≢◌, refl, ◌∙◌, sym, ap, arith, if◌then◌else◌,
}
use mathlib.Core.Path.{subst}
use mathlib.Core.Option
use c_http_server.EventLoop.List.{
  Node, Heap, Connections, activity, free, close_listed, is_idle, sweep_from,
  sweep_idle_connections, close_head, close_all_connections, Closing, list_only,
}
use c_http_server.EventLoop.Chain.{Avoids, IsDistinct, IsChain, stop, link}
use c_http_server.EventLoop.Linked.{first, IsChain-first, node_of, Holds, list_remove-Holds}

-- Whether a connection with this activity is kept.
abbrev pub stays : ℕ → ℕ → Option ℕ → Bool
stays now timeout none = true
stays now timeout (some last_activity) = if is_idle now timeout last_activity then false else true

-- The addresses of the connections that are not idle, in their order.
abbrev pub active : ℕ → ℕ → Heap → List ℕ → List ℕ
active now timeout heap [] = []
active now timeout heap (a ∷ xs) =
    let rest = active now timeout heap xs in
    if stays now timeout (activity heap a) then a ∷ rest else rest

active-same :
    (now timeout : ℕ) (heap heap' : Heap) (xs : List ℕ) (conn : ℕ)
    → Avoids conn xs
    → ((a : ℕ) → a ≢ conn → activity heap a ≡ activity heap' a)
    → active now timeout heap xs ≡ active now timeout heap' xs
active-same now timeout heap heap' [] conn out h = refl
active-same now timeout heap heap' (a ∷ xs) conn out h =
    rw (h a out.0, active-same now timeout heap heap' xs conn out.1 h) refl

free-other : (conn a : ℕ) (heap : Heap) → a ≢ conn → free conn heap a ≡ heap a
free-other conn a heap h = let e : a == conn ≡ false = ground (arith, h) in simp e refl

free-IsChain :
    (conn : ℕ) (heap : Heap) (before q : Option ℕ) (xs : List ℕ)
    → Avoids conn xs
    → IsChain heap before q xs
    → IsChain (free conn heap) before q xs
free-IsChain conn heap before _ _ out stop = stop
free-IsChain conn heap before _ (a ∷ xs) out (link n at e c) =
    link n (free-other conn a heap out.0 ∙ at) e (free-IsChain conn heap (some a) n.next xs out.1 c)

Avoids-middle : (y conn : ℕ) (ys zs : List ℕ) → Avoids y (ys ++ (conn ∷ zs)) → conn ≢ y
Avoids-middle y conn [] zs h = h.0
Avoids-middle y conn (x ∷ ys) zs h = Avoids-middle y conn ys zs h.1

-- An element of distinct ones is none of the others.
pub Avoids-others :
    (conn : ℕ) (ys zs : List ℕ) → IsDistinct (ys ++ (conn ∷ zs)) → Avoids conn (ys ++ zs)
Avoids-others conn [] zs d = d.0
Avoids-others conn (y ∷ ys) zs d =
    (λ e. Avoids-middle y conn ys zs d.0 (sym e), Avoids-others conn ys zs d.1)

Avoids-tail : (conn : ℕ) (ys zs : List ℕ) → Avoids conn (ys ++ zs) → Avoids conn zs
Avoids-tail conn [] zs h = h
Avoids-tail conn (y ∷ ys) zs h = Avoids-tail conn ys zs h.1

pub close_listed-Holds :
    (loop : Connections) (conn : ℕ) (ys zs : List ℕ)
    → Holds loop (ys ++ (conn ∷ zs))
    → (after : Connections) × (close_listed loop conn ≡ some after)
      × Holds after (ys ++ zs)
      × ((a : ℕ) → a ≢ conn → activity after.heap a ≡ activity loop.heap a)
      × (after.heap conn ≡ none)
unfolding close_listed
close_listed-Holds loop conn ys zs h =
    let (l, removed, holds, same) = list_remove-Holds loop conn ys zs h in
    let out = Avoids-others conn ys zs h.distinct in
    (
      record l { heap = free conn l.heap },
      simp (removed, close_listed) refl,
      record {
        distinct = holds.distinct;
        chain = free-IsChain conn l.heap none l.head (ys ++ zs) out holds.chain;
      },
      λ a other.
          ap (Option.map (λ (n : Node). n.last_activity)) (free-other conn a l.heap other) ∙ same a,
      (let e : conn == conn ≡ true = ground arith in simp e refl),
    )

-- What the two loops need of a state whose list is `xs` when `Fits` says so.
pub record Keeps {S : Type 0} (c : Closing S) (Fits : S → List ℕ → Type 0) : Type 0 where
  pub holds : (s : S) (xs : List ℕ) → Fits s xs → Holds (c.links s) xs
  pub closes :
      (s : S) (conn : ℕ) (ys zs : List ℕ)
      → Fits s (ys ++ (conn ∷ zs))
      → (after : S) × (c.close_one s conn ≡ some after)
        × Fits after (ys ++ zs)
        × ((a : ℕ) → a ≢ conn → activity (c.links after).heap a ≡ activity (c.links s).heap a)

list_only-Keeps : Keeps list_only Holds
list_only-Keeps = record {
  holds = λ loop xs h. h;
  closes = λ loop conn ys zs h.
      let (after, closed, left, same, gone) = close_listed-Holds loop conn ys zs h in
      (after, closed, left, same);
}

module _ {S : Type 0} (c : Closing S) (Fits : S → List ℕ → Type 0) (k : Keeps c Fits) where
  sweep_from-Fits :
      (fuel now timeout : ℕ) (s : S) (ys zs : List ℕ)
      → Fits s (ys ++ zs)
      → length zs < fuel
      → (after : S) × (sweep_from c fuel now timeout s (first zs) ≡ some after)
        × Fits after (ys ++ active now timeout (c.links s).heap zs)
  unfolding sweep_from
  sweep_from-Fits zero now timeout s ys zs h enough = absurd (omega arith)
  sweep_from-Fits (suc fuel) now timeout s ys [] h enough = (s, refl, h)
  sweep_from-Fits (suc fuel) now timeout s ys (x ∷ zs) h enough =
      let loop = c.links s in
      let list = k.holds s (ys ++ (x ∷ zs)) h in
      let (n, at, prev_is, next_is) = node_of x zs loop.heap none loop.head ys list.chain in
      let act : activity loop.heap x ≡ some n.last_activity =
        ap (Option.map (λ (m : Node). m.last_activity)) at in
      elim (Bool-cases (is_idle now timeout n.last_activity)) [
        | inl idle ↦
            let (l, closed, fits, same) = k.closes s x ys zs h in
            let (after, e, done) = sweep_from-Fits fuel now timeout l ys zs fits (omega arith) in
            let kept : active now timeout (c.links l).heap zs ≡ active now timeout loop.heap zs =
              active-same now timeout (c.links l).heap loop.heap zs x
                (Avoids-tail x ys zs (Avoids-others x ys zs list.distinct)) same in
            let all : active now timeout loop.heap (x ∷ zs) ≡ active now timeout loop.heap zs =
              rw (act, idle) refl in
            (
              after,
              simp (at, idle, closed, next_is, sweep_from) e,
              subst (λ (xs : List ℕ). Fits after (ys ++ xs)) (kept ∙ sym all) done,
            )
        | inr busy ↦
            let moved : (ys ++ (x ∷ [])) ++ zs ≡ ys ++ (x ∷ zs) = append_assoc ys (x ∷ []) zs in
            let (after, e, done) =
              sweep_from-Fits fuel now timeout s (ys ++ (x ∷ [])) zs (subst (Fits s) (sym moved) h)
                (omega arith) in
            let all : active now timeout loop.heap (x ∷ zs) ≡ x ∷ active now timeout loop.heap zs =
              rw (act, busy) refl in
            (
              after,
              simp (at, busy, next_is, sweep_from) e,
              subst (Fits after)
                  (append_assoc ys (x ∷ []) (active now timeout loop.heap zs)
                    ∙ ap (λ xs. ys ++ xs) (sym all))
                  done,
            )
      ]

  pub sweep-Fits :
      (fuel now timeout : ℕ) (s : S) (xs : List ℕ)
      → Fits s xs
      → length xs < fuel
      → (after : S) × (sweep_idle_connections c fuel now timeout s ≡ some after)
        × Fits after (active now timeout (c.links s).heap xs)
  unfolding sweep_idle_connections
  sweep-Fits fuel now timeout s xs h enough =
      let loop = c.links s in
      let at_head = IsChain-first loop.heap none loop.head xs (k.holds s xs h).chain in
      let (after, e, done) = sweep_from-Fits fuel now timeout s [] xs h enough in
      (after, simp (at_head, sweep_idle_connections) e, done)

  pub close_all-Fits :
      (fuel : ℕ) (s : S) (xs : List ℕ)
      → Fits s xs
      → length xs < fuel
      → (after : S) × (close_all_connections c fuel s ≡ some after)
        × Fits after []
        × ((c.links after).head ≡ none)
  unfolding close_all_connections close_head
  close_all-Fits zero s xs h enough = absurd (omega arith)
  close_all-Fits (suc fuel) s [] h enough =
      let loop = c.links s in
      let at_head = IsChain-first loop.heap none loop.head [] (k.holds s [] h).chain in
      (
        s,
        ap (λ (q : Option ℕ). close_head c (close_all_connections c fuel) s q) at_head,
        h,
        at_head,
      )
  close_all-Fits (suc fuel) s (x ∷ xs) h enough =
      let loop = c.links s in
      let at_head = IsChain-first loop.heap none loop.head (x ∷ xs) (k.holds s (x ∷ xs) h).chain in
      let (l, closed, fits, same) = k.closes s x [] xs h in
      let (after, e, done, empty) = close_all-Fits fuel l xs fits (omega arith) in
      let round : close_head c (close_all_connections c fuel) s (some x) ≡ some after =
        simp (closed, close_head) e in
      (
        after,
        ap (λ (q : Option ℕ). close_head c (close_all_connections c fuel) s q) at_head ∙ round,
        done,
        empty,
      )

-- A sweep of a list of connections ends, touches no connection that has been freed, and leaves on
-- the list exactly those that are not idle, in their order.
pub sweep_idle_connections-Holds :
    (now timeout : ℕ) (loop : Connections) (xs : List ℕ)
    → Holds loop xs
    → (after : Connections) × (sweep_idle_connections list_only (length xs + 1) now timeout loop
        ≡ some after)
      × Holds after (active now timeout loop.heap xs)
sweep_idle_connections-Holds now timeout loop xs h =
    sweep-Fits list_only Holds list_only-Keeps (length xs + 1) now timeout loop xs h (omega arith)

-- At shutdown the closing of the connections ends, touches none that has been freed, and leaves the
-- list empty.
pub close_all_connections-Holds :
    (loop : Connections) (xs : List ℕ)
    → Holds loop xs
    → (after : Connections) × (close_all_connections list_only (length xs + 1) loop ≡ some after)
      × Holds after []
      × (after.head ≡ none)
close_all_connections-Holds loop xs h =
    close_all-Fits list_only Holds list_only-Keeps (length xs + 1) loop xs h (omega arith)
