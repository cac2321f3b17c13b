-- ===== src/EventLoop/Linked.antt =====
-- `list_insert` and `list_remove` of event_loop.c on a chain.
use c_http_server.Prelude.{
  ℕ, ◌==◌, Bool-cases, inl, inr, Option, Option-cases, none, some, List, [], ◌∷◌, ◌++◌, ◌≡◌, ◌≢◌,
  refl, ◌∙◌, sym, ap,
}
use mathlib.Core.Path.{subst}
use c_http_server.EventLoop.List.{
  Node, Heap, Connections, store_at, set_prev, set_next, store_through, head_after, list_insert,
  list_remove, activity,
}
use c_http_server.EventLoop.Chain.{
  Avoids, IsDistinct, IsChain, stop, link, store_at_other, store_at_self, store_at-IsChain, relink,
}

abbrev pub first : List ℕ → Option ℕ
first [] = none
first (x ∷ xs) = some x

abbrev pub last_of : Option ℕ → List ℕ → Option ℕ
last_of before [] = before
last_of before (a ∷ xs) = last_of (some a) xs

abbrev pub PointsOutside : Option ℕ → List ℕ → Type 0
PointsOutside none xs = Unit
PointsOutside (some a) xs = Avoids a xs

pub IsChain-first :
    (heap : Heap) (before p : Option ℕ) (xs : List ℕ) → IsChain heap before p xs → p ≡ first xs
IsChain-first heap before _ _ stop = refl
IsChain-first heap before _ _ (link n at e c) = refl

store_through-IsChain :
    (to : Option ℕ) (f : Node → Node) (heap : Heap) (before q : Option ℕ) (xs : List ℕ)
    → PointsOutside to xs
    → IsChain heap before q xs
    → IsChain (store_through to f heap) before q xs
store_through-IsChain none f heap before q xs h c = c
store_through-IsChain (some p) f heap before q xs h c = store_at-IsChain p f heap before q xs h c

-- A pointer to an element is not to an address that the list avoids.
first-outside :
    (a : ℕ) (xs : List ℕ) (f : Node → Node) (heap : Heap)
    → Avoids a xs
    → store_through (first xs) f heap a ≡ heap a
first-outside a [] f heap h = refl
first-outside a (x ∷ xs) f heap h = store_at_other x a f heap (λ e. h.0 (sym e))

last-outside :
    (a b : ℕ) (xs : List ℕ) (f : Node → Node) (heap : Heap)
    → b ≢ a
    → Avoids a xs
    → store_through (last_of (some b) xs) f heap a ≡ heap a
last-outside a b [] f heap h k = store_at_other b a f heap (λ e. h (sym e))
last-outside a b (x ∷ xs) f heap h k = last-outside a x xs f heap k.0 k.1

Avoids-left : (a : ℕ) (xs ys : List ℕ) → Avoids a (xs ++ ys) → Avoids a xs
Avoids-left a [] ys h = tt
Avoids-left a (x ∷ xs) ys h = (h.0, Avoids-left a xs ys h.1)

Avoids-right : (a : ℕ) (xs ys : List ℕ) → Avoids a (xs ++ ys) → Avoids a ys
Avoids-right a [] ys h = h
Avoids-right a (x ∷ xs) ys h = Avoids-right a xs ys h.1

-- The list is a chain from its head.
pub record Holds (loop : Connections) (xs : List ℕ) : Type 0 where
  pub distinct : IsDistinct xs
  pub chain : IsChain loop.heap none loop.head xs

-- The heap behind the removal of what stands between `ys` and `zs`.
abbrev bridged : Option ℕ → List ℕ → List ℕ → Heap → Heap
bridged before ys zs heap =
    store_through (first zs) (set_prev (last_of before ys))
      (store_through (last_of before ys) (set_next (first zs)) heap)

outside_tail :
    (before : Option ℕ) (x : ℕ) (xs : List ℕ)
    → PointsOutside before (x ∷ xs)
    → PointsOutside before xs
outside_tail none x xs h = tt
outside_tail (some a) x xs h = h.1

module _ (conn : ℕ) (zs : List ℕ) (heap : Heap) where
  -- The node that is taken out points to its neighbours.
  pub node_of :
      (before p : Option ℕ) (ys : List ℕ)
      → IsChain heap before p (ys ++ (conn ∷ zs))
      → (n : Node) × (heap conn ≡ some n) × (n.prev ≡ last_of before ys) × (n.next ≡ first zs)
  node_of before _ [] (link n at e c) = (n, at, e, IsChain-first heap (some conn) n.next zs c)
  node_of before _ (a ∷ ys) (link n at e c) = node_of (some a) n.next ys c

  bridged-IsChain :
      (before p : Option ℕ) (ys : List ℕ)
      → IsDistinct (ys ++ (conn ∷ zs))
      → PointsOutside before (ys ++ (conn ∷ zs))
      → IsChain heap before p (ys ++ (conn ∷ zs))
      → IsChain (bridged before ys zs heap) before (first (ys ++ zs)) (ys ++ zs)
  bridged-IsChain before _ [] d out (link n at e c) =
      let next_is = IsChain-first heap (some conn) n.next zs c in
      let c' = subst (λ (q : Option ℕ). IsChain heap (some conn) q zs) next_is c in
      relink (store_through before (set_next (first zs)) heap) (some conn) before (first zs) zs d.1
        (store_through-IsChain before (set_next (first zs)) heap (some conn) (first zs) zs
          (outside_tail before conn zs out) c')
  bridged-IsChain before _ (a ∷ []) d out (link n at e c) =
      link (set_next (first zs) n)
        (first-outside a zs (set_prev (some a)) (store_at a (set_next (first zs)) heap) d.0.1
          ∙ store_at_self a n (set_next (first zs)) heap at)
        e (bridged-IsChain (some a) n.next [] d.1 d.0 c)
  bridged-IsChain before _ (a ∷ b ∷ ys) d out (link n at e c) =
      let next_is = IsChain-first heap (some a) n.next (b ∷ (ys ++ (conn ∷ zs))) c in
      let rest = bridged-IsChain (some a) n.next (b ∷ ys) d.1 d.0 c in
      let apart = Avoids-right a ys (conn ∷ zs) d.0.1 in
      link n
        (first-outside a zs (set_prev (last_of (some b) ys))
            (store_through (last_of (some b) ys) (set_next (first zs)) heap) apart.1
          ∙ last-outside a b ys (set_next (first zs)) heap d.0.0
              (Avoids-left a ys (conn ∷ zs) d.0.1)
          ∙ at)
        e
        (subst
          (λ (q : Option ℕ).
            IsChain (bridged (some a) (b ∷ ys) zs heap) (some a) q (b ∷ (ys ++ zs)))
          (sym next_is) rest)

-- Taking one address out of distinct ones.
Avoids-without : (a conn : ℕ) (ys zs : List ℕ) → Avoids a (ys ++ (conn ∷ zs)) → Avoids a (ys ++ zs)
Avoids-without a conn [] zs h = h.1
Avoids-without a conn (y ∷ ys) zs h = (h.0, Avoids-without a conn ys zs h.1)

pub IsDistinct-without :
    (conn : ℕ) (ys zs : List ℕ) → IsDistinct (ys ++ (conn ∷ zs)) → IsDistinct (ys ++ zs)
IsDistinct-without conn [] zs d = d.1
IsDistinct-without conn (y ∷ ys) zs d =
    (Avoids-without y conn ys zs d.0, IsDistinct-without conn ys zs d.1)

head_kept :
    (a : ℕ) (ys : List ℕ) (next head : Option ℕ) → head_after (last_of (some a) ys) next head ≡ head
head_kept a [] next head = refl
head_kept a (y ∷ ys) next head = head_kept y ys next head

head_after-first :
    (conn : ℕ) (ys zs : List ℕ) (head : Option ℕ)
    → head ≡ first (ys ++ (conn ∷ zs))
    → head_after (last_of none ys) (first zs) head ≡ first (ys ++ zs)
head_after-first conn [] zs head e = refl
head_after-first conn (a ∷ ys) zs head e = head_kept a ys (first zs) head ∙ e

-- Inserting an allocated connection that is not on the list puts it in front of the others.
pub list_insert-Holds :
    (loop : Connections) (conn : ℕ) (xs : List ℕ) (n : Node)
    → Holds loop xs
    → loop.heap conn ≡ some n
    → Avoids conn xs
    → Holds (list_insert loop conn) (conn ∷ xs)
unfolding list_insert
list_insert-Holds loop conn xs n h at out = record {
  distinct = (out, h.distinct);
  chain =
      let f : Node → Node = λ m. set_next loop.head (set_prev none m) in
      let stored = store_at conn f loop.heap in
      let at_head = IsChain-first loop.heap none loop.head xs h.chain in
      link (f n)
        (ap (λ (q : Option ℕ). store_through q (set_prev (some conn)) stored conn) at_head
          ∙ first-outside conn xs (set_prev (some conn)) stored out
          ∙ store_at_self conn n f loop.heap at)
        refl
        (relink stored none (some conn) loop.head xs h.distinct
          (store_at-IsChain conn f loop.heap none loop.head xs out h.chain));
}

store_at-activity :
    (p a : ℕ) (f : Node → Node) (heap : Heap)
    → ((n : Node) → (f n).last_activity ≡ n.last_activity)
    → activity (store_at p f heap) a ≡ activity heap a
store_at-activity p a f heap h = elim (Bool-cases (a == p)) [
  | inr other ↦ simp other refl
  | inl this ↦ elim (Option-cases (heap a)) [
    | inl free_there ↦ simp (this, free_there) refl
    | inr (n, at) ↦ simp (this, at) (ap some (h n))
  ]
]

store_through-activity :
    (to : Option ℕ) (a : ℕ) (f : Node → Node) (heap : Heap)
    → ((n : Node) → (f n).last_activity ≡ n.last_activity)
    → activity (store_through to f heap) a ≡ activity heap a
store_through-activity none a f heap h = refl
store_through-activity (some p) a f heap h = store_at-activity p a f heap h

bridged-activity :
    (before : Option ℕ) (ys zs : List ℕ) (heap : Heap) (a : ℕ)
    → activity (bridged before ys zs heap) a ≡ activity heap a
bridged-activity before ys zs heap a =
    store_through-activity (first zs) a (set_prev (last_of before ys))
      (store_through (last_of before ys) (set_next (first zs)) heap) (λ n. refl)
    ∙ store_through-activity (last_of before ys) a (set_next (first zs)) heap (λ n. refl)

-- Removing a connection that is on the list leaves the others, in their order, and the activity of
-- every connection as it was.
pub list_remove-Holds :
    (loop : Connections) (conn : ℕ) (ys zs : List ℕ)
    → Holds loop (ys ++ (conn ∷ zs))
    → (after : Connections) × (list_remove loop conn ≡ some after)
      × Holds after (ys ++ zs)
      × ((a : ℕ) → activity after.heap a ≡ activity loop.heap a)
unfolding list_remove
list_remove-Holds loop conn ys zs h =
    let (n, at, prev_is, next_is) = node_of conn zs loop.heap none loop.head ys h.chain in
    let at_head = IsChain-first loop.heap none loop.head (ys ++ (conn ∷ zs)) h.chain in
    let after : Connections = record {
      heap = bridged none ys zs loop.heap;
      head = head_after (last_of none ys) (first zs) loop.head;
    } in
    (
      after,
      simp (at, prev_is, next_is, list_remove) refl,
      record {
        distinct = IsDistinct-without conn ys zs h.distinct;
        chain =
            subst (λ (q : Option ℕ). IsChain (bridged none ys zs loop.heap) none q (ys ++ zs))
              (sym (head_after-first conn ys zs loop.head at_head))
              (bridged-IsChain conn zs loop.heap none loop.head ys h.distinct tt h.chain);
      },
      λ a. bridged-activity none ys zs loop.heap a,
    )
