-- ===== src/EventLoop/Members.antt =====
-- Lemmas on the lists of addresses that stand for the connections of event_loop.c, and on the store
-- of a connection's fields.
use c_http_server.Prelude.{
  ℕ, ◌==◌, ◌⊎◌, Bool-cases, true, false, inl, inr, Option, none, some, List, [], ◌∷◌, ◌++◌, ◌≡◌,
  ◌≢◌, refl, sym, ◌∙◌, ap, arith,
}
use mathlib.Core.Path.{subst}
use mathlib.Core.Option
use c_http_server.EventLoop.List.{Node, Heap, store_at, store_through, activity}
use c_http_server.EventLoop.Chain.{Avoids, IsChain, stop, link}
use c_http_server.EventLoop.Server.{put}

abbrev pub Has : ℕ → List ℕ → Type 0
Has a [] = ⊥
Has a (x ∷ xs) = (x ≡ a) ⊎ Has a xs

abbrev pub AllIn : List ℕ → List ℕ → Type 0
AllIn [] xs = Unit
AllIn (n ∷ ns) xs = Has n xs × AllIn ns xs

pub Has-split :
    (a : ℕ) (xs : List ℕ) → Has a xs → (ys : List ℕ) × (zs : List ℕ) × (xs ≡ ys ++ (a ∷ zs))
Has-split a [] h = elim h [ ]
Has-split a (x ∷ xs) (inl e) = ([], xs, ap (λ (q : ℕ). q ∷ xs) e)
Has-split a (x ∷ xs) (inr h) =
    let (ys, zs, e) = Has-split a xs h in (x ∷ ys, zs, ap (λ (q : List ℕ). x ∷ q) e)

pub Has-without : (n a : ℕ) (ys zs : List ℕ) → n ≢ a → Has n (ys ++ (a ∷ zs)) → Has n (ys ++ zs)
Has-without n a [] zs other (inl e) = absurd (other (sym e))
Has-without n a [] zs other (inr h) = h
Has-without n a (y ∷ ys) zs other (inl e) = inl e
Has-without n a (y ∷ ys) zs other (inr h) = inr (Has-without n a ys zs other h)

pub AllIn-without :
    (a : ℕ) (ns ys zs : List ℕ) → Avoids a ns → AllIn ns (ys ++ (a ∷ zs)) → AllIn ns (ys ++ zs)
AllIn-without a [] ys zs out h = tt
AllIn-without a (n ∷ ns) ys zs out h =
    (Has-without n a ys zs out.0 h.0, AllIn-without a ns ys zs out.1 h.1)

pub AllIn-longer : (a : ℕ) (ns xs : List ℕ) → AllIn ns xs → AllIn ns (a ∷ xs)
AllIn-longer a [] xs h = tt
AllIn-longer a (n ∷ ns) xs h = (inr h.0, AllIn-longer a ns xs h.1)

module _ {A : Type 0} (a : ℕ) (x : A) (f : ℕ → A) where
  pub put_self : put a x f a ≡ x
  put_self = let e : a == a ≡ true = ground arith in simp e refl

  pub put_other : (q : ℕ) → q ≢ a → put a x f q ≡ f q
  put_other q other = let e : q == a ≡ false = ground (arith, other) in simp e refl

-- An address that is not allocated is on no list.
pub Avoids-free :
    (a : ℕ) (heap : Heap) (before q : Option ℕ) (xs : List ℕ)
    → heap a ≡ none
    → IsChain heap before q xs
    → Avoids a xs
Avoids-free a heap before _ _ gone stop = tt
Avoids-free a heap before _ (x ∷ xs) gone (link n at e c) = (
  (λ same. let at_a : heap a ≡ some n = sym (ap heap same) ∙ at in absurd cc),
  Avoids-free a heap (some x) n.next xs gone c,
)

-- A store elsewhere, of a whole connection.
pub put-IsChain :
    (a : ℕ) (new : Option Node) (heap : Heap) (before q : Option ℕ) (xs : List ℕ)
    → Avoids a xs
    → IsChain heap before q xs
    → IsChain (put a new heap) before q xs
put-IsChain a new heap before _ _ out stop = stop
put-IsChain a new heap before _ (x ∷ xs) out (link n at e c) =
    link n (put_other a new heap x out.0 ∙ at) e (put-IsChain a new heap (some x) n.next xs out.1 c)

-- A store to a node that leaves its links as they are.
pub store_kept-IsChain :
    (a : ℕ) (f : Node → Node) (heap : Heap) (before q : Option ℕ) (xs : List ℕ)
    → ((n : Node) → ((f n).prev ≡ n.prev) × ((f n).next ≡ n.next))
    → IsChain heap before q xs
    → IsChain (store_at a f heap) before q xs
store_kept-IsChain a f heap before _ _ kept stop = stop
store_kept-IsChain a f heap before _ (x ∷ xs) kept (link n at e c) =
    let rest = store_kept-IsChain a f heap (some x) n.next xs kept c in
    elim (Bool-cases (x == a)) [
      | inl this ↦
          let here : x ≡ a = ground (arith, this) in
          let stored : store_at a f heap x ≡ some (f n) = simp (this, at) refl in
          link (f n) stored ((kept n).0 ∙ e) (
            subst (λ (q : Option ℕ). IsChain (store_at a f heap) (some x) q xs) (sym (kept n).1)
              rest)
      | inr other ↦
          let stored : store_at a f heap x ≡ some n = simp (other, at) refl in link n stored e rest
    ]

-- Nothing is allocated by a store to fields.
pub store_at-free :
    (p q : ℕ) (f : Node → Node) (heap : Heap) → heap q ≡ none → store_at p f heap q ≡ none
store_at-free p q f heap gone = elim (Bool-cases (q == p)) [
  | inl this ↦ simp (this, gone) refl
  | inr other ↦ simp (other, gone) refl
]

pub store_through-free :
    (to : Option ℕ) (q : ℕ) (f : Node → Node) (heap : Heap)
    → heap q ≡ none
    → store_through to f heap q ≡ none
store_through-free none q f heap gone = gone
store_through-free (some p) q f heap gone = store_at-free p q f heap gone

activity_free : (o : Option Node) → Option.map (λ (n : Node). n.last_activity) o ≡ none → o ≡ none
activity_free none e = refl
activity_free (some n) e = absurd cc

pub free_elsewhere :
    (heap heap' : Heap) (a : ℕ)
    → activity heap' a ≡ activity heap a
    → heap a ≡ none
    → heap' a ≡ none
free_elsewhere heap heap' a same gone =
    activity_free (heap' a) (same ∙ ap (Option.map (λ (n : Node). n.last_activity)) gone)

-- One connection is taken off the list and freed.
pub no_others-without :
    (heap heap' : Heap) (a : ℕ) (ys zs : List ℕ)
    → ((b : ℕ) → Has b (ys ++ (a ∷ zs)) ⊎ (heap b ≡ none))
    → ((b : ℕ) → b ≢ a → activity heap' b ≡ activity heap b)
    → heap' a ≡ none
    → (b : ℕ) → Has b (ys ++ zs) ⊎ (heap' b ≡ none)
no_others-without heap heap' a ys zs before same gone b = elim (Bool-cases (b == a)) [
  | inl this ↦ let here : b ≡ a = ground (arith, this) in inr (ap heap' here ∙ gone)
  | inr other ↦
      let apart : b ≢ a = ground (arith, other) in
      elim (before b) [
        | inl has ↦ inl (Has-without b a ys zs apart has)
        | inr free_before ↦ inr (free_elsewhere heap heap' b (same b apart) free_before)
      ]
]

abbrev next_of : Option Node → Option ℕ
next_of none = none
next_of (some n) = n.next

-- What a list is, is given by its heap and its head.
pub IsChain-unique :
    (heap : Heap) (before before' q : Option ℕ) (xs ys : List ℕ)
    → IsChain heap before q xs
    → IsChain heap before' q ys
    → xs ≡ ys
IsChain-unique heap before before' _ _ _ stop stop = refl
IsChain-unique heap before before' _ (x ∷ xs) _ (link n at e c) (link {xs = ys} m at' e' d) =
    let same : n.next ≡ m.next = ap next_of (sym at ∙ at') in
    ap (λ (q : List ℕ). x ∷ q)
      (IsChain-unique heap (some x) (some x) m.next xs ys
        (subst (λ (q : Option ℕ). IsChain heap (some x) q xs) same c) d)
