-- ===== src/EventLoop/Chain.antt =====
-- What the list of event_loop.c holds: a chain of distinct addresses, linked both ways.
use c_http_server.Prelude.{
  ℕ, ◌==◌, true, false, Option, none, some, List, [], ◌∷◌, ◌≡◌, ◌≢◌, refl, ◌∙◌, arith,
}
use c_http_server.EventLoop.List.{Node, Heap, store_at, set_prev, store_through}

-- `a` is none of the addresses.
abbrev pub Avoids : ℕ → List ℕ → Type 0
Avoids a [] = Unit
Avoids a (x ∷ xs) = (x ≢ a) × Avoids a xs

abbrev pub IsDistinct : List ℕ → Type 0
IsDistinct [] = Unit
IsDistinct (x ∷ xs) = Avoids x xs × IsDistinct xs

-- From the pointer `p`, whose node points back to `before`, the nodes of the addresses in order.
pub data IsChain (heap : Heap) : Option ℕ → Option ℕ → List ℕ → Type 0 where
  stop : {before : Option ℕ} → IsChain heap before none []
  link :
      {before : Option ℕ} {a : ℕ} {xs : List ℕ} (n : Node)
      → heap a ≡ some n
      → n.prev ≡ before
      → IsChain heap (some a) n.next xs
      → IsChain heap before (some a) (a ∷ xs)

pub store_at_other :
    (p q : ℕ) (f : Node → Node) (heap : Heap) → q ≢ p → store_at p f heap q ≡ heap q
store_at_other p q f heap h = let e : q == p ≡ false = ground (arith, h) in simp e refl

pub store_at_self :
    (p : ℕ) (n : Node) (f : Node → Node) (heap : Heap)
    → heap p ≡ some n
    → store_at p f heap p ≡ some (f n)
store_at_self p n f heap h = let e : p == p ≡ true = ground arith in simp (e, h) refl

-- A store elsewhere leaves a chain as it is.
pub store_at-IsChain :
    (p : ℕ) (f : Node → Node) (heap : Heap) (before q : Option ℕ) (xs : List ℕ)
    → Avoids p xs
    → IsChain heap before q xs
    → IsChain (store_at p f heap) before q xs
store_at-IsChain p f heap before _ _ h stop = stop
store_at-IsChain p f heap before _ (a ∷ xs) h (link n at e c) =
    link n (store_at_other p a f heap h.0 ∙ at) e
      (store_at-IsChain p f heap (some a) n.next xs h.1 c)

-- Pointing the first node of a chain back to `after`.
pub relink :
    (heap : Heap) (before after q : Option ℕ) (xs : List ℕ)
    → IsDistinct xs
    → IsChain heap before q xs
    → IsChain (store_through q (set_prev after) heap) after q xs
relink heap before after _ _ d stop = stop
relink heap before after _ (a ∷ xs) d (link n at e c) =
    link (set_prev after n) (store_at_self a n (set_prev after) heap at) refl
      (store_at-IsChain a (set_prev after) heap (some a) n.next xs d.0 c)
