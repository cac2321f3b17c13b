-- ===== src/EventLoop/Accepts.antt =====
-- `accept_new_connections` of event_loop.c on a running loop.
use c_http_server.Prelude.{
  ℕ, ◌+◌, Bool, true, false, Option, Option-cases, Bool-cases, ◌==◌, inl, inr, none, some, List, [],
  ◌∷◌, ◌≡◌, refl, sym, ◌∙◌, ap, arith,
}
use mathlib.Core.Path.{subst}
use c_http_server.StaticFiles.Descriptors.{Descriptors, holding, close, close-holding}
use c_http_server.EventLoop.List.{Heap, store_at, set_prev, set_next, list_insert}
use c_http_server.EventLoop.Chain.{Avoids}
use c_http_server.EventLoop.Linked.{list_insert-Holds}
use c_http_server.EventLoop.Server.{
  System, Server, put, hang_up, Accept, new_client, backlog_empty, accept_interrupted,
  accept_failed, fresh_connection, fresh_node, start_connection, welcome, accept_new_connections,
}
use c_http_server.EventLoop.Members.{
  AllIn, AllIn-longer, store_at-free, store_through-free, put_self, Avoids-free, put-IsChain,
}
use c_http_server.EventLoop.Live.{IsSettled, reads, IsLive, all_held-put, AllSettled-put}
use c_http_server.EventLoop.Closes.{GoesOn, on, stalled, hang_up-IsLive}

-- `malloc` gives no address that is still allocated.
abbrev pub IsFresh : (ℕ → Heap → Option ℕ) → Type 0
IsFresh malloc = (n : ℕ) (heap : Heap) (a : ℕ) → malloc n heap ≡ some a → heap a ≡ none

-- The socket is open, and `malloc` has been called.
abbrev opened : ℕ → Server → Server
opened fd s = record s { descriptors = holding fd s.descriptors; mallocs = s.mallocs + 1 }

module _ (base : Descriptors) (sys : System) (fd a : ℕ) (s : Server) (xs : List ℕ)
    (live : IsLive base s xs) (gone : s.listed.heap a ≡ none) where
  out : Avoids a xs
  out = Avoids-free a s.listed.heap none s.listed.head xs gone live.holds.chain

  start_connection-IsLive : IsLive base (start_connection sys fd a (opened fd s)) (a ∷ xs)
  unfolding start_connection list_insert
  start_connection-IsLive =
      let now = sys.loop.clock s.times in
      let conn = fresh_connection fd now in
      let stored : put a conn s.contents a ≡ conn = put_self a conn s.contents in
      let settles : IsSettled conn = reads refl refl refl in
      record {
        holds =
            list_insert-Holds
              (record s.listed { heap = put a (some (fresh_node now)) s.listed.heap }) a xs
              (fresh_node now)
              (record {
                distinct = live.holds.distinct;
                chain =
                    put-IsChain a (some (fresh_node now)) s.listed.heap none s.listed.head xs out
                      live.holds.chain;
              })
              (put_self a (some (fresh_node now)) s.listed.heap) out;
        settled = (
          subst IsSettled (sym stored) settles,
          AllSettled-put s.contents a conn xs out live.settled,
        );
        open_are =
            ap (holding fd) live.open_are
            ∙ sym (rw (stored, all_held-put s.contents base a conn xs out) refl);
        no_others = λ b.
            let heap = put a (some (fresh_node now)) s.listed.heap in
            elim (Bool-cases (b == a)) [
              | inl this ↦ let here : a ≡ b = ground (arith, this) in inl (inl here)
              | inr other ↦ elim (live.no_others b) [
                | inl has ↦ inl (inr has)
                | inr free_before ↦
                    let still : heap b ≡ none = simp other free_before in
                    inr (
                      store_through-free s.listed.head b (set_prev (some a))
                        (store_at a (λ n. set_next s.listed.head (set_prev none n)) heap)
                        (store_at-free a b _ heap still))
              ]
            ];
        allocated = let e = live.allocated in omega arith;
      }

module _ (base : Descriptors) (sys : System) (fresh : IsFresh sys.malloc) (names : List ℕ) where
  -- Registered or not, behind the insertion.
  register-IsLive :
      (registered : Bool) (a : ℕ) (s : Server) (xs : List ℕ)
      → IsLive base s (a ∷ xs)
      → AllIn names xs
      → (after : Server) × (ys : List ℕ) × (elim registered as (λ x. Option Server) [
        | true ↦ some s
        | false ↦ hang_up s a
      ]
          ≡ some after)
        × IsLive base after ys
        × AllIn names ys
  register-IsLive true a s xs live named = (s, a ∷ xs, refl, live, AllIn-longer a names xs named)
  register-IsLive false a s xs live named =
      let (after, closed, left, same) = hang_up-IsLive base s a [] xs live in
      (after, xs, closed, left, named)

  -- A connection that is accepted is put on the list, or nothing of it is left.
  welcome-IsLive :
      (fd : ℕ) (registered : Bool) (s : Server) (xs : List ℕ)
      → IsLive base s xs
      → AllIn names xs
      → (after : Server) × (ys : List ℕ) × (welcome sys fd registered s ≡ some after)
        × IsLive base after ys
        × AllIn names ys
  unfolding welcome
  welcome-IsLive fd registered s xs live named =
      elim (Option-cases (sys.malloc s.mallocs s.listed.heap)) [
        | inl out_of_memory ↦ (
          record s { descriptors = close fd (holding fd s.descriptors); mallocs = s.mallocs + 1 },
          xs,
          simp (out_of_memory, welcome) refl,
          record {
            holds = live.holds;
            settled = live.settled;
            open_are = close-holding fd s.descriptors ∙ live.open_are;
            no_others = live.no_others;
            allocated = let e = live.allocated in omega arith;
          },
          named,
        )
        | inr (a, given) ↦
            let gone = fresh s.mallocs s.listed.heap a given in
            let started = start_connection-IsLive base sys fd a s xs live gone in
            let (after, ys, e, left, named') =
              register-IsLive registered a (start_connection sys fd a (opened fd s)) xs started
                named in
            (after, ys, simp (given, welcome) e, left, named')
      ]

  pub accept_new_connections-GoesOn :
      (answers : List Accept) (s : Server) (xs : List ℕ)
      → IsLive base s xs
      → AllIn names xs
      → GoesOn base names (accept_new_connections sys answers s)
  unfolding accept_new_connections
  accept_new_connections-GoesOn [] s xs live named = stalled
  accept_new_connections-GoesOn (new_client fd registered ∷ answers) s xs live named =
      let (after, ys, e, live', named') = welcome-IsLive fd registered s xs live named in
      simp (e, accept_new_connections) (accept_new_connections-GoesOn answers after ys live' named')
  accept_new_connections-GoesOn (backlog_empty ∷ answers) s xs live named = on s xs live named
  accept_new_connections-GoesOn (accept_interrupted ∷ answers) s xs live named =
      accept_new_connections-GoesOn answers s xs live named
  accept_new_connections-GoesOn (accept_failed ∷ answers) s xs live named = on s xs live named
