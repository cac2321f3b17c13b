-- ===== src/EventLoop/Closes.antt =====
-- `close_connection` of event_loop.c and the handlers' returns on a running loop.
use c_http_server.Prelude.{
  ℕ, Bool, none, some, List, [], ◌∷◌, ◌++◌, ◌≡◌, ◌≢◌, refl, sym, ◌∙◌, ap, arith, inl, inr,
}
use mathlib.Core.Path.{subst}
use c_http_server.StaticFiles.Descriptors.{Descriptors, holding}
use c_http_server.EventLoop.{Connection}
use c_http_server.EventLoop.List.{activity}
use c_http_server.EventLoop.Chain.{Avoids}
use c_http_server.EventLoop.Sweep.{Avoids-others, close_listed-Holds, Keeps}
use c_http_server.EventLoop.Serve.{World, Progress, close_connection}
use c_http_server.EventLoop.Owns.{held, close_connection-Owns}
use c_http_server.EventLoop.Outcomes.{ended, paused, reads_on, Handles, handled, unanswered}
use c_http_server.EventLoop.Server.{
  Server, put, world_of, with_world, hang_up, on_server, Turn, continues, breaks, stalls, keep,
  after_handler,
}
use c_http_server.EventLoop.Members.{
  AllIn, AllIn-without, no_others-without, store_at-free, put_self, store_kept-IsChain,
}
use c_http_server.EventLoop.Live.{
  all_held, IsSettled, reads, writes, IsLive, all_held_middle, all_held-put, AllSettled-put,
  AllSettled-without, AllSettled-with, length_middle,
}

-- What a turn comes to, where the connections `names` are still to be named.
pub data GoesOn (base : Descriptors) (names : List ℕ) : Turn → Type 0 where
  on :
      (s : Server) (xs : List ℕ)
      → IsLive base s xs
      → AllIn names xs
      → GoesOn base names (continues s)
  left_with :
      (status : Bool) (s : Server) (xs : List ℕ)
      → IsLive base s xs
      → GoesOn base names (breaks status s)
  stalled : GoesOn base names stalls

module _ (base : Descriptors) (s : Server) (a : ℕ) (ys zs : List ℕ)
    (live : IsLive base s (ys ++ (a ∷ zs))) where
  others : Descriptors
  others = all_held s.contents (ys ++ zs) base

  out : Avoids a (ys ++ zs)
  out = Avoids-others a ys zs live.holds.distinct

  -- Whatever is freed, the others stay.
  pub hang_up-IsLive :
      (after : Server) × (hang_up s a ≡ some after)
      × IsLive base after (ys ++ zs)
      × ((b : ℕ) → b ≢ a → activity after.listed.heap b ≡ activity s.listed.heap b)
  unfolding hang_up others
  hang_up-IsLive =
      let (l, closed, holds, same, gone) = close_listed-Holds s.listed a ys zs live.holds in
      let shut =
        close_connection-Owns others (s.contents a) (world_of s a [])
          (live.open_are ∙ all_held_middle s.contents base a ys zs) in
      (
        record (with_world s a (close_connection (s.contents a) (world_of s a []))) { listed = l },
        simp (closed, hang_up) refl,
        record {
          holds = holds;
          settled = AllSettled-without s.contents a ys zs live.settled;
          open_are = ap (λ (w : World). w.descriptors) shut;
          no_others = no_others-without s.listed.heap l.heap a ys zs live.no_others same gone;
          allocated = let e = live.allocated in omega (arith, length_middle a ys zs);
        },
        same,
      )

  -- The connection's fields are stored, and it stays on the list.
  keep-IsLive :
      (conn : Connection) (w : World)
      → IsSettled conn
      → w.descriptors ≡ held conn.file_fd (holding conn.fd others)
      → IsLive base (keep s a conn w) (ys ++ (a ∷ zs))
  unfolding keep others
  keep-IsLive conn w settles owns =
      let stored : put a conn s.contents a ≡ conn = put_self a conn s.contents in
      record {
        holds = record {
          distinct = live.holds.distinct;
          chain =
              store_kept-IsChain a _ s.listed.heap none s.listed.head (ys ++ (a ∷ zs))
                (λ n. (refl, refl)) live.holds.chain;
        };
        settled =
            AllSettled-with (put a conn s.contents) a ys zs (subst IsSettled (sym stored) settles) (
              AllSettled-put s.contents a conn (ys ++ zs) out
                (AllSettled-without s.contents a ys zs live.settled));
        open_are =
            owns
            ∙ sym (
                all_held_middle (put a conn s.contents) base a ys zs
                ∙ rw (stored, all_held-put s.contents base a conn (ys ++ zs) out) refl);
        no_others = λ b. elim (live.no_others b) [
          | inl has ↦ inl has
          | inr gone ↦ inr (store_at-free a b _ s.listed.heap gone)
        ];
        allocated = live.allocated;
      }

  -- What a handler comes to on the connection, it comes to on the running loop.
  pub after_handler-GoesOn :
      (names : List ℕ) (Paused Reading : Connection → Type 0) (p : Progress)
      → Avoids a names
      → AllIn names (ys ++ (a ∷ zs))
      → Handles (all_held s.contents (ys ++ zs) base) (s.contents a).fd Paused Reading p
      → GoesOn base names (after_handler s a p)
  unfolding after_handler others
  after_handler-GoesOn names Paused Reading _ apart named unanswered = stalled
  after_handler-GoesOn names Paused Reading _ apart named (handled r (ended dead shut)) =
      let (l, closed, holds, same, gone) = close_listed-Holds s.listed a ys zs live.holds in
      simp (dead, closed)
        (on _ (ys ++ zs)
          (record {
            holds = holds;
            settled =
                AllSettled-put s.contents a r.conn (ys ++ zs) out
                  (AllSettled-without s.contents a ys zs live.settled);
            open_are = shut ∙ sym (all_held-put s.contents base a r.conn (ys ++ zs) out);
            no_others = no_others-without s.listed.heap l.heap a ys zs live.no_others same gone;
            allocated = let e = live.allocated in omega (arith, length_middle a ys zs);
          })
          (AllIn-without a names ys zs apart named))
  after_handler-GoesOn names Paused Reading _ apart named
        (handled r (paused alive writing fd owns stash)) =
      simp alive (on _ (ys ++ (a ∷ zs)) (keep-IsLive r.conn r.world (writes writing) owns) named)
  after_handler-GoesOn names Paused Reading _ apart named
        (handled r (reads_on alive fd reading parsed)) =
      simp alive (
        on _ (ys ++ (a ∷ zs))
          (keep-IsLive r.conn r.world (reads reading.reading reading.no_file reading.live)
            reading.owns)
          named)

pub on_server-Keeps : (base : Descriptors) → Keeps on_server (IsLive base)
on_server-Keeps base = record {
  holds = λ s xs live. live.holds;
  closes = λ s conn ys zs live. hang_up-IsLive base s conn ys zs live;
}
