-- ===== src/EventLoop/Live.antt =====
-- What holds of a running loop of event_loop.c between two events.
use c_http_server.Prelude.{
  ℕ, ◌+◌, ◌≤◌, true, false, Option, none, some, List, [], ◌∷◌, ◌++◌, length, ◌≡◌, ◌⊎◌, refl, sym,
  ◌∙◌, ap, arith,
}
use mathlib.Core.Path.{subst}
use c_http_server.HttpParser.{is_terminal}
use c_http_server.StaticFiles.Descriptors.{Descriptors, holding, holding_swap}
use c_http_server.EventLoop.{Connection}
use c_http_server.EventLoop.Chain.{Avoids}
use c_http_server.EventLoop.Linked.{Holds}
use c_http_server.EventLoop.Owns.{held}
use c_http_server.EventLoop.Server.{Server, put}
use c_http_server.EventLoop.Members.{Has, put_other}

-- Beside `base`, the sockets of the connections and their files.
abbrev pub all_held : (ℕ → Connection) → List ℕ → Descriptors → Descriptors
all_held contents [] base = base
all_held contents (a ∷ xs) base =
    held (contents a).file_fd (holding (contents a).fd (all_held contents xs base))

-- A connection between two events reads, with no file and a parser that can go on, or is in the
-- middle of a response.
pub data IsSettled (conn : Connection) : Type 0 where
  reads :
      conn.awaiting_writable ≡ false
      → conn.file_fd ≡ none
      → is_terminal conn.parser.state ≡ false
      → IsSettled conn
  writes : conn.awaiting_writable ≡ true → IsSettled conn

abbrev pub AllSettled : (ℕ → Connection) → List ℕ → Type 0
AllSettled contents [] = Unit
AllSettled contents (a ∷ xs) = IsSettled (contents a) × AllSettled contents xs

-- The list is the connections `xs`, each between two events; beside `base` just their descriptors
-- are open, and no other connection is allocated; there were at least as many calls of `malloc`.
pub record IsLive (base : Descriptors) (s : Server) (xs : List ℕ) : Type 0 where
  pub holds : Holds s.listed xs
  pub settled : AllSettled s.contents xs
  pub open_are : s.descriptors ≡ all_held s.contents xs base
  pub no_others : (a : ℕ) → Has a xs ⊎ (s.listed.heap a ≡ none)
  pub allocated : length xs ≤ s.mallocs

held_swap :
    (file : Option ℕ) (fd : ℕ) (ds : Descriptors)
    → holding fd (held file ds) ≡ held file (holding fd ds)
held_swap none fd ds = refl
held_swap (some f) fd ds = holding_swap fd f ds

held_past :
    (file file' : Option ℕ) (ds : Descriptors)
    → held file (held file' ds) ≡ held file' (held file ds)
held_past none file' ds = refl
held_past (some f) file' ds = held_swap file' f ds

module _ (contents : ℕ → Connection) (base : Descriptors) where
  -- The order of the connections makes no difference.
  pub all_held_middle :
      (a : ℕ) (ys zs : List ℕ)
      → all_held contents (ys ++ (a ∷ zs)) base
        ≡ held (contents a).file_fd (holding (contents a).fd (all_held contents (ys ++ zs) base))
  all_held_middle a [] zs = refl
  all_held_middle a (y ∷ ys) zs =
      let file = (contents y).file_fd in
      let fd = (contents y).fd in
      let file' = (contents a).file_fd in
      let fd' = (contents a).fd in
      let rest = all_held contents (ys ++ zs) base in
      ap (λ (ds : Descriptors). held file (holding fd ds)) (all_held_middle a ys zs)
      ∙ ap (held file) (held_swap file' fd (holding fd' rest))
      ∙ held_past file file' (holding fd (holding fd' rest))
      ∙ ap (λ (ds : Descriptors). held file' (held file ds)) (holding_swap fd fd' rest)
      ∙ ap (held file') (sym (held_swap file fd' (holding fd rest)))

  pub all_held-put :
      (a : ℕ) (conn : Connection) (xs : List ℕ)
      → Avoids a xs
      → all_held (put a conn contents) xs base ≡ all_held contents xs base
  all_held-put a conn [] out = refl
  all_held-put a conn (x ∷ xs) out =
      rw (put_other a conn contents x out.0, all_held-put a conn xs out.1) refl

module _ (contents : ℕ → Connection) where
  pub AllSettled-put :
      (a : ℕ) (conn : Connection) (xs : List ℕ)
      → Avoids a xs
      → AllSettled contents xs
      → AllSettled (put a conn contents) xs
  AllSettled-put a conn [] out h = tt
  AllSettled-put a conn (x ∷ xs) out h = (
    subst IsSettled (sym (put_other a conn contents x out.0)) h.0,
    AllSettled-put a conn xs out.1 h.1,
  )

  pub IsSettled-at :
      (a : ℕ) (ys zs : List ℕ) → AllSettled contents (ys ++ (a ∷ zs)) → IsSettled (contents a)
  IsSettled-at a [] zs h = h.0
  IsSettled-at a (y ∷ ys) zs h = IsSettled-at a ys zs h.1

  pub AllSettled-without :
      (a : ℕ) (ys zs : List ℕ)
      → AllSettled contents (ys ++ (a ∷ zs))
      → AllSettled contents (ys ++ zs)
  AllSettled-without a [] zs h = h.1
  AllSettled-without a (y ∷ ys) zs h = (h.0, AllSettled-without a ys zs h.1)

  pub AllSettled-with :
      (a : ℕ) (ys zs : List ℕ)
      → IsSettled (contents a)
      → AllSettled contents (ys ++ zs)
      → AllSettled contents (ys ++ (a ∷ zs))
  AllSettled-with a [] zs new h = (new, h)
  AllSettled-with a (y ∷ ys) zs new h = (h.0, AllSettled-with a ys zs new h.1)

pub length_middle : (a : ℕ) (ys zs : List ℕ) → length (ys ++ (a ∷ zs)) ≡ length (ys ++ zs) + 1
length_middle a [] zs = omega arith
length_middle a (y ∷ ys) zs = let e = length_middle a ys zs in omega arith
