-- ===== src/HttpParser/Reads.antt =====
-- Runs of the parser of http_parser.c over a piece of its input that it does not finish in.
use c_http_server.Prelude.{
  ℕ, ◌+◌, ◌<◌, Bool, true, false, [], ◌∷◌, ◌++◌, Bytes, ◌≡◌, ◌∙◌, ap, arith, length, length-append,
  append-nil, append_assoc,
}
use c_http_server.HttpParser.{is_terminal, HttpRequestParser}
use c_http_server.HttpParser.Run.{consume, run_from}
use c_http_server.HttpParser.Grammar.{AllPass}

-- From `p` the bytes lead to `q`, and every state before `q` goes on.
pub data Reads (q : HttpRequestParser) : HttpRequestParser → Bytes → Type 0 where
  here : {p : HttpRequestParser} → p ≡ q → Reads q p []
  next :
      {p p' : HttpRequestParser} {c : ℕ} {cs : Bytes}
      → is_terminal p.state ≡ false
      → consume p c ≡ p'
      → Reads q p' cs
      → Reads q p (c ∷ cs)

pub Reads-append :
    {r q p : HttpRequestParser} {xs : Bytes} (ys : Bytes)
    → Reads q p xs
    → Reads r q ys
    → Reads r p (xs ++ ys)
Reads-append ys (here e) t = rw e t
Reads-append ys (next l e s) t = next l e (Reads-append ys s t)

pub run_from-Reads :
    {q p : HttpRequestParser} {xs : Bytes} (i : ℕ) (rest : Bytes)
    → Reads q p xs
    → run_from i p (xs ++ rest) ≡ run_from (i + length xs) q rest
unfolding run_from
run_from-Reads {q} i rest (here e) = rw e (ap (λ n. run_from n q rest) (omega arith))
run_from-Reads {q} i rest (next l e s) =
    simp (l, e) (run_from-Reads (i + 1) rest s ∙ ap (λ n. run_from n q rest) (omega arith))

-- Bytes that a state adds to a buffer, while there is room for them and a NUL.
module _ (put : Bytes → HttpRequestParser) (test : ℕ → Bool) (size : ℕ)
    (live : (buffer : Bytes) → is_terminal (put buffer).state ≡ false)
    (push : (buffer : Bytes) (c : ℕ)
      → test c ≡ true
      → length buffer + 1 < size
      → consume (put buffer) c ≡ put (buffer ++ c ∷ [])) where
  pub Reads-push :
      (cs buffer : Bytes)
      → AllPass test cs
      → length buffer + length cs < size
      → Reads (put (buffer ++ cs)) (put buffer) cs
  Reads-push [] buffer t f = here (rw append-nil)
  Reads-push (c ∷ cs) buffer t f = next (live buffer) (push buffer c t.0 (omega arith)) (
      rw append_assoc at
        (Reads-push cs (buffer ++ c ∷ []) t.1 (omega (arith, length-append buffer (c ∷ [])))))
