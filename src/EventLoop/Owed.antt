-- ===== src/EventLoop/Owed.antt =====
-- What a flush of event_loop.c leaves on the socket, and what it still owes.
pub mod Loops
use c_http_server.Prelude.{
  ℕ, zero, suc, ◌+◌, ◌-◌, ◌≤◌, ◌<◌, Bool, Bool-cases, true, false, Option, none, some, ◌⊎◌, inl,
  inr, List, [], ◌∷◌, ◌++◌, Bytes, ltb, ◌==◌, ◌≡◌, refl, ◌∙◌, sym, ap, arith, if◌then◌else◌, length,
  take, drop, append-nil, append_assoc, take-append-drop, length-drop,
}
use Prim.Native.Nat.{min}
use c_http_server.EventLoop.{Connection}
use c_http_server.EventLoop.Flush.{
  Transfer, takes, interrupted, would_block, failed, Flush, done, blocked, closed, Flushed, flushed,
  sendfile_count, try_flush_write_buffer, try_sendfile_body, then_body, try_flush_response,
}

-- The bytes of the head, and of the file if there is one, that the socket has not taken.
abbrev pub head_owed : Connection → Bytes
head_owed conn = drop conn.write_sent conn.write_buf

abbrev pub file_owed : Bytes → Connection → Bytes
file_owed content conn = drop conn.file_offset (take conn.file_size content)

abbrev pub body_owed : Bytes → Connection → Option ℕ → Bytes
body_owed content conn none = []
body_owed content conn (some fd) = file_owed content conn

abbrev pub owed : Bytes → Connection → Bytes
owed content conn = head_owed conn ++ body_owed content conn conn.file_fd

-- Nothing is owed behind a finished flush; a blocked one has bytes left to send.
abbrev pub Owes : Bytes → Connection → Flush → Type 0
Owes content conn done = owed content conn ≡ []
Owes content conn blocked =
    (conn.write_sent < length conn.write_buf) ⊎ (conn.file_offset < conn.file_size)
Owes content conn closed = Unit

-- Nothing is lost, repeated or reordered, and only the two cursors have moved.
pub record Delivers (content : Bytes) (conn : Connection) (wire : Bytes) (f : Flushed)
    : Type 0 where
  pub conserved : f.wire ++ owed content f.conn ≡ wire ++ owed content conn
  pub owes : Owes content f.conn f.flush
  pub same :
      f.conn ≡ record conn { write_sent = f.conn.write_sent; file_offset = f.conn.file_offset }

module _ {ℓ} {A : Type ℓ} where
  drop_nil : (n : ℕ) → drop {A = A} n [] ≡ []
  drop_nil zero = refl
  drop_nil (suc n) = refl

  drop-drop : (s n : ℕ) (xs : List A) → drop n (drop s xs) ≡ drop (s + n) xs
  drop-drop zero n xs = let e : n ≡ 0 + n = omega arith in ap (λ k. drop k xs) e
  drop-drop (suc s) n [] = drop_nil n ∙ sym (drop_nil (suc s + n))
  drop-drop (suc s) n (x ∷ xs) =
      let e : suc (s + n) ≡ suc s + n = omega arith in
      drop-drop s n xs ∙ ap (λ k. drop k (x ∷ xs)) e

  pub drop_all : (s : ℕ) (xs : List A) → length xs ≤ s → drop s xs ≡ []
  drop_all zero [] h = refl
  drop_all (suc s) [] h = refl
  drop_all zero (x ∷ xs) h = absurd (omega arith)
  drop_all (suc s) (x ∷ xs) h = drop_all s xs (omega arith)

  -- Moving a cursor by `n` splits off the next `n` elements.
  take-drop_split : (s n : ℕ) (xs : List A) → take n (drop s xs) ++ drop (s + n) xs ≡ drop s xs
  take-drop_split s n xs = rw (sym (drop-drop s n xs), take-append-drop n (drop s xs))

  take_nil : (n : ℕ) → take {A = A} n [] ≡ []
  take_nil zero = refl
  take_nil (suc n) = refl

  take-take : (n m : ℕ) (xs : List A) → n ≤ m → take n (take m xs) ≡ take n xs
  take-take zero m xs h = refl
  take-take (suc n) zero xs h = absurd (omega arith)
  take-take (suc n) (suc m) [] h = refl
  take-take (suc n) (suc m) (x ∷ xs) h = rw (take-take n m xs (omega arith))

  drop-take : (s m : ℕ) (xs : List A) → drop s (take m xs) ≡ take (m - s) (drop s xs)
  drop-take zero m xs = let e : m ≡ m - 0 = omega arith in ap (λ k. take k xs) e
  drop-take (suc s) zero xs =
      let e : 0 ≡ 0 - suc s = omega arith in ap (λ k. take k (drop (suc s) xs)) e
  drop-take (suc s) (suc m) [] = sym (take_nil (suc m - suc s))
  drop-take (suc s) (suc m) (x ∷ xs) =
      let e : m - s ≡ suc m - suc s = omega arith in
      drop-take s m xs ∙ ap (λ k. take k (drop s xs)) e

  -- The same for a cursor into the first `m` elements.
  take-drop_within :
      (s n m : ℕ) (xs : List A)
      → s + n ≤ m
      → take n (drop s xs) ++ drop (s + n) (take m xs) ≡ drop s (take m xs)
  take-drop_within s n m xs h =
      let e : take n (drop s xs) ≡ take n (drop s (take m xs)) =
        rw (drop-take s m xs, take-take n (m - s) (drop s xs) (omega arith)) in
      rw (e, take-drop_split s n (take m xs))

-- One `write` of `n` bytes.
pub write-conserves :
    (content wire : Bytes) (conn : Connection) (n : ℕ)
    → (wire ++ take n (drop conn.write_sent conn.write_buf))
        ++ owed content (record conn { write_sent = conn.write_sent + n })
      ≡ wire ++ owed content conn
write-conserves content wire conn n =
    append_assoc wire (take n (drop conn.write_sent conn.write_buf))
      (owed content (record conn { write_sent = conn.write_sent + n }))
    ∙ ap (λ o. wire ++ o)
        (sym (
            append_assoc (take n (head_owed conn)) (drop (conn.write_sent + n) conn.write_buf)
              (body_owed content conn conn.file_fd))
          ∙ ap (λ h. h ++ body_owed content conn conn.file_fd)
              (take-drop_split conn.write_sent n conn.write_buf))

-- One `sendfile` of `n` bytes, with the head sent.
pub sendfile-conserves :
    (content wire : Bytes) (conn : Connection) (fd n : ℕ)
    → conn.file_fd ≡ some fd
    → head_owed conn ≡ []
    → conn.file_offset + n ≤ conn.file_size
    → (wire ++ take n (drop conn.file_offset content))
        ++ owed content (record conn { file_offset = conn.file_offset + n })
      ≡ wire ++ owed content conn
sendfile-conserves content wire conn fd n has empty h =
    rw (empty, has)
      (append_assoc wire (take n (drop conn.file_offset content))
          (drop (conn.file_offset + n) (take conn.file_size content))
        ∙ ap (λ o. wire ++ o) (take-drop_within conn.file_offset n conn.file_size content h))
