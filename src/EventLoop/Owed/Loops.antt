-- ===== src/EventLoop/Owed/Loops.antt =====
-- The two transfer loops of event_loop.c against what is owed.
use c_http_server.Prelude.{
  ℕ, ◌+◌, ◌-◌, ◌≤◌, ◌<◌, Bool-cases, some, inl, inr, List, [], ◌∷◌, ◌++◌, Bytes, ltb, ◌==◌, ◌≡◌,
  refl, ◌∙◌, sym, arith, length, take, drop,
}
use Prim.Native.Nat.{min}
use c_http_server.EventLoop.{Connection}
use c_http_server.EventLoop.Flush.{
  Transfer, takes, interrupted, would_block, failed, Flush, done, blocked, closed, Flushed, flushed,
  sendfile_count, try_flush_write_buffer, try_sendfile_body,
}
use c_http_server.EventLoop.Owed.{head_owed, owed, write-conserves, sendfile-conserves}

-- Where a cursor stands behind a flush up to `size`.
abbrev pub Stands : ℕ → ℕ → Flush → Type 0
Stands cursor size done = size ≤ cursor
Stands cursor size blocked = cursor < size
Stands cursor size closed = cursor < size

pub record HeadSent (content : Bytes) (conn : Connection) (wire : Bytes) (f : Flushed)
    : Type 0 where
  pub conserved : f.wire ++ owed content f.conn ≡ wire ++ owed content conn
  pub stands : Stands f.conn.write_sent (length conn.write_buf) f.flush
  pub same : f.conn ≡ record conn { write_sent = f.conn.write_sent }

pub some_inj {ℓ} : {A : Type ℓ} {a b : A} → some a ≡ some b → a ≡ b
some_inj e = cc

-- A flush that stops at once.
head_stops :
    {content : Bytes} {conn : Connection} {wire : Bytes} {fl : Flush} {answers : List Transfer}
    {f : Flushed}
    → some (flushed fl conn wire answers) ≡ some f
    → Stands conn.write_sent (length conn.write_buf) fl
    → HeadSent content conn wire f
head_stops e h = rw (sym (some_inj e)) (record { conserved = refl; stands = h; same = refl })

-- A flush behind one more `write`.
after_write :
    (content : Bytes) (conn : Connection) (wire : Bytes) (n : ℕ) (f : Flushed)
    → HeadSent content
        (record conn { write_sent = conn.write_sent + n })
        (wire ++ take n (drop conn.write_sent conn.write_buf))
        f
    → HeadSent content conn wire f
after_write content conn wire n f h = record {
  conserved = h.conserved ∙ write-conserves content wire conn n;
  stands = h.stands;
  same = h.same;
}

pub try_flush_write_buffer-HeadSent :
    (content : Bytes) (answers : List Transfer) (conn : Connection) (wire : Bytes) (f : Flushed)
    → try_flush_write_buffer answers conn wire ≡ some f
    → HeadSent content conn wire f
unfolding try_flush_write_buffer
try_flush_write_buffer-HeadSent content [] conn wire f e =
    elim (Bool-cases (ltb conn.write_sent (length conn.write_buf))) [
      | inl left ↦ absurd (cc (rw left at e))
      | inr sent ↦ head_stops (rw sent at e) (ground arith)
    ]
try_flush_write_buffer-HeadSent content (takes n ∷ answers) conn wire f e =
    elim (Bool-cases (ltb conn.write_sent (length conn.write_buf))) [
      | inl left ↦
          let m = min n (length conn.write_buf - conn.write_sent) in
          elim (Bool-cases (m == 0)) [
            | inl nothing ↦ head_stops (rw nothing at (rw left at e)) (ground arith)
            | inr some_bytes ↦ after_write content conn wire m f (
                try_flush_write_buffer-HeadSent content answers
                  (record conn { write_sent = conn.write_sent + m })
                  (wire ++ take m (drop conn.write_sent conn.write_buf)) f
                  (rw some_bytes at (rw left at e)))
          ]
      | inr sent ↦ head_stops (rw sent at e) (ground arith)
    ]
try_flush_write_buffer-HeadSent content (interrupted ∷ answers) conn wire f e =
    elim (Bool-cases (ltb conn.write_sent (length conn.write_buf))) [
      | inl left ↦ try_flush_write_buffer-HeadSent content answers conn wire f (rw left at e)
      | inr sent ↦ head_stops (rw sent at e) (ground arith)
    ]
try_flush_write_buffer-HeadSent content (would_block ∷ answers) conn wire f e =
    elim (Bool-cases (ltb conn.write_sent (length conn.write_buf))) [
      | inl left ↦ head_stops (rw left at e) (ground arith)
      | inr sent ↦ head_stops (rw sent at e) (ground arith)
    ]
try_flush_write_buffer-HeadSent content (failed ∷ answers) conn wire f e =
    elim (Bool-cases (ltb conn.write_sent (length conn.write_buf))) [
      | inl left ↦ head_stops (rw left at e) (ground arith)
      | inr sent ↦ head_stops (rw sent at e) (ground arith)
    ]

-- Behind the head.
pub record BodySent (content : Bytes) (conn : Connection) (wire : Bytes) (f : Flushed)
    : Type 0 where
  pub conserved : f.wire ++ owed content f.conn ≡ wire ++ owed content conn
  pub stands : Stands f.conn.file_offset conn.file_size f.flush
  pub same : f.conn ≡ record conn { file_offset = f.conn.file_offset }

body_stops :
    {content : Bytes} {conn : Connection} {wire : Bytes} {fl : Flush} {answers : List Transfer}
    {f : Flushed}
    → some (flushed fl conn wire answers) ≡ some f
    → Stands conn.file_offset conn.file_size fl
    → BodySent content conn wire f
body_stops e h = rw (sym (some_inj e)) (record { conserved = refl; stands = h; same = refl })

-- A stream behind one more `sendfile`.
after_sendfile :
    (content : Bytes) (conn : Connection) (wire : Bytes) (fd n : ℕ) (f : Flushed)
    → conn.file_fd ≡ some fd
    → head_owed conn ≡ []
    → conn.file_offset + n ≤ conn.file_size
    → BodySent content
        (record conn { file_offset = conn.file_offset + n })
        (wire ++ take n (drop conn.file_offset content))
        f
    → BodySent content conn wire f
after_sendfile content conn wire fd n f has empty h b = record {
  conserved = b.conserved ∙ sendfile-conserves content wire conn fd n has empty h;
  stands = b.stands;
  same = b.same;
}

pub try_sendfile_body-BodySent :
    (content : Bytes) (answers : List Transfer) (conn : Connection) (wire : Bytes) (fd : ℕ)
    (f : Flushed)
    → conn.file_fd ≡ some fd
    → head_owed conn ≡ []
    → try_sendfile_body content answers conn wire ≡ some f
    → BodySent content conn wire f
unfolding try_sendfile_body
try_sendfile_body-BodySent content [] conn wire fd f has empty e =
    elim (Bool-cases (ltb conn.file_offset conn.file_size)) [
      | inl left ↦ absurd (cc (rw left at e))
      | inr sent ↦ body_stops (rw sent at e) (ground arith)
    ]
try_sendfile_body-BodySent content (takes n ∷ answers) conn wire fd f has empty e =
    elim (Bool-cases (ltb conn.file_offset conn.file_size)) [
      | inl left ↦
          let m = min n (min (sendfile_count conn) (length content - conn.file_offset)) in
          elim (Bool-cases (m == 0)) [
            | inl shrunk ↦ body_stops (rw shrunk at (rw left at e)) (ground arith)
            | inr some_bytes ↦ after_sendfile content conn wire fd m f has empty (ground arith) (
                try_sendfile_body-BodySent content answers
                  (record conn { file_offset = conn.file_offset + m })
                  (wire ++ take m (drop conn.file_offset content)) fd f has empty
                  (rw some_bytes at (rw left at e)))
          ]
      | inr sent ↦ body_stops (rw sent at e) (ground arith)
    ]
try_sendfile_body-BodySent content (interrupted ∷ answers) conn wire fd f has empty e =
    elim (Bool-cases (ltb conn.file_offset conn.file_size)) [
      | inl left ↦
          try_sendfile_body-BodySent content answers conn wire fd f has empty (rw left at e)
      | inr sent ↦ body_stops (rw sent at e) (ground arith)
    ]
try_sendfile_body-BodySent content (would_block ∷ answers) conn wire fd f has empty e =
    elim (Bool-cases (ltb conn.file_offset conn.file_size)) [
      | inl left ↦ body_stops (rw left at e) (ground arith)
      | inr sent ↦ body_stops (rw sent at e) (ground arith)
    ]
try_sendfile_body-BodySent content (failed ∷ answers) conn wire fd f has empty e =
    elim (Bool-cases (ltb conn.file_offset conn.file_size)) [
      | inl left ↦ body_stops (rw left at e) (ground arith)
      | inr sent ↦ body_stops (rw sent at e) (ground arith)
    ]
