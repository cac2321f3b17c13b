-- ===== src/EventLoop/Returns.antt =====
-- That `try_flush_response` of event_loop.c returns: how many answers of the kernel it may take.
use c_http_server.Prelude.{
  ℕ, suc, ◌+◌, ◌-◌, ◌≤◌, Bool-cases, Option, Option-cases, some, inl, inr, List, [], ◌∷◌, ◌++◌,
  Bytes, ltb, ◌==◌, ◌≡◌, refl, ap, arith, length, take, drop,
}
use Prim.Native.Nat.{min}
use c_http_server.EventLoop.{Connection}
use c_http_server.EventLoop.Flush.{
  Transfer, takes, interrupted, would_block, failed, done, blocked, closed, Flushed, flushed,
  sendfile_count, try_flush_write_buffer, try_sendfile_body, then_body, try_flush_response,
}
use c_http_server.EventLoop.Delivery.{Flush-cases}
use c_http_server.EventLoop.Owed.Loops.{try_flush_write_buffer-HeadSent}

-- The answers other than EINTR: each moves a cursor or ends the flush.
abbrev pub worth : List Transfer → ℕ
worth [] = 0
worth (takes n ∷ answers) = suc (worth answers)
worth (interrupted ∷ answers) = worth answers
worth (would_block ∷ answers) = suc (worth answers)
worth (failed ∷ answers) = suc (worth answers)

-- A flush that needed at most `budget` of them.
record Returns (o : Option Flushed) (answers : List Transfer) (budget : ℕ) : Type 0 where
  flushed_to : Flushed
  returned : o ≡ some flushed_to
  thrifty : worth answers ≤ worth flushed_to.answers + budget

returned_at_once :
    {o : Option Flushed} {answers : List Transfer} {budget : ℕ} (f : Flushed)
    → o ≡ some f
    → worth answers ≤ worth f.answers + budget
    → Returns o answers budget
returned_at_once f e h = record { flushed_to = f; returned = e; thrifty = h }

try_flush_write_buffer-Returns :
    (answers : List Transfer) (conn : Connection) (wire : Bytes)
    → length conn.write_buf - conn.write_sent ≤ worth answers
    → Returns
        (try_flush_write_buffer answers conn wire)
        answers
        (length conn.write_buf - conn.write_sent)
unfolding try_flush_write_buffer
try_flush_write_buffer-Returns [] conn wire h =
    elim (Bool-cases (ltb conn.write_sent (length conn.write_buf))) [
      | inl left ↦ absurd (ground arith)
      | inr sent ↦ returned_at_once (flushed done conn wire []) (simp sent refl) (omega arith)
    ]
try_flush_write_buffer-Returns (takes n ∷ answers) conn wire h =
    elim (Bool-cases (ltb conn.write_sent (length conn.write_buf))) [
      | inl left ↦
          let m = min n (length conn.write_buf - conn.write_sent) in
          elim (Bool-cases (m == 0)) [
            | inl nothing ↦
                returned_at_once (flushed closed conn wire answers) (simp (left, nothing) refl)
                  (ground arith)
            | inr some_bytes ↦
                let r =
                  try_flush_write_buffer-Returns answers
                    (record conn { write_sent = conn.write_sent + m })
                    (wire ++ take m (drop conn.write_sent conn.write_buf)) (ground arith) in
                record {
                  flushed_to = r.flushed_to;
                  returned = simp (left, some_bytes) r.returned;
                  thrifty = let t = r.thrifty in ground arith;
                }
          ]
      | inr sent ↦
          returned_at_once (flushed done conn wire (takes n ∷ answers)) (simp sent refl)
            (omega arith)
    ]
try_flush_write_buffer-Returns (interrupted ∷ answers) conn wire h =
    elim (Bool-cases (ltb conn.write_sent (length conn.write_buf))) [
      | inl left ↦
          let r = try_flush_write_buffer-Returns answers conn wire h in
          record { flushed_to = r.flushed_to; returned = simp left r.returned; thrifty = r.thrifty }
      | inr sent ↦
          returned_at_once (flushed done conn wire (interrupted ∷ answers)) (simp sent refl)
            (omega arith)
    ]
try_flush_write_buffer-Returns (would_block ∷ answers) conn wire h =
    elim (Bool-cases (ltb conn.write_sent (length conn.write_buf))) [
      | inl left ↦
          returned_at_once (flushed blocked conn wire answers) (simp left refl) (ground arith)
      | inr sent ↦
          returned_at_once (flushed done conn wire (would_block ∷ answers)) (simp sent refl)
            (omega arith)
    ]
try_flush_write_buffer-Returns (failed ∷ answers) conn wire h =
    elim (Bool-cases (ltb conn.write_sent (length conn.write_buf))) [
      | inl left ↦
          returned_at_once (flushed closed conn wire answers) (simp left refl) (ground arith)
      | inr sent ↦
          returned_at_once (flushed done conn wire (failed ∷ answers)) (simp sent refl)
            (omega arith)
    ]

try_sendfile_body-Returns :
    (content : Bytes) (answers : List Transfer) (conn : Connection) (wire : Bytes)
    → conn.file_size - conn.file_offset ≤ worth answers
    → Returns
        (try_sendfile_body content answers conn wire)
        answers
        (conn.file_size - conn.file_offset)
unfolding try_sendfile_body
try_sendfile_body-Returns content [] conn wire h =
    elim (Bool-cases (ltb conn.file_offset conn.file_size)) [
      | inl left ↦ absurd (ground arith)
      | inr sent ↦ returned_at_once (flushed done conn wire []) (simp sent refl) (omega arith)
    ]
try_sendfile_body-Returns content (takes n ∷ answers) conn wire h =
    elim (Bool-cases (ltb conn.file_offset conn.file_size)) [
      | inl left ↦
          let m = min n (min (sendfile_count conn) (length content - conn.file_offset)) in
          elim (Bool-cases (m == 0)) [
            | inl shrunk ↦
                returned_at_once (flushed closed conn wire answers) (simp (left, shrunk) refl)
                  (ground arith)
            | inr some_bytes ↦
                let r =
                  try_sendfile_body-Returns content answers
                    (record conn { file_offset = conn.file_offset + m })
                    (wire ++ take m (drop conn.file_offset content)) (ground arith) in
                record {
                  flushed_to = r.flushed_to;
                  returned = simp (left, some_bytes) r.returned;
                  thrifty = let t = r.thrifty in ground arith;
                }
          ]
      | inr sent ↦
          returned_at_once (flushed done conn wire (takes n ∷ answers)) (simp sent refl)
            (omega arith)
    ]
try_sendfile_body-Returns content (interrupted ∷ answers) conn wire h =
    elim (Bool-cases (ltb conn.file_offset conn.file_size)) [
      | inl left ↦
          let r = try_sendfile_body-Returns content answers conn wire h in
          record { flushed_to = r.flushed_to; returned = simp left r.returned; thrifty = r.thrifty }
      | inr sent ↦
          returned_at_once (flushed done conn wire (interrupted ∷ answers)) (simp sent refl)
            (omega arith)
    ]
try_sendfile_body-Returns content (would_block ∷ answers) conn wire h =
    elim (Bool-cases (ltb conn.file_offset conn.file_size)) [
      | inl left ↦
          returned_at_once (flushed blocked conn wire answers) (simp left refl) (ground arith)
      | inr sent ↦
          returned_at_once (flushed done conn wire (would_block ∷ answers)) (simp sent refl)
            (omega arith)
    ]
try_sendfile_body-Returns content (failed ∷ answers) conn wire h =
    elim (Bool-cases (ltb conn.file_offset conn.file_size)) [
      | inl left ↦
          returned_at_once (flushed closed conn wire answers) (simp left refl) (ground arith)
      | inr sent ↦
          returned_at_once (flushed done conn wire (failed ∷ answers)) (simp sent refl)
            (omega arith)
    ]

then_body-returns :
    (content : Bytes) (f : Flushed)
    → f.conn.file_size - f.conn.file_offset ≤ worth f.answers
    → (g : Flushed) × (then_body content f ≡ some g)
unfolding then_body
then_body-returns content f h = elim (Flush-cases f.flush) [
  | inr (inl stop) ↦ (f, simp (stop, then_body) refl)
  | inr (inr stop) ↦ (f, simp (stop, then_body) refl)
  | inl over ↦ elim (Option-cases f.conn.file_fd) [
    | inl no_fd ↦ (f, simp (over, no_fd, then_body) refl)
    | inr (fd, has) ↦
        let r = try_sendfile_body-Returns content f.answers f.conn f.wire h in
        (r.flushed_to, simp (over, has, then_body) r.returned)
  ]
]

-- The flush of a response returns as soon as the kernel has given as many answers other than EINTR
-- as there are bytes of the head and the file to send.
pub try_flush_response-returns :
    (content : Bytes) (answers : List Transfer) (conn : Connection) (wire : Bytes)
    → (length conn.write_buf - conn.write_sent) + (conn.file_size - conn.file_offset)
      ≤ worth answers
    → (f : Flushed) × (try_flush_response content answers conn wire ≡ some f)
unfolding try_flush_response
try_flush_response-returns content answers conn wire h =
    let r = try_flush_write_buffer-Returns answers conn wire (omega arith) in
    let f = r.flushed_to in
    let s = try_flush_write_buffer-HeadSent content answers conn wire f r.returned in
    let size = ap (λ (c : Connection). c.file_size) s.same in
    let offset = ap (λ (c : Connection). c.file_offset) s.same in
    let t = r.thrifty in
    simp (r.returned, try_flush_response)
      (then_body-returns content f (omega (arith, size, offset, t)))
