-- ===== src/EventLoop/Delivery.antt =====
-- A whole flush of a response by `try_flush_response` of event_loop.c.
use c_http_server.Prelude.{
  ℕ, ◌≤◌, Option-cases, none, some, ◌⊎◌, inl, inr, List, [], Bytes, ◌≡◌, refl, ◌∙◌, sym, ap, arith,
  take, length-take,
}
use c_http_server.EventLoop.{Connection}
use c_http_server.EventLoop.Flush.{
  Transfer, Flush, done, blocked, closed, Flushed, try_flush_write_buffer, then_body,
  try_flush_response,
}
use c_http_server.EventLoop.Owed.{head_owed, file_owed, owed, Owes, Delivers, drop_all}
use c_http_server.EventLoop.Owed.Loops.{
  HeadSent, BodySent, some_inj, try_flush_write_buffer-HeadSent, try_sendfile_body-BodySent,
}

pub Flush-cases : (f : Flush) → (f ≡ done) ⊎ ((f ≡ blocked) ⊎ (f ≡ closed))
Flush-cases done = inl refl
Flush-cases blocked = inr (inl refl)
Flush-cases closed = inr (inr refl)

module _ (content : Bytes) (conn : Connection) (wire : Bytes) (f : Flushed)
    (h : HeadSent content conn wire f) where
  same_buf : f.conn.write_buf ≡ conn.write_buf
  same_buf = ap (λ (c : Connection). c.write_buf) h.same

  same_but_cursors :
      f.conn ≡ record conn { write_sent = f.conn.write_sent; file_offset = f.conn.file_offset }
  same_but_cursors =
      h.same
      ∙ ap (λ (o : ℕ). record conn { write_sent = f.conn.write_sent; file_offset = o })
          (sym (ap (λ (c : Connection). c.file_offset) h.same))

  head_done : f.flush ≡ done → head_owed f.conn ≡ []
  head_done e = drop_all f.conn.write_sent f.conn.write_buf (rw same_buf (rw e at h.stands))

  head_blocked : f.flush ≡ blocked → Delivers content conn wire f
  head_blocked e = record {
    conserved = h.conserved;
    owes = rw e (inl (rw same_buf (rw e at h.stands)));
    same = same_but_cursors;
  }

  head_closed : f.flush ≡ closed → Delivers content conn wire f
  head_closed e = record { conserved = h.conserved; owes = rw e tt; same = same_but_cursors }

  head_only : f.flush ≡ done → f.conn.file_fd ≡ none → Delivers content conn wire f
  head_only e no_fd = record {
    conserved = h.conserved;
    owes = rw (e, head_done e, no_fd) refl;
    same = same_but_cursors;
  }

  module _ (g : Flushed) (fd : ℕ) (has : f.conn.file_fd ≡ some fd)
      (b : BodySent content f.conn f.wire g) where
    both_same :
        g.conn ≡ record conn { write_sent = g.conn.write_sent; file_offset = g.conn.file_offset }
    both_same =
        b.same
        ∙ ap (λ (c : Connection). record c { file_offset = g.conn.file_offset }) h.same
        ∙ ap (λ (s : ℕ). record conn { write_sent = s; file_offset = g.conn.file_offset })
            (sym (ap (λ (c : Connection). c.write_sent) b.same))

    file_size_kept : g.conn.file_size ≡ f.conn.file_size
    file_size_kept = ap (λ (c : Connection). c.file_size) b.same

    the_size : g.flush ≡ done → g.conn.file_size ≤ g.conn.file_offset
    the_size over = rw file_size_kept (rw over at b.stands)

    all_sent : f.flush ≡ done → g.flush ≡ done → owed content g.conn ≡ []
    all_sent e over =
        let head : head_owed g.conn ≡ [] = ap head_owed b.same ∙ head_done e in
        let file : file_owed content g.conn ≡ [] =
          drop_all g.conn.file_offset (take g.conn.file_size content)
            (omega (arith, length-take g.conn.file_size content, the_size over)) in
        rw (head, ap (λ (c : Connection). c.file_fd) b.same ∙ has, file) refl

    body-Owes : f.flush ≡ done → Owes content g.conn g.flush
    body-Owes e = elim (Flush-cases g.flush) [
      | inl over ↦ rw (over, all_sent e over) refl
      | inr (inl stop) ↦ rw stop (inr (rw file_size_kept (rw stop at b.stands)))
      | inr (inr stop) ↦ rw stop tt
    ]

  then_body-Delivers : (g : Flushed) → then_body content f ≡ some g → Delivers content conn wire g
  unfolding then_body
  then_body-Delivers g e = elim (Flush-cases f.flush) [
    | inr (inl stop) ↦ rw (some_inj (simp (stop, then_body) at e)) at (head_blocked stop)
    | inr (inr stop) ↦ rw (some_inj (simp (stop, then_body) at e)) at (head_closed stop)
    | inl over ↦ elim (Option-cases f.conn.file_fd) [
      | inl no_fd ↦ rw (some_inj (simp (over, no_fd, then_body) at e)) at (head_only over no_fd)
      | inr (fd, has) ↦
          let b =
            try_sendfile_body-BodySent content f.answers f.conn f.wire fd g has (head_done over)
              (simp (over, has, then_body) at e) in
          record {
            conserved = b.conserved ∙ h.conserved;
            owes = body-Owes g fd has b over;
            same = both_same g fd has b;
          }
    ]
  ]

-- A flush, however the kernel cuts the transfers and wherever it stops, sends the owed bytes in
-- order and keeps the rest owed: what the socket has taken, followed by what is owed, is what it
-- was before. When it reports that all is sent, nothing is owed; when it reports that it is
-- blocked, a cursor stands before its end; and it changes the two cursors only.
pub try_flush_response-Delivers :
    (content : Bytes) (answers : List Transfer) (conn : Connection) (wire : Bytes) (f : Flushed)
    → try_flush_response content answers conn wire ≡ some f
    → Delivers content conn wire f
unfolding try_flush_response
try_flush_response-Delivers content answers conn wire g e =
    elim (Option-cases (try_flush_write_buffer answers conn wire)) [
      | inl waiting ↦ absurd (cc (rw (waiting, try_flush_response) at e))
      | inr (f, head) ↦
          then_body-Delivers content conn wire f
            (try_flush_write_buffer-HeadSent content answers conn wire f head) g
            (rw (head, try_flush_response) at e)
    ]
