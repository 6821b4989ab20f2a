-- ===== src/Ltp/Egress/Writes.antt =====
-- What has been written to the clients that stay connected, and what is lost with those that fail.
use qpsk_b.Base.{
  ℕ, zero, suc, ◌≡◌, ◌≢◌, refl, ap, ◌∙◌, inl, inr, true, false, Bool, List, [], ◌∷◌, ◌++◌, map,
  ◌==◌, ==_refl, if◌then◌else◌, Bool-cases, length, take, drop, take-append-drop, All, arith,
}
use qpsk_b.Base.Bits.{sub64}
use qpsk_b.Ltp.Egress.{
  TcpEgress, write_loop, write_each, remove, remove_all, write_to_clients, is_empty, flush_loop,
  flush_buffer_to_clients, connect,
}

unfoldable pub is_connected : ℕ → List ℕ → Bool
is_connected fd [] = false
is_connected fd (other ∷ fds) = let rest = is_connected fd fds in if other == fd then true else rest

write_loop-whole :
    (results left : List ℕ)
    → (write_loop results left).is_whole ≡ true
    → (write_loop results left).sent ≡ left
unfolding write_loop
write_loop-whole results [] h = refl
write_loop-whole [] (byte ∷ left) h = cc
write_loop-whole (zero ∷ results) (byte ∷ left) h = cc
write_loop-whole (suc n ∷ results) (byte ∷ left) h =
    ap (λ l. byte ∷ take n left ++ l) (write_loop-whole results (drop n left) h)
    ∙ ap (λ l. byte ∷ l) (take-append-drop n left)

-- A descriptor that is left after a removal was there, and is another one.
remove-keeps :
    (fd dead : ℕ) (fds : List ℕ)
    → is_connected fd (remove dead fds) ≡ true
    → (is_connected fd fds ≡ true) × (dead ≢ fd)
unfolding is_connected remove
remove-keeps fd dead [] h = absurd (ground arith)
remove-keeps fd dead (other ∷ fds) h = ground (arith, remove-keeps fd dead fds)

remove_all-within :
    (fd : ℕ) (dead_fds fds : List ℕ)
    → is_connected fd (remove_all dead_fds fds) ≡ true
    → is_connected fd fds ≡ true
unfolding remove_all
remove_all-within fd [] fds h = h
remove_all-within fd (dead ∷ dead_fds) fds h =
    (remove-keeps fd dead fds (remove_all-within fd dead_fds (remove dead fds) h)).0

remove_all-keeps :
    (fd : ℕ) (dead_fds fds : List ℕ)
    → is_connected fd (remove_all dead_fds fds) ≡ true
    → is_connected fd dead_fds ≡ false
unfolding is_connected remove_all
remove_all-keeps fd [] fds h = refl
remove_all-keeps fd (dead ∷ dead_fds) fds h =
    let later = remove_all-keeps fd dead_fds (remove dead fds) h in
    let other = remove_all-within fd dead_fds (remove dead fds) h in
    let kept = remove-keeps fd dead fds other in ground arith

-- Whoever is not among the dead has all of it.
write_each-whole :
    (results fds framed dead_fds : List ℕ)
    → ((fd : ℕ)
        → is_connected fd dead_fds ≡ false
        → is_connected fd (write_each results fds framed).dead_fds ≡ false)
    → All
        (λ w. is_connected w.0 dead_fds ≡ false → w.1 ≡ framed)
        (write_each results fds framed).written
unfolding write_each is_connected
write_each-whole results [] framed dead_fds h = tt
write_each-whole results (fd ∷ fds) framed dead_fds h =
    let w = write_loop results framed in
    elim (Bool-cases w.is_whole) [
      | inl t ↦ (
        λ alive. write_loop-whole results framed t,
        write_each-whole w.results fds framed dead_fds
            (λ other alive. ground (arith, h other alive)),
      )
      | inr t ↦ (
        λ alive. absurd (ground (arith, h fd alive, ==_refl fd)),
        write_each-whole w.results fds framed dead_fds
            (λ other alive. ground (arith, h other alive)),
      )
    ]

write_each-fds :
    (results fds framed : List ℕ) → map (λ w. w.0) (write_each results fds framed).written ≡ fds
unfolding write_each
write_each-fds results [] framed = refl
write_each-fds results (fd ∷ fds) framed =
    ap (λ l. fd ∷ l) (write_each-fds (write_loop results framed).results fds framed)

-- A message is written to every client, in their order, and those that are still connected have been
-- written the whole of it, whatever the calls of `write` return.
write_to_clients-whole :
    (results framed : List ℕ) (e : TcpEgress)
    → (written : List (ℕ × List ℕ)) × ((write_to_clients results framed e).0.log ≡ e.log ++ written)
      × (map (λ w. w.0) written ≡ e.client_fds)
      × All
          (λ w.
            is_connected w.0 (write_to_clients results framed e).0.client_fds ≡ true → w.1 ≡ framed)
          written
unfolding write_to_clients
write_to_clients-whole results framed e =
    let b = write_each results e.client_fds framed in
    (
      b.written,
      refl,
      write_each-fds results e.client_fds framed,
      weaken b.written e.client_fds b.dead_fds framed
          (write_each-whole results e.client_fds framed b.dead_fds (λ fd alive. alive)),
    )
  where
    weaken :
        (written : List (ℕ × List ℕ)) (fds dead_fds framed : List ℕ)
        → All (λ w. is_connected w.0 dead_fds ≡ false → w.1 ≡ framed) written
        → All (λ w. is_connected w.0 (remove_all dead_fds fds) ≡ true → w.1 ≡ framed) written
    weaken [] fds dead_fds framed h = tt
    weaken (w ∷ written) fds dead_fds framed h = (
      λ kept. h.0 (remove_all-keeps w.0 dead_fds fds kept),
      weaken written fds dead_fds framed h.1,
    )

flush_loop-idle :
    (results : List ℕ) (buffer : List (List ℕ)) (e : TcpEgress)
    → flush_loop results buffer (record e { client_fds = [] }) ≡ record e { client_fds = [] }
unfolding flush_loop is_empty
flush_loop-idle results [] e = refl
flush_loop-idle results (block ∷ buffer) e = refl

lost_block :
    (results : List ℕ) (fd byte : ℕ) (block : List ℕ) (buffer : List (List ℕ)) (e : TcpEgress)
    → flush_loop (0 ∷ results) ((byte ∷ block) ∷ buffer) (record e { client_fds = fd ∷ [] })
      ≡ record e {
        client_fds = [];
        buffer = buffer;
        buffer_bytes = sub64 e.buffer_bytes (length (byte ∷ block));
        log = e.log ++ ((fd, []) ∷ []);
      }
unfolding flush_loop is_empty write_to_clients write_each write_loop remove_all remove
lost_block results fd byte block buffer e =
    let next : TcpEgress = record e {
      buffer = buffer;
      buffer_bytes = sub64 e.buffer_bytes (length (byte ∷ block));
      log = e.log ++ ((fd, []) ∷ []);
    } in
    rw (==_refl fd) (flush_loop-idle results buffer next)

-- The oldest block is lost when a client that connects fails at the first write: it is taken off the
-- buffer, and nothing of it has been written to anyone.
pub connect-loses :
    (results : List ℕ) (fd byte : ℕ) (block : List ℕ) (buffer : List (List ℕ)) (e : TcpEgress)
    → e.client_fds ≡ []
    → e.buffer ≡ (byte ∷ block) ∷ buffer
    → ((connect (0 ∷ results) fd e).buffer ≡ buffer)
      × ((connect (0 ∷ results) fd e).client_fds ≡ [])
      × ((connect (0 ∷ results) fd e).log ≡ e.log ++ ((fd, []) ∷ []))
unfolding connect flush_buffer_to_clients write_to_clients
connect-loses results fd byte block buffer e idle full =
    let reach =
      ap (λ b. flush_loop (0 ∷ results) b (record e { client_fds = e.client_fds ++ (fd ∷ []) }))
        full
      ∙ ap
          (λ fds.
            flush_loop (0 ∷ results) ((byte ∷ block) ∷ buffer)
              (record e { client_fds = fds ++ (fd ∷ []) }))
          idle in
    let lost = reach ∙ lost_block results fd byte block buffer e in
    (ap (λ e. e.buffer) lost, ap (λ e. e.client_fds) lost, ap (λ e. e.log) lost)
