-- ===== src/Ltp/Egress/Invariant.antt =====
-- The buffer of the egress server: its count of bytes, its limit, and when it is used.
use qpsk_b.Base.{
  ℕ, ◌+◌, ◌^◌, ◌≤◌, ◌<◌, ◌≡◌, refl, ap, ◌∙◌, ◌⊎◌, inl, inr, true, false, List, [], ◌∷◌, ◌++◌, ltb,
  ltb→le, Bool-cases, length, All, arith,
}
use qpsk_b.Base.Bits.{add64, sub64}
use qpsk_b.Ltp.Framing.{frame_message, length_prefix}
use qpsk_b.Ltp.Egress.{
  TcpEgress, new_egress, write_to_clients, discard_loop, store, is_empty, deliver, flush_loop,
  flush_buffer_to_clients, connect, close_clients, Event, delivered, connected, stopped, handle,
  serve,
}

unfoldable pub total : List (List ℕ) → ℕ
total [] = 0
total (block ∷ buffer) = length block + total buffer

total-append : (xs ys : List (List ℕ)) → total (xs ++ ys) ≡ total xs + total ys
unfolding total
total-append [] ys = omega arith
total-append (x ∷ xs) ys = omega (arith, total-append xs ys)

-- The limit holds, or there is one block alone, which may be larger.
abbrev pub IsWithin : ℕ → List (List ℕ) → Type 0
IsWithin limit buffer =
    (total buffer ≤ limit) ⊎ ((block : List ℕ) × (buffer ≡ block ∷ []) × (length block < 2 ^ 33))

pub record IsValid (limit : ℕ) (e : TcpEgress) : Type 0 where
  pub limit_kept : e.max_buffer_bytes ≡ limit
  pub counted : e.buffer_bytes ≡ total e.buffer
  pub within : IsWithin limit e.buffer
  pub apart : (e.client_fds ≡ []) ⊎ (e.buffer ≡ [])

IsWithin-bound :
    (limit : ℕ) (buffer : List (List ℕ))
    → limit < 2 ^ 62
    → IsWithin limit buffer
    → total buffer < 2 ^ 62
unfolding total
IsWithin-bound limit buffer h (inl le) = omega arith
IsWithin-bound limit buffer h (inr (block, e, short)) =
    let size : total buffer ≡ length block + 0 = ap total e in omega arith

-- Blocks are of fewer than 2^32 bytes, as their length has 32 bits.
abbrev pub FitsEvent : Event → Type 0
FitsEvent (delivered results bytes) = length bytes < 2 ^ 32
FitsEvent (connected results client_fd) = Unit
FitsEvent stopped = Unit

length-frame : (bytes : List ℕ) → length bytes < 2 ^ 32 → length (frame_message bytes) < 2 ^ 33
unfolding frame_message length_prefix
length-frame bytes h = omega arith

or_else : {A B : Type 0} → A ⊎ B → (A → ⊥) → B
or_else (inl a) f = absurd (f a)
or_else (inr b) f = b

no_clients : (fds : List ℕ) → fds ≡ [] → is_empty fds ≡ false → ⊥
unfolding is_empty
no_clients [] e h = cc
no_clients (fd ∷ fds) e h = cc

module _ (limit : ℕ) (small : limit < 2 ^ 62) where
  -- What is left after the discarding: a suffix that leaves room, or nothing.
  record IsRoom (size : ℕ) (result : List (List ℕ) × ℕ) : Type 0 where
    bytes : result.1 ≡ total result.0
    room : (result.0 ≡ []) ⊎ (total result.0 + size ≤ limit)

  discard_loop-IsRoom :
      (size : ℕ) (buffer : List (List ℕ)) (bytes : ℕ)
      → size < 2 ^ 33
      → bytes ≡ total buffer
      → total buffer < 2 ^ 62
      → IsRoom size (discard_loop limit size buffer bytes)
  unfolding discard_loop total
  discard_loop-IsRoom size [] bytes h e b = record { bytes = e; room = inl refl }
  discard_loop-IsRoom size (block ∷ buffer) bytes h e b =
      elim (Bool-cases (ltb limit (add64 bytes size))) [
        | inl t ↦ rw t (
            discard_loop-IsRoom size buffer (sub64 bytes (length block)) h (omega arith)
              (omega arith))
        | inr t ↦
            let fits : add64 bytes size ≤ limit = ltb→le _ _ t in
            rw t (record { bytes = e; room = inr (omega arith) })
      ]

  stored-IsWithin :
      (framed : List ℕ) (buffer : List (List ℕ))
      → length framed < 2 ^ 33
      → (buffer ≡ []) ⊎ (total buffer + length framed ≤ limit)
      → IsWithin limit (buffer ++ (framed ∷ []))
  unfolding total
  stored-IsWithin framed buffer h (inl e) = inr (framed, ap (λ l. l ++ (framed ∷ [])) e, h)
  stored-IsWithin framed buffer h (inr le) = inl (omega (arith, total-append buffer (framed ∷ [])))

  store-IsValid :
      (framed : List ℕ) (e : TcpEgress)
      → length framed < 2 ^ 33
      → e.client_fds ≡ []
      → IsValid limit e
      → IsValid limit (store framed e)
  unfolding store total
  store-IsValid framed e h idle v =
      let bound = IsWithin-bound limit e.buffer small v.within in
      let left : IsRoom (length framed)
          (discard_loop e.max_buffer_bytes (length framed) e.buffer e.buffer_bytes) =
        rw v.limit_kept
          (discard_loop-IsRoom (length framed) e.buffer e.buffer_bytes h v.counted bound) in
      let result = discard_loop e.max_buffer_bytes (length framed) e.buffer e.buffer_bytes in
      let within = stored-IsWithin framed result.0 h left.room in
      let below = IsWithin-bound limit (result.0 ++ (framed ∷ [])) small within in
      record {
        limit_kept = v.limit_kept;
        counted = omega (arith, total-append result.0 (framed ∷ []), left.bytes);
        within = within;
        apart = inl idle;
      }

  -- The buffer is empty where a client is connected, so a write leaves it alone.
  write_to_clients-IsValid :
      (results framed : List ℕ) (e : TcpEgress)
      → IsValid limit e
      → e.buffer ≡ []
      → IsValid limit (write_to_clients results framed e).0
  unfolding write_to_clients
  write_to_clients-IsValid results framed e v empty = record {
    limit_kept = v.limit_kept;
    counted = v.counted;
    within = v.within;
    apart = inr empty;
  }

  is_empty-cases : (fds : List ℕ) → (fds ≡ []) ⊎ (is_empty fds ≡ false)
  unfolding is_empty
  is_empty-cases [] = inl refl
  is_empty-cases (fd ∷ fds) = inr refl

  deliver-IsValid :
      (results bytes : List ℕ) (e : TcpEgress)
      → length bytes < 2 ^ 32
      → IsValid limit e
      → IsValid limit (deliver results bytes e)
  unfolding deliver
  deliver-IsValid results bytes e h v = elim (is_empty-cases e.client_fds) [
    | inl idle ↦
        let test : is_empty e.client_fds ≡ true = ap is_empty idle ∙ unfold is_empty in refl in
        rw test (store-IsValid (frame_message bytes) e (length-frame bytes h) idle v)
    | inr busy ↦ rw busy (
        write_to_clients-IsValid results (frame_message bytes) e v
          (or_else v.apart (λ idle. no_clients e.client_fds idle busy)))
  ]

  tail-IsWithin :
      (block : List ℕ) (buffer : List (List ℕ))
      → IsWithin limit (block ∷ buffer)
      → IsWithin limit buffer
  unfolding total
  tail-IsWithin block buffer (inl le) = inl (omega arith)
  tail-IsWithin block buffer (inr (b, e, short)) =
      let none_left : buffer ≡ [] = cc in inl (omega (arith, ap total none_left))

  taken_off :
      (block : List ℕ) (buffer : List (List ℕ)) (bytes : ℕ)
      → IsWithin limit (block ∷ buffer)
      → bytes ≡ total (block ∷ buffer)
      → sub64 bytes (length block) ≡ total buffer
  unfolding total
  taken_off block buffer bytes w c = omega (arith, IsWithin-bound limit (block ∷ buffer) small w)

  flush_loop-IsValid :
      (results : List ℕ) (buffer : List (List ℕ)) (e : TcpEgress)
      → e.buffer ≡ buffer
      → e.max_buffer_bytes ≡ limit
      → e.buffer_bytes ≡ total buffer
      → IsWithin limit buffer
      → IsValid limit (flush_loop results buffer e)
  unfolding flush_loop
  flush_loop-IsValid results [] e b m c w = record {
    limit_kept = m;
    counted = rw b c;
    within = rw b w;
    apart = inr b;
  }
  flush_loop-IsValid results (block ∷ buffer) e b m c w = elim (is_empty-cases e.client_fds) [
    | inl idle ↦
        let test : is_empty e.client_fds ≡ true = ap is_empty idle ∙ unfold is_empty in refl in
        rw test (record { limit_kept = m; counted = rw b c; within = rw b w; apart = inl idle })
    | inr busy ↦ rw busy (
        flush_loop-IsValid (write_to_clients results block e).1 buffer _ refl
          (unfold write_to_clients in m) (taken_off block buffer e.buffer_bytes w c)
          (tail-IsWithin block buffer w))
  ]

  connect-IsValid :
      (results : List ℕ) (client_fd : ℕ) (e : TcpEgress)
      → IsValid limit e
      → IsValid limit (connect results client_fd e)
  unfolding connect flush_buffer_to_clients
  connect-IsValid results client_fd e v =
      flush_loop-IsValid results e.buffer
        (record e { client_fds = e.client_fds ++ (client_fd ∷ []) }) refl v.limit_kept v.counted
        v.within

  handle-IsValid :
      (event : Event) (e : TcpEgress)
      → FitsEvent event
      → IsValid limit e
      → IsValid limit (handle event e)
  unfolding handle close_clients
  handle-IsValid (delivered results bytes) e f v = deliver-IsValid results bytes e f v
  handle-IsValid (connected results client_fd) e f v = connect-IsValid results client_fd e v
  handle-IsValid stopped e f v = record {
    limit_kept = v.limit_kept;
    counted = v.counted;
    within = v.within;
    apart = inl refl;
  }

serve_from-IsValid :
    (limit : ℕ) (events : List Event) (e : TcpEgress)
    → limit < 2 ^ 62
    → All FitsEvent events
    → IsValid limit e
    → IsValid limit (serve events e)
unfolding serve
serve_from-IsValid limit [] e small fits v = v
serve_from-IsValid limit (event ∷ events) e small fits v =
    serve_from-IsValid limit events (handle event e) small fits.1
      (handle-IsValid limit small event e fits.0 v)

-- However blocks are delivered, clients come and fail and the server is stopped, buffer_bytes is the
-- size of what is buffered, something is buffered only while no client is connected, and the buffer is
-- within its limit or holds one block alone. Blocks are of fewer than 2^32 bytes, the limit below 2^62.
pub serve-IsValid :
    (limit : ℕ) (events : List Event)
    → limit < 2 ^ 62
    → All FitsEvent events
    → IsValid limit (serve events (new_egress limit))
serve-IsValid limit events small fits =
    serve_from-IsValid limit events (new_egress limit) small fits (
      unfold new_egress total in
      record { limit_kept = refl; counted = refl; within = inl (omega arith); apart = inl refl })
