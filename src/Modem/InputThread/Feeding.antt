-- ===== src/Modem/InputThread/Feeding.antt =====
-- No byte of the clients is lost, repeated or moved on its way to the queue.
use qpsk_b.Base.{
  ℕ, zero, suc, ◌-◌, ◌/◌, ◌≤◌, ◌<◌, ◌≡◌, inl, inr, refl, sym, ap, ◌∙◌, Bool, false, not, ◌&&◌, List,
  [], ◌∷◌, ◌++◌, map, append-nil, ltb, leb, ◌==◌, length, joined, joined-append, All, All-append,
  Bool-cases, arith,
}
use mathlib.Core.List.{map-append}
use mathlib.Core.Path.{subst}
use qpsk_b.Modem.SetUp.{SetUp}
use qpsk_b.Modem.TcpInput.{
  new_server, start, connected, poll_once, has_frame, read_frame, flush, buffered_bytes,
}
use qpsk_b.Modem.TcpInput.Serving.{
  current, bytes_of, IsServing, poll_once-IsServing, read_frame-IsServing, flush-IsServing,
}
use qpsk_b.Modem.InputThread.{
  InputThread, new_thread, next_result, offer, offer_data, send_frames, flush_disconnected,
  flush_idle, Round, input_round, input_rounds,
}

abbrev pub chunks : InputThread → List (List ℕ)
chunks t = map (λ o. o.0) t.offered

abbrev pub IsChunk : ℕ → List ℕ → Type 0
IsChunk n chunk = (0 < length chunk) × (length chunk ≤ n)

pub record IsFeeding (n : ℕ) (t : InputThread) : Type 0 where
  pub serving : IsServing n (joined (chunks t)) t.server
  pub sizes : All (IsChunk n) (chunks t)

-- Between the loop over the frames and the next call of `poll_once`.
abbrev pub IsDrained : ℕ → InputThread → Type 0
IsDrained n t = IsFeeding n t × (length t.server.buffer < n)

pub offer_data-server :
    (leftover : List ℕ) (t : InputThread) → (offer_data leftover t).server ≡ t.server
unfolding offer_data offer
offer_data-server [] t = refl
offer_data-server (byte ∷ bytes) t = refl

module _ (n : ℕ) (positive : 0 < n) where
  offer-IsFeeding :
      (chunk : List ℕ) (t : InputThread)
      → IsChunk n chunk
      → IsServing n (joined (chunks t) ++ chunk) t.server
      → All (IsChunk n) (chunks t)
      → IsFeeding n (offer chunk t)
  unfolding offer
  offer-IsFeeding chunk t size serving sizes =
      let result = (next_result t.results).0 in
      let split : chunks (offer chunk t) ≡ chunks t ++ (chunk ∷ []) =
        unfold offer in map-append (λ o. o.0) t.offered ((chunk, result) ∷ []) in
      let taken : joined (chunks (offer chunk t)) ≡ joined (chunks t) ++ chunk =
        ap joined split
        ∙ joined-append (chunks t) (chunk ∷ [])
        ∙ ap (λ l. joined (chunks t) ++ l) (append-nil chunk) in
      record {
        serving = subst (λ l. IsServing n l t.server) (sym taken) serving;
        sizes =
            subst (All (IsChunk n)) (sym split)
              (All-append (IsChunk n) (chunks t) (chunk ∷ []) sizes (size, tt));
      }

  offer_data-IsFeeding :
      (leftover : List ℕ) (t : InputThread)
      → length leftover ≤ n
      → IsServing n (joined (chunks t) ++ leftover) t.server
      → All (IsChunk n) (chunks t)
      → IsFeeding n (offer_data leftover t)
  unfolding offer_data
  offer_data-IsFeeding [] t size serving sizes = record {
    serving = subst (λ l. IsServing n l t.server) (append-nil (joined (chunks t))) serving;
    sizes = sizes;
  }
  offer_data-IsFeeding (byte ∷ bytes) t size serving sizes =
      offer-IsFeeding (byte ∷ bytes) t (omega arith, size) serving sizes

  send_frames-IsDrained :
      (fuel now : ℕ) (t : InputThread)
      → length t.server.buffer < fuel
      → IsFeeding n t
      → IsDrained n (send_frames fuel now t)
  unfolding send_frames has_frame offer
  send_frames-IsDrained zero now t enough i = absurd (omega arith)
  send_frames-IsDrained (suc fuel) now t enough i =
      elim (Bool-cases (leb t.server.frame_size (length t.server.buffer))) [
        | inl h ↦
            let size = i.serving.frame_size in
            let (serving, taken, left) =
              read_frame-IsServing n (joined (chunks t)) t.server (ground arith) i.serving in
            let some_in : (length (read_frame t.server).0 == 0) ≡ false = ground arith in
            let offered =
              offer-IsFeeding (read_frame t.server).0
                (record t { server = (read_frame t.server).1 }) (omega arith, omega arith) serving
                i.sizes in
            rw (h, some_in)
              (send_frames-IsDrained fuel now _ (omega arith)
                (record { serving = offered.serving; sizes = offered.sizes }))
        | inr h ↦ rw h (i, ground arith)
      ]

  flush-IsDrained :
      (t : InputThread)
      → IsDrained n t
      → IsDrained n (offer_data (flush t.server).0 (record t { server = (flush t.server).1 }))
  unfolding flush
  flush-IsDrained t (i, small) =
      let emptied = record t { server = record t.server { buffer = [] } } in
      let same = offer_data-server t.server.buffer emptied in
      (
        offer_data-IsFeeding t.server.buffer emptied (omega arith)
            (flush-IsServing n (joined (chunks t)) t.server i.serving) i.sizes,
        rw same positive,
      )

  flush_disconnected-IsDrained :
      (t : InputThread) → IsDrained n t → IsDrained n (flush_disconnected t)
  unfolding flush_disconnected
  flush_disconnected-IsDrained t i =
      elim (Bool-cases (t.was_connected && not (connected t.server))) [
        | inl c ↦ rw c (flush-IsDrained t i)
        | inr c ↦ rw c i
      ]

  flush_idle-IsDrained :
      (now : ℕ) (t : InputThread) → IsDrained n t → IsDrained n (flush_idle now t)
  unfolding flush_idle
  flush_idle-IsDrained now t i =
      let size = buffered_bytes t.server in
      let (fed, small) = flush-IsDrained t i in
      elim (Bool-cases (ltb 0 size && (size == t.last_buffered))) [
        | inl c ↦ elim (Bool-cases (ltb 100 ((now - t.last_data_time) / 1000000))) [
          | inl late ↦ rw (c, late) (record { serving = fed.serving; sizes = fed.sizes }, small)
          | inr late ↦ rw (c, late) i
        ]
        | inr c ↦ elim (Bool-cases (size == t.last_buffered)) [
          | inl same ↦ rw (c, same) i
          | inr same ↦ rw (c, same) (record { serving = i.0.serving; sizes = i.0.sizes }, i.1)
        ]
      ]

  pub input_round-IsDrained :
      (r : Round) (t : InputThread) → IsDrained n t → IsDrained n (input_round r t)
  unfolding input_round buffered_bytes
  input_round-IsDrained r t (i, small) =
      let polled = poll_once-IsServing n (joined (chunks t)) r.polled t.server i.serving in
      let sent =
        send_frames-IsDrained (suc (length (poll_once r.polled t.server).buffer)) r.frame_time
          (record t { server = poll_once r.polled t.server }) (omega arith)
          (record { serving = polled; sizes = i.sizes }) in
      let idle = flush_idle-IsDrained r.now _ (flush_disconnected-IsDrained _ sent) in
      (record { serving = idle.0.serving; sizes = idle.0.sizes }, idle.1)

  pub input_rounds-IsDrained :
      (rounds : List Round) (t : InputThread) → IsDrained n t → IsDrained n (input_rounds rounds t)
  unfolding input_rounds
  input_rounds-IsDrained [] t i = i
  input_rounds-IsDrained (r ∷ rounds) t i =
      input_rounds-IsDrained rounds (input_round r t) (input_round-IsDrained r t i)

pub begin-IsDrained :
    (n now : ℕ) (setup : SetUp) (results : List Bool)
    → 0 < n
    → IsDrained n (new_thread results now (start setup (new_server n)).1)
unfolding new_thread start new_server
begin-IsDrained n now setup results positive = (
  record { serving = record { frame_size = refl; stream = refl; clients = refl }; sizes = tt },
  positive,
)

-- With a positive frame_size, however the server starts and whatever is polled and pushed: the chunks
-- offered to the queue, in their order, and then the buffer are exactly the bytes received from the
-- clients; each chunk has between one and frame_size bytes, and fewer than frame_size are left in the
-- buffer after a round; and each client accepted has been closed, once, unless it is the current one.
pub input_rounds-feeds :
    (n now : ℕ) (setup : SetUp) (results : List Bool) (rounds : List Round) (t : InputThread)
    → 0 < n
    → t ≡ input_rounds rounds (new_thread results now (start setup (new_server n)).1)
    → (bytes_of t.server.received ≡ joined (chunks t) ++ t.server.buffer)
      × All (IsChunk n) (chunks t)
      × (length t.server.buffer < n)
      × (t.server.accepted ≡ t.server.closed ++ current t.server.client_fd)
input_rounds-feeds n now setup results rounds t positive e =
    let begun = begin-IsDrained n now setup results positive in
    let (i, small) =
      subst (IsDrained n) (sym e) (input_rounds-IsDrained n positive rounds _ begun) in
    (i.serving.stream, i.sizes, small, i.serving.clients)
