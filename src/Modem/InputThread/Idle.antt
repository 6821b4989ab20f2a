-- ===== src/Modem/InputThread/Idle.antt =====
-- Bytes that wait in the buffer, fewer than a frame, are sent on when no more come.
use mathlib.Core.Path.{subst}
use qpsk_b.Base.{
  ℕ, suc, ◌+◌, ◌-◌, ◌/◌, ◌≤◌, ◌<◌, ◌≡◌, ◌⊎◌, inl, inr, refl, ap, sym, ◌∙◌, Bool, true, false, not,
  ◌&&◌, List, [], ◌∷◌, ◌++◌, append-nil, joined, map, ltb, leb, lt→ltb, ◌==◌, length, Bool-cases,
  arith,
}
use qpsk_b.Modem.SetUp.{SetUp}
use qpsk_b.Modem.TcpInput.{
  TcpInputServer, new_server, start, quiet, connected, poll_once, has_frame, flush, buffered_bytes,
}
use qpsk_b.Modem.InputThread.{
  InputThread, send_frames, flush_disconnected, flush_idle, Round, input_round, input_rounds,
  new_thread, offer_data,
}
use qpsk_b.Modem.InputThread.Feeding.{
  chunks, IsDrained, offer_data-server, begin-IsDrained, input_round-IsDrained,
  input_rounds-IsDrained,
}
use qpsk_b.Modem.TcpInput.Serving.{bytes_of}

abbrev IsEmpty : InputThread → Type 0
IsEmpty t = t.server.buffer ≡ []

-- The clock of the idle time runs, from a time that is not later than `now`.
abbrev IsTimed : ℕ → InputThread → Type 0
IsTimed now t = IsEmpty t ⊎ ((t.last_buffered ≡ length t.server.buffer) × (t.last_data_time ≤ now))

flushed-IsEmpty :
    (t : InputThread)
    → IsEmpty (offer_data (flush t.server).0 (record t { server = (flush t.server).1 }))
unfolding flush
flushed-IsEmpty t =
    ap (λ (s : TcpInputServer). s.buffer)
      (offer_data-server t.server.buffer (record t { server = record t.server { buffer = [] } }))

flush_disconnected-cases :
    (t : InputThread) → IsEmpty (flush_disconnected t) ⊎ (flush_disconnected t ≡ t)
unfolding flush_disconnected
flush_disconnected-cases t = elim (Bool-cases (t.was_connected && not (connected t.server))) [
  | inl c ↦ inl (rw c (flushed-IsEmpty t))
  | inr c ↦ inr (rw c refl)
]

-- It empties the buffer, or leaves it with the clock running.
flush_idle-IsTimed :
    (now : ℕ) (t : InputThread) → t.last_data_time ≤ now → IsTimed now (flush_idle now t)
unfolding flush_idle buffered_bytes
flush_idle-IsTimed now t h =
    let size = length t.server.buffer in
    elim (Bool-cases (ltb 0 size && (size == t.last_buffered))) [
      | inl c ↦ elim (Bool-cases (ltb 100 ((now - t.last_data_time) / 1000000))) [
        | inl late ↦ inl (rw (c, late) (flushed-IsEmpty t))
        | inr late ↦
            let same : t.last_buffered ≡ size = ground arith in inr (rw (c, late) (same, h))
      ]
      | inr c ↦ elim (Bool-cases (size == t.last_buffered)) [
        | inl same ↦
            let equal : t.last_buffered ≡ size = ground arith in inr (rw (c, same) (equal, h))
        | inr same ↦ inr (rw (c, same) (refl, omega arith))
      ]
    ]

flush_idle-IsEmpty : (now : ℕ) (t : InputThread) → IsEmpty t → IsEmpty (flush_idle now t)
unfolding flush_idle buffered_bytes
flush_idle-IsEmpty now t e =
    let size = length t.server.buffer in
    let none_in : size ≡ 0 = ap length e in
    let c : (ltb 0 size && (size == t.last_buffered)) ≡ false = ground arith in
    elim (Bool-cases (size == t.last_buffered)) [
      | inl same ↦ rw (c, same) e
      | inr same ↦ rw (c, same) e
    ]

no_bytes : (xs : List ℕ) → length xs ≡ 0 → xs ≡ []
no_bytes [] h = refl
no_bytes (x ∷ xs) h = absurd (omega arith)

flush_idle-late :
    (begin now : ℕ) (t : InputThread)
    → IsTimed begin t
    → begin + 101000000 ≤ now
    → IsEmpty (flush_idle now t)
unfolding flush_idle buffered_bytes
flush_idle-late begin now t (inl e) h = flush_idle-IsEmpty now t e
flush_idle-late begin now t (inr (equal, begun)) h =
    let size = length t.server.buffer in
    elim (Bool-cases (ltb 0 size)) [
      | inl some_in ↦
          let c : (ltb 0 size && (size == t.last_buffered)) ≡ true = ground arith in
          let late : ltb 100 ((now - t.last_data_time) / 1000000) ≡ true =
            lt→ltb _ _ (omega arith) in
          rw (c, late) (flushed-IsEmpty t)
      | inr none_in ↦ flush_idle-IsEmpty now t (no_bytes t.server.buffer (ground arith))
    ]

send_frames-done :
    (fuel now : ℕ) (t : InputThread)
    → length t.server.buffer < t.server.frame_size
    → send_frames (suc fuel) now t ≡ t
unfolding send_frames has_frame
send_frames-done fuel now t h =
    let c : leb t.server.frame_size (length t.server.buffer) ≡ false = ground arith in rw c refl

-- A round in which nothing comes.
abbrev pub silence : ℕ → Round
silence now = record { polled = quiet; frame_time = now; now = now }

quiet_round :
    (now : ℕ) (t : InputThread)
    → length t.server.buffer < t.server.frame_size
    → input_round (silence now) t ≡ record (flush_idle now (flush_disconnected t)) {
      was_connected = connected (flush_idle now (flush_disconnected t)).server;
    }
unfolding input_round poll_once
quiet_round now t h = rw (send_frames-done (buffered_bytes t.server) now t h) refl

quiet_round-IsTimed :
    (now : ℕ) (t : InputThread)
    → length t.server.buffer < t.server.frame_size
    → t.last_data_time ≤ now
    → IsTimed now (input_round (silence now) t)
quiet_round-IsTimed now t h late = rw (quiet_round now t h) (elim (flush_disconnected-cases t) [
  | inl e ↦ inl (flush_idle-IsEmpty now (flush_disconnected t) e)
  | inr e ↦ rw e (flush_idle-IsTimed now t late)
])

quiet_round-late :
    (begin now : ℕ) (t : InputThread)
    → length t.server.buffer < t.server.frame_size
    → IsTimed begin t
    → begin + 101000000 ≤ now
    → IsEmpty (input_round (silence now) t)
quiet_round-late begin now t h timed late =
    rw (quiet_round now t h) (elim (flush_disconnected-cases t) [
      | inl e ↦ flush_idle-IsEmpty now (flush_disconnected t) e
      | inr e ↦ rw e (flush_idle-late begin now t timed late)
    ])

-- While nothing comes the clock of the idle time is not set again.
flush_idle-keeps :
    (begin now : ℕ) (t : InputThread) → IsTimed begin t → IsTimed begin (flush_idle now t)
unfolding flush_idle buffered_bytes
flush_idle-keeps begin now t (inl e) = inl (flush_idle-IsEmpty now t e)
flush_idle-keeps begin now t (inr (equal, begun)) =
    let size = length t.server.buffer in
    let same : (size == t.last_buffered) ≡ true = ground arith in
    elim (Bool-cases (ltb 0 size)) [
      | inl some_in ↦ elim (Bool-cases (ltb 100 ((now - t.last_data_time) / 1000000))) [
        | inl late ↦ inl (rw (some_in, same, late) (flushed-IsEmpty t))
        | inr late ↦ inr (rw (some_in, same, late) (equal, begun))
      ]
      | inr none_in ↦ inr (rw (none_in, same) (equal, begun))
    ]

quiet_round-keeps :
    (begin now : ℕ) (t : InputThread)
    → length t.server.buffer < t.server.frame_size
    → IsTimed begin t
    → IsTimed begin (input_round (silence now) t)
quiet_round-keeps begin now t h timed =
    rw (quiet_round now t h) (elim (flush_disconnected-cases t) [
      | inl e ↦ inl (flush_idle-IsEmpty now (flush_disconnected t) e)
      | inr e ↦ rw e (flush_idle-keeps begin now t timed)
    ])

quiet_rounds-late :
    (n begin last : ℕ) (between : List ℕ) (t : InputThread)
    → 0 < n
    → IsDrained n t
    → IsTimed begin t
    → begin + 101000000 ≤ last
    → IsEmpty (input_rounds (map silence (between ++ (last ∷ []))) t)
unfolding input_rounds
quiet_rounds-late n begin last [] t positive drained timed late =
    quiet_round-late begin last t (omega (arith, drained.1, drained.0.serving.frame_size)) timed
      late
quiet_rounds-late n begin last (now ∷ between) t positive drained timed late =
    let kept =
      quiet_round-keeps begin now t (omega (arith, drained.1, drained.0.serving.frame_size))
        timed in
    quiet_rounds-late n begin last between (input_round (silence now) t) positive
      (input_round-IsDrained n positive (silence now) t drained) kept late

-- After any rounds, and then any number of rounds in which nothing comes, at any times, of which the last is
-- at least 101 ms after the first: the chunks offered to the queue, in their order, are exactly the bytes
-- received from the clients. It is assumed that frame_size is positive, and that the clock of the first quiet
-- round is not before the last time that was noted.
pub quiet_rounds-send_all :
    (n now first last : ℕ) (between : List ℕ) (setup : SetUp) (results : List Bool)
    (rounds : List Round) (t u : InputThread)
    → 0 < n
    → t ≡ input_rounds rounds (new_thread results now (start setup (new_server n)).1)
    → t.last_data_time ≤ first
    → first + 101000000 ≤ last
    → u ≡ input_rounds (map silence (first ∷ (between ++ (last ∷ [])))) t
    → bytes_of u.server.received ≡ joined (chunks u)
unfolding input_rounds
quiet_rounds-send_all n now first last between setup results rounds t u positive e noted apart f =
    let drained =
      subst (IsDrained n) (sym e) (
        input_rounds-IsDrained n positive rounds _
          (begin-IsDrained n now setup results positive)) in
    let waited = input_round-IsDrained n positive (silence first) t drained in
    let quiet_ones = map silence (between ++ (last ∷ [])) in
    let ended =
      input_rounds-IsDrained n positive quiet_ones (input_round (silence first) t) waited in
    let timed = quiet_round-IsTimed first t (omega (arith, drained.0.serving.frame_size)) noted in
    let empty = quiet_rounds-late n first last between _ positive waited timed apart in
    let stream = ended.0.serving.stream in
    subst (λ v. bytes_of v.server.received ≡ joined (chunks v)) (sym f)
      (stream
        ∙ ap (λ l. joined (chunks (input_rounds quiet_ones (input_round (silence first) t))) ++ l)
            empty
        ∙ append-nil _)
