-- ===== src/Ltp/Adapter/Transfer.antt =====
-- From the transmitting thread of one adapter to the receiving thread of another, over connections that fail.
use mathlib.Core.Path.{subst}
use qpsk_b.Ltp.Framing.{frame_message}
use qpsk_b.Base.{
  length, arith, ◌≤◌, Bool-cases, inl, inr, joined, ℕ, ◌≡◌, refl, ap, sym, ◌∙◌, List, [], ◌∷◌, ◌++◌,
  map, append_assoc, append-nil, All,
}
use qpsk_b.Base.Result.{ok}
use qpsk_b.Ltp.Framing.Stream.{IsFramable}
use qpsk_b.Ltp.Adapter.{Transmitter, run_tx, RxEvent, received, lost, run_rx}
use qpsk_b.Ltp.Adapter.Sending.{
  finishes, in_hand, AreStreams, together, IsSent, IsTransferred, run_tx_loop-IsTransferred,
}
use qpsk_b.Ltp.Adapter.Streams.{IsStream, on_reads-IsStream, run_rx-append}

-- What the receiving thread meets: the reads of each connection, and between them its loss.
unfoldable pub rx_events : List (List (List ℕ)) → List (List ℕ) → List RxEvent
rx_events [] last_reads = map received last_reads ++ []
rx_events (reads ∷ connections) last_reads =
    map received reads ++ (lost ∷ rx_events connections last_reads)

-- The reads of each connection are the bytes that were written to it.
abbrev pub AreReads : List (List (List ℕ)) → List (List ℕ) → Type 0
AreReads [] [] = Unit
AreReads [] (stream ∷ streams) = ⊥
AreReads (reads ∷ connections) [] = ⊥
AreReads (reads ∷ connections) (stream ∷ streams) =
    (joined reads ≡ stream) × AreReads connections streams

All-split :
    (xs ys : List (List ℕ)) → All IsFramable (xs ++ ys) → All IsFramable xs × All IsFramable ys
All-split [] ys h = (tt, h)
All-split (x ∷ xs) ys h = let rest = All-split xs ys h.1 in ((h.0, rest.0), rest.1)

length-in_hand : (writes segments : List (List ℕ)) → length (in_hand writes segments) ≤ 1
unfolding in_hand
length-in_hand writes [] = omega arith
length-in_hand [] (segment ∷ queue) = omega arith
length-in_hand (results ∷ writes) (segment ∷ queue) =
    let size = length (frame_message segment) in
    elim (Bool-cases (finishes results size size)) [
      | inl q ↦ rw q (length-in_hand writes queue)
      | inr q ↦ rw q (omega arith)
    ]

run_rx-lost :
    (buffer : List ℕ) (events : List RxEvent) → run_rx buffer (lost ∷ events) ≡ run_rx [] events
unfolding run_rx
run_rx-lost buffer events = refl

run_rx-rx_events :
    (groups : List (List (List ℕ))) (last : List (List ℕ)) (closed : List (List ℕ))
    (current : List ℕ) (connections : List (List (List ℕ))) (last_reads : List (List ℕ))
    → AreStreams groups closed
    → IsStream last current
    → All IsFramable (together groups ++ last)
    → AreReads connections closed
    → joined last_reads ≡ current
    → (left : List ℕ) × (run_rx [] (rx_events connections last_reads)
        ≡ ok (together groups ++ last, left))
unfolding rx_events
run_rx-rx_events [] last [] current [] last_reads a s h r e =
    let (left, heard) = on_reads-IsStream last current last_reads s h e in
    (
      left,
      run_rx-append [] left left last_reads last [] [] heard (unfold run_rx in refl)
          ∙ ap (λ l. ok (l, left)) (append-nil last),
    )
run_rx-rx_events [] last [] current (reads ∷ connections) last_reads a s h r e = absurd r
run_rx-rx_events [] last (stream ∷ closed) current connections last_reads a s h r e = absurd a
run_rx-rx_events (group ∷ groups) last [] current connections last_reads a s h r e = absurd a
run_rx-rx_events (group ∷ groups) last (stream ∷ closed) current [] last_reads a s h r e = absurd r
run_rx-rx_events (group ∷ groups) last (stream ∷ closed) current (reads ∷ connections) last_reads a
      s h r e =
    let assoc = append_assoc group (together groups) last in
    let both = All-split group (together groups ++ last) (subst (All IsFramable) assoc h) in
    let (left, heard) = on_reads-IsStream group stream reads a.0 both.0 r.0 in
    let (final, rest) =
      run_rx-rx_events groups last closed current connections last_reads a.1 s both.1 r.1 e in
    (
      final,
      run_rx-append [] left final reads group (together groups ++ last)
            (lost ∷ rx_events connections last_reads) heard
            (run_rx-lost left (rx_events connections last_reads) ∙ rest)
          ∙ ap (λ l. ok (l, final)) (sym assoc),
    )

-- Segments that are queued, each short enough for its length to fit the prefix, are written to one
-- connection after another, each of which may fail at any write. If the bytes written to each connection are
-- read there, in any reads, then the other adapter hands over, each once, in their order and without a fault,
-- exactly the segments that have left the queue, but for the one in hand, if there is one, in whose frame the
-- transmitting thread ended.
pub run_rx-run_tx :
    (writes segments : List (List ℕ)) (t : Transmitter) (connections : List (List (List ℕ)))
    (last_reads : List (List ℕ))
    → t ≡ run_tx writes (record { tx_queue = segments; closed = []; current = [] })
    → All IsFramable segments
    → AreReads connections t.closed
    → joined last_reads ≡ t.current
    → (sent : List (List ℕ)) × (left : List ℕ) × (run_rx [] (rx_events connections last_reads)
        ≡ ok (sent, left))
      × (segments ≡ sent ++ (in_hand writes segments ++ t.tx_queue))
      × (length (in_hand writes segments) ≤ 1)
unfolding run_tx
run_rx-run_tx writes segments t connections last_reads e h r l =
    let begun : IsSent [] [] [] [] = record {
      groups = [];
      last = [];
      streams = tt;
      messages = refl;
      bytes = refl;
    } in
    let run = run_tx_loop-IsTransferred writes [] segments [] [] h begun in
    let cut = in_hand writes segments in
    let i = subst (IsTransferred segments cut) (sym e) run in
    let framable = (All-split i.sent (cut ++ t.tx_queue) (subst (All IsFramable) i.split h)).0 in
    let (left, heard) =
      run_rx-rx_events i.groups i.last t.closed t.current connections last_reads i.streams i.stream
        (subst (All IsFramable) (sym i.messages) framable) r l in
    (
      i.sent,
      left,
      heard ∙ ap (λ m. ok (m, left)) i.messages,
      i.split,
      length-in_hand writes segments,
    )
