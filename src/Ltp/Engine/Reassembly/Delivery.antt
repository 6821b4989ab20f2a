-- ===== src/Ltp/Engine/Reassembly/Delivery.antt =====
-- When a receiver session is complete, and what is handed over then.
use qpsk_b.Base.{
  ℕ, ◌+◌, ◌-◌, ◌^◌, ◌≤◌, ◌<◌, ◌≡◌, refl, ap, ◌∙◌, true, false, List, inl, inr, Bool-cases, All, leb,
  arith, length, map, none, [], ◌∷◌, ◌⊎◌,
}
use qpsk_b.Base.Elements.{get_elem?-injective, take_all}
use qpsk_b.Base.Result.{ok, ◌>>=◌}
use qpsk_b.Ltp.Engine.State.{slice, Engine}
use qpsk_b.Ltp.Engine.Receive.{receiver_session}
use qpsk_b.Ltp.Tracker.{is_complete}
use qpsk_b.Ltp.Tracker.Coverage.{is_complete_iff, covers}
use qpsk_b.Ltp.Segment.{LtpSegment}
use qpsk_b.Ltp.Session.{LtpSession, SessionKey, session_key_eq}
use qpsk_b.Base.Assoc.{lookup}
use qpsk_b.Ltp.Engine.Dispatch.{receive, receive_segment, run, step}
use qpsk_b.Ltp.Engine.Reassembly.{Carries, IsPartOf, any_touches, any_ends}
use qpsk_b.Ltp.Engine.Reassembly.Reporting.{deliveries}
use qpsk_b.Ltp.Engine.Reassembly.Acknowledged.{IsAckFor, IsHandedOver, ack-delivers, ack-waits}
use qpsk_b.Ltp.Engine.Reassembly.Taken.{
  IsRedFor, IsHolding, IsTaken, receive_segment-opens, run-IsTaken, IsTaken-cons,
}

-- A complete part is the whole block.
complete-block :
    (block : List ℕ) (s : LtpSession)
    → IsPartOf block s
    → s.total_data_length ≡ length block
    → 0 < length block
    → is_complete s.reception_tracker s.total_data_length ≡ true
    → slice 0 s.total_data_length s.client_data ≡ ok block
unfolding slice
complete-block block s p t h c =
    let all = (is_complete_iff s.total_data_length s.reception_tracker p.valid).0 c in
    let last_held = p.held (length block - 1) (all (length block - 1) (omega arith)) in
    let small = p.short in
    let size : length s.client_data ≡ length block = omega arith in
    let same : s.client_data ≡ block =
      get_elem?-injective s.client_data block size (λ i hi. p.agrees i (all i (omega arith))) in
    let room : leb (0 + s.total_data_length) (length s.client_data) ≡ true = ground arith in
    rw room (ap ok (take_all s.total_data_length s.client_data (omega arith) ∙ same))

above-uncovered :
    (block : List ℕ) (s : LtpSession)
    → IsPartOf block s
    → s.total_data_length ≡ length block
    → (i : ℕ) → s.total_data_length ≤ i
    → covers s.reception_tracker i ≡ false
above-uncovered block s p t i hi = elim (Bool-cases (covers s.reception_tracker i)) [
  | inl q ↦ let inside = p.held i q in let small = p.short in absurd (omega arith)
  | inr q ↦ q
]

ends-some : (segs : List LtpSegment) → any_ends segs ≡ true → 0 < length segs
ends-some [] h = absurd (ground arith)
ends-some (seg ∷ segs) h = omega arith

run-opened :
    (block : List ℕ) (k : SessionKey)
    → length block < 2 ^ 63
    → (segs : List LtpSegment) (e : Engine) → All (IsRedFor k) segs
    → All (Carries block) segs
    → lookup k e.sessions ≡ none
    → length e.sessions < e.config.max_concurrent_sessions
    → 0 < length segs
    → (first : LtpSegment) × (s : LtpSession) × (e' : Engine) × (run (map receive segs) e ≡ ok e')
      × IsTaken block k segs (receiver_session first) s e e'
unfolding run step
run-opened block k hb [] e red c new room h = absurd (omega arith)
run-opened block k hb (seg ∷ segs) e red c new room h =
    let (s1, e1, ran, t) = receive_segment-opens block k hb seg e red.0 c.0 new room in
    let (s2, e2, ran', t') = run-IsTaken block k hb segs s1 e1 red.1 c.1 t.holding in
    (
      seg,
      s2,
      e2,
      ap (λ m. m >>= run (map receive segs)) ran ∙ ran',
      IsTaken-cons block k hb seg segs (receiver_session seg) s1 s2 e e1 e2 t t',
    )

-- A session with a length of 0 counts as complete.
no_length_complete :
    (s : LtpSession)
    → s.total_data_length ≡ 0
    → (is_complete s.reception_tracker s.total_data_length ≡ true)
      × (slice 0 s.total_data_length s.client_data ≡ ok [])
unfolding is_complete slice
no_length_complete s z =
    let fits : leb (0 + 0) (length s.client_data) ≡ true = ground arith in
    (simp z refl, simp (z, fits) refl)

-- What the acknowledgement of a report does to a session that holds a part of a block.
ack-outcome :
    (block : List ℕ) (k : SessionKey) (ack : LtpSegment) (s : LtpSession) (e : Engine)
    → 0 < length block
    → IsHolding block k s e
    → IsAckFor k ack
    → e.callbacks.data_arrival ≡ true
    → (e' : Engine) × (receive_segment ack e ≡ ok e')
      × ((deliveries e'.effects ≡ deliveries e.effects)
          ⊎ (IsHandedOver k block e e' ⊎ ((s.total_data_length ≡ 0) × IsHandedOver k [] e e')))
ack-outcome block k ack s e h r acks calls =
    elim (Bool-cases (is_complete s.reception_tracker s.total_data_length)) [
      | inr waits ↦
          let (e', ran, same) = ack-waits k ack s e acks r.found r.receives waits in
          (e', ran, inl same)
      | inl whole ↦ elim r.part.total [
        | inl z ↦
            let held = (no_length_complete s z).1 in
            let (e', ran, over) =
              ack-delivers k ack s [] e acks r.found r.receives calls whole held in
            (e', ran, inr (inr (z, over)))
        | inr t ↦
            let held = complete-block block s r.part t h whole in
            let (e', ran, over) =
              ack-delivers k ack s block e acks r.found r.receives calls whole held in
            (e', ran, inr (inl over))
      ]
    ]

-- The segments of one session, of which the first opens it.
module _ (block : List ℕ) (k : SessionKey) (arrived : List LtpSegment) (ack : LtpSegment)
    (e : Engine) (h : 0 < length block) (hb : length block < 2 ^ 63)
    (red : All (IsRedFor k) arrived) (pieces : All (Carries block) arrived) (acks : IsAckFor k ack)
    (new : lookup k e.sessions ≡ none) (room : length e.sessions < e.config.max_concurrent_sessions)
    (calls : e.callbacks.data_arrival ≡ true) where
  -- Once all the bytes of a block that is not empty have arrived in red segments, and a segment that
  -- ends it, in any order and with any repetitions, at an engine that has no such session and room for
  -- one, nothing has been handed over; the acknowledgement of a report then hands over exactly the
  -- block, and the session is forgotten.
  pub deliver_lem :
      ((i : ℕ) → i < length block → any_touches arrived i ≡ true)
      → any_ends arrived ≡ true
      → (e1 : Engine) × (e2 : Engine) × (run (map receive arrived) e ≡ ok e1)
        × (deliveries e1.effects ≡ deliveries e.effects)
        × (receive_segment ack e1 ≡ ok e2)
        × IsHandedOver k block e1 e2
  deliver_lem all some_end =
      let (first, s, e1, ran, r) =
        run-opened block k hb arrived e red pieces new room (ends-some arrived some_end) in
      let p = r.holding.part in
      let total = r.ended (inl some_end) in
      let covered = λ (i : ℕ) (hi : i < length block). r.covered i (ground (arith, all i hi)) in
      let whole =
        (is_complete_iff s.total_data_length s.reception_tracker p.valid).1
          (λ i hi. covered i (omega arith)) (above-uncovered block s p total) in
      let (e2, ran2, over) =
        ack-delivers k ack s block e1 acks r.holding.found r.holding.receives
          (ap (λ c. c.data_arrival) r.quiet.0 ∙ calls) whole
          (complete-block block s p total h whole) in
      (e1, e2, ran, r.quiet.1, ran2, over)

  -- Whatever red pieces of a block that is not empty have arrived, at least one, at an engine that has no
  -- such session and room for one, nothing has been handed over; the acknowledgement of a report then
  -- hands over nothing, or exactly the block, or, where no segment ended the block, a block of no bytes.
  pub complete_lem :
      0 < length arrived
      → (e1 : Engine) × (e2 : Engine) × (run (map receive arrived) e ≡ ok e1)
        × (deliveries e1.effects ≡ deliveries e.effects)
        × (receive_segment ack e1 ≡ ok e2)
        × ((deliveries e2.effects ≡ deliveries e1.effects)
            ⊎ (IsHandedOver k block e1 e2 ⊎ ((any_ends arrived ≡ false) × IsHandedOver k [] e1 e2)))
  complete_lem some_arrived =
      let (first, s, e1, ran, r) =
        run-opened block k hb arrived e red pieces new room some_arrived in
      let (e2, ran2, outcome) =
        ack-outcome block k ack s e1 h r.holding acks
          (ap (λ c. c.data_arrival) r.quiet.0 ∙ calls) in
      (
        e1,
        e2,
        ran,
        r.quiet.1,
        ran2,
        elim outcome [
          | inl none_given ↦ inl none_given
          | inr (inl over) ↦ inr (inl over)
          | inr (inr (z, over)) ↦ inr (
              inr (
                elim (Bool-cases (any_ends arrived)) [
                  | inl q ↦ let total = r.ended (inl q) in absurd (omega arith)
                  | inr q ↦ q
                ],
                over,
              ))
        ],
      )
