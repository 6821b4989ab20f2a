-- ===== src/Ltp/Engine/Reassembly/Taken.antt =====
-- A receiver session of red data takes in pieces of a block: each call of `receive_segment` keeps what it
-- holds a part of the block, and hands nothing over.
use qpsk_b.Base.{
  ℕ, ◌+◌, ◌^◌, ◌<◌, ◌≡◌, refl, ap, ◌∙◌, true, false, ◌&&◌, leb, map, none, some, ◌||◌, List, [],
  ◌∷◌, ◌⊎◌, inl, inr, Bool-cases, All, arith, length,
}
use qpsk_b.Base.Result.{ok, ◌>>=◌}
use qpsk_b.Ltp.Engine.Reassembly.Buffer.{store_data-IsStored}
use qpsk_b.Ltp.Segment.{LtpSegment, DataSegContent, data_seg}
use qpsk_b.Ltp.SegType.{is_red, is_green, has_eob}
use qpsk_b.Ltp.Session.{LtpSession, SessionKey, receiver, key, session_key_eq}
use qpsk_b.Ltp.Tracker.Coverage.{covers, between, covers-add_range}
use qpsk_b.Ltp.Engine.Receive.{
  accept_data, count_received, receiver_session, data_session, data_found, receive_data_segment,
}
use qpsk_b.Ltp.Engine.Dispatch.{receive_segment, receive, step, run}
use qpsk_b.Ltp.Engine.Report.{is_active}
use qpsk_b.Ltp.Engine.State.{Engine, count, inc64}
use qpsk_b.Ltp.Engine.Reassembly.Reporting.{IsQuiet, report_checkpoint-IsReported}
use qpsk_b.Base.Assoc.{lookup, emplace}
use qpsk_b.Ltp.Engine.Reassembly.{
  CarriesPiece, Carries, IsPartOf, absorbed, touches, any_touches, any_ends,
}
use qpsk_b.Ltp.Engine.Reassembly.Absorbed.{
  absorbed-IsPartOf, absorb-absorbed, ended-absorbed, counted-IsPartOf, new-IsPartOf, or_shift,
}

-- The segment is one of red data for the session.
abbrev pub IsRedFor : SessionKey → LtpSegment → Type 0
IsRedFor k seg = (is_red seg.segment_type ≡ true) × (key seg.engine_id seg.session_number ≡ k)

-- A session of the receiver that holds a part of the block.
pub record IsHolding (block : List ℕ) (k : SessionKey) (s : LtpSession) (e : Engine) : Type 0 where
  pub found : lookup k e.sessions ≡ some s
  pub running : is_active s.state ≡ true
  pub receives : s.role ≡ receiver
  pub part : IsPartOf block s

-- Where the engine held `s`, it has taken in more segments and holds `s'`.
pub record IsTaken (block : List ℕ) (k : SessionKey) (segs : List LtpSegment) (s s' : LtpSession)
    (e e' : Engine) : Type 0 where
  pub holding : IsHolding block k s' e'
  pub covered :
      (i : ℕ)
      → (any_touches segs i || covers s.reception_tracker i) ≡ true
      → covers s'.reception_tracker i ≡ true
  pub ended :
      any_ends segs ≡ true ⊎ s.total_data_length ≡ length block
      → s'.total_data_length ≡ length block
  pub quiet : IsQuiet e e'

receive_segment-data :
    (k : SessionKey) (seg : LtpSegment) (ds : DataSegContent) (e : Engine)
    → IsRedFor k seg
    → seg.content ≡ data_seg ds
    → receive_segment seg e ≡ data_found k seg ds (lookup k e.sessions) e
unfolding receive_segment receive_data_segment
receive_segment-data k seg ds e (red, same) q =
    let is_one : leb seg.segment_type 5 ≡ true = ground arith in rw (is_one, q, same) refl

count_received-IsQuiet :
    (seg : LtpSegment) (e e' : Engine) → IsQuiet (count_received seg e) e' → IsQuiet e e'
count_received-IsQuiet seg e e' (calls, told) = elim (Bool-cases (is_red seg.segment_type)) [
  | inl h ↦ (rw h at calls, rw h at told)
  | inr h ↦ (rw h at calls, rw h at told)
]

module _ (block : List ℕ) (k : SessionKey) (hb : length block < 2 ^ 63) where
  accept_data-IsTaken :
      (seg : LtpSegment) (ds : DataSegContent) (s : LtpSession) (e : Engine)
      → is_red seg.segment_type ≡ true
      → seg.content ≡ data_seg ds
      → CarriesPiece block seg ds
      → is_active s.state ≡ true
      → s.role ≡ receiver
      → IsPartOf block s
      → (s' : LtpSession) × (e' : Engine) × (accept_data k seg ds s e ≡ ok e')
        × IsTaken block k (seg ∷ []) s s' e e'
  unfolding accept_data
  accept_data-IsTaken seg ds s e red q c running receives p =
      let (buffer, b) = store_data-IsStored block ds s.client_data c.0 c.1 hb in
      let next = absorbed seg ds s buffer in
      let took = absorb-absorbed block seg ds s buffer b in
      let (e', ran, r) =
        report_checkpoint-IsReported k seg ds next ds.checkpoint_serial (count_received seg e) in
      let later = record next { report_serial_counter = r.counter } in
      let not_green : (is_green seg.segment_type && has_eob seg.segment_type) ≡ false =
        ground arith in
      let cov = λ (i : ℕ).
        covers-add_range i ds.offset ds.length s.reception_tracker (omega (arith, c.1)) p.valid in
      (
        later,
        e',
        rw (took, ran, not_green) refl,
        record {
          holding = record {
            found = r.found;
            running = running;
            receives = receives;
            part =
                counted-IsPartOf block next r.counter
                  (absorbed-IsPartOf block seg ds s buffer hb c b p);
          };
          covered = λ i h.
              let here : touches seg i ≡ between ds.offset (ds.offset + ds.length) i = rw q refl in
              or_shift _ false _ _ _ here (cov i) h;
          ended = λ h. elim (ended-absorbed block seg [] ds s buffer hb c h) [
            | inl bad ↦ absurd (ground arith)
            | inr t ↦ t
          ];
          quiet = count_received-IsQuiet seg e e' r.quiet;
        },
      )

  data_found-IsTaken :
      (seg : LtpSegment) (ds : DataSegContent) (s : LtpSession) (e : Engine)
      → is_red seg.segment_type ≡ true
      → seg.content ≡ data_seg ds
      → CarriesPiece block seg ds
      → IsHolding block k s e
      → (s' : LtpSession) × (e' : Engine) × (data_found k seg ds (lookup k e.sessions) e ≡ ok e')
        × IsTaken block k (seg ∷ []) s s' e e'
  unfolding data_found data_session
  data_found-IsTaken seg ds s e red q c r =
      let (s', e', ran, t) = accept_data-IsTaken seg ds s e red q c r.running r.receives r.part in
      (s', e', rw (r.found, r.running) ran, t)

  receive_segment-IsTaken :
      (seg : LtpSegment) (s : LtpSession) (e : Engine)
      → IsRedFor k seg
      → Carries block seg
      → IsHolding block k s e
      → (s' : LtpSession) × (e' : Engine) × (receive_segment seg e ≡ ok e')
        × IsTaken block k (seg ∷ []) s s' e e'
  receive_segment-IsTaken seg s e (red, same) (ds, q, c) r =
      let (s', e', ran, t) = data_found-IsTaken seg ds s e red q c r in
      (s', e', receive_segment-data k seg ds e (red, same) q ∙ ran, t)

  -- The first segment of the session opens it.
  pub receive_segment-opens :
      (seg : LtpSegment) (e : Engine)
      → IsRedFor k seg
      → Carries block seg
      → lookup k e.sessions ≡ none
      → length e.sessions < e.config.max_concurrent_sessions
      → (s' : LtpSession) × (e' : Engine) × (receive_segment seg e ≡ ok e')
        × IsTaken block k (seg ∷ []) (receiver_session seg) s' e e'
  unfolding data_found data_session
  receive_segment-opens seg e (red, same) (ds, q, c) new room =
      let fresh = receiver_session seg in
      let opened =
        count (λ d. record d { sessions_received = inc64 d.sessions_received })
          (record e { sessions = emplace k fresh e.sessions }) in
      let (s', e', ran, t) =
        accept_data-IsTaken seg ds fresh opened red q c refl refl (new-IsPartOf block seg) in
      let has_room : leb e.config.max_concurrent_sessions (length e.sessions) ≡ false =
        ground arith in
      (
        s',
        e',
        receive_segment-data k seg ds e (red, same) q ∙ rw (new, has_room) ran,
        record { holding = t.holding; covered = t.covered; ended = t.ended; quiet = t.quiet },
      )

  pub IsTaken-cons :
      (seg : LtpSegment) (segs : List LtpSegment) (s s1 s2 : LtpSession) (e e1 e2 : Engine)
      → IsTaken block k (seg ∷ []) s s1 e e1
      → IsTaken block k segs s1 s2 e1 e2
      → IsTaken block k (seg ∷ segs) s s2 e e2
  IsTaken-cons seg segs s s1 s2 e e1 e2 r t = record {
    holding = t.holding;
    covered = λ i h. let now = r.covered i in let then' = t.covered i in ground arith;
    ended = λ h. elim h [
      | inl some_end ↦ elim (Bool-cases (has_eob seg.segment_type)) [
        | inl q ↦ t.ended (inr (r.ended (inl (ground arith))))
        | inr q ↦ t.ended (inl (ground arith))
      ]
      | inr known ↦ t.ended (inr (r.ended (inr known)))
    ];
    quiet = (t.quiet.0 ∙ r.quiet.0, t.quiet.1 ∙ r.quiet.1);
  }

  -- Red segments that all carry pieces of `block` for a session that is held, in any order and any
  -- number, are taken in without a fault.
  pub run-IsTaken :
      (segs : List LtpSegment) (s : LtpSession) (e : Engine)
      → All (IsRedFor k) segs
      → All (Carries block) segs
      → IsHolding block k s e
      → (s' : LtpSession) × (e' : Engine) × (run (map receive segs) e ≡ ok e')
        × IsTaken block k segs s s' e e'
  unfolding run step
  run-IsTaken [] s e red c r = (
    s,
    e,
    refl,
    record {
      holding = r;
      covered = λ i h. h;
      ended = λ h. elim h [ inl q ↦ absurd (ground arith) | inr q ↦ q ];
      quiet = (refl, refl);
    },
  )
  run-IsTaken (seg ∷ segs) s e red c r =
      let (s1, e1, ran, t) = receive_segment-IsTaken seg s e red.0 c.0 r in
      let (s2, e2, ran', t') = run-IsTaken segs s1 e1 red.1 c.1 t.holding in
      (
        s2,
        e2,
        ap (λ m. m >>= run (map receive segs)) ran ∙ ran',
        IsTaken-cons seg segs s s1 s2 e e1 e2 t t',
      )
