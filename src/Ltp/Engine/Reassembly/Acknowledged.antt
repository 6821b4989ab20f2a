-- ===== src/Ltp/Engine/Reassembly/Acknowledged.antt =====
-- `receive_segment` on the acknowledgement of a report, for a receiver session.
use qpsk_b.Base.{ℕ, ◌≡◌, refl, ap, ◌∙◌, true, false, some, List, [], ◌∷◌, ◌++◌}
use qpsk_b.Base.Assoc.{nat_eq, lookup, erase}
use qpsk_b.Base.Result.{ok}
use qpsk_b.Ltp.SegType.{report_ack}
use qpsk_b.Ltp.Segment.{LtpSegment, RptAckContent, rpt_ack}
use qpsk_b.Ltp.Session.{LtpSession, SessionKey, receiver, key, session_key_eq}
use qpsk_b.Ltp.Tracker.{is_complete}
use qpsk_b.Ltp.Engine.State.{Engine, delivered, timer_key, count, inc64, slice}
use qpsk_b.Ltp.Engine.Finish.{forget_report_timer, receive_report_ack, ack_found, stop_report_timer}
use qpsk_b.Ltp.Engine.Dispatch.{receive_segment}
use qpsk_b.Ltp.Engine.Limits.{ack_found-delivers, forget_report_timer-Unchanged}
use qpsk_b.Ltp.Engine.Reassembly.Reporting.{deliveries, deliveries-append}

-- The segment acknowledges a report for the session.
abbrev pub IsAckFor : SessionKey → LtpSegment → Type 0
IsAckFor k seg =
    (seg.segment_type ≡ report_ack)
    × (key seg.engine_id seg.session_number ≡ k)
    × (ra : RptAckContent) × (seg.content ≡ rpt_ack ra)

-- The block has been handed over, once and after all others, and the session is forgotten.
abbrev pub IsHandedOver : SessionKey → List ℕ → Engine → Engine → Type 0
IsHandedOver k block e e' =
    (deliveries e'.effects ≡ deliveries e.effects ++ block ∷ [])
    × (e'.sessions ≡ erase k e.sessions)

abbrev acknowledged : Engine → Engine
acknowledged e = count (λ d. record d { report_acks_received = inc64 d.report_acks_received }) e

receive_segment-ack :
    (k : SessionKey) (ack : LtpSegment) (ra : RptAckContent) (s : LtpSession) (e : Engine)
    → ack.segment_type ≡ report_ack
    → key ack.engine_id ack.session_number ≡ k
    → ack.content ≡ rpt_ack ra
    → lookup k e.sessions ≡ some s
    → receive_segment ack e ≡ ack_found ack ra.report_serial (some s) (acknowledged e)
unfolding receive_segment receive_report_ack
receive_segment-ack k ack ra s e t same q found = rw (t, q, same, found) refl

pub ack-delivers :
    (k : SessionKey) (ack : LtpSegment) (s : LtpSession) (block : List ℕ) (e : Engine)
    → IsAckFor k ack
    → lookup k e.sessions ≡ some s
    → s.role ≡ receiver
    → e.callbacks.data_arrival ≡ true
    → is_complete s.reception_tracker s.total_data_length ≡ true
    → slice 0 s.total_data_length s.client_data ≡ ok block
    → (e' : Engine) × (receive_segment ack e ≡ ok e') × IsHandedOver k block e e'
unfolding deliveries
ack-delivers k ack s block e (t, same, ra, q) found r calls whole held =
    let (e', ran, gone, told) =
      ack_found-delivers ack ra.report_serial s block (acknowledged e) r whole held calls in
    (
      e',
      receive_segment-ack k ack ra s e t same q found ∙ ran,
      (
        ap deliveries told ∙ deliveries-append e.effects (delivered block ∷ []),
        gone ∙ ap (λ j. erase j e.sessions) same,
      ),
    )

pub ack-waits :
    (k : SessionKey) (ack : LtpSegment) (s : LtpSession) (e : Engine)
    → IsAckFor k ack
    → lookup k e.sessions ≡ some s
    → s.role ≡ receiver
    → is_complete s.reception_tracker s.total_data_length ≡ false
    → (e' : Engine) × (receive_segment ack e ≡ ok e')
      × (deliveries e'.effects ≡ deliveries e.effects)
unfolding ack_found stop_report_timer
ack-waits k ack s e (t, same, ra, q) found r whole =
    let tk = timer_key ack.session_number ra.report_serial in
    let stopped = forget_report_timer tk (lookup tk e.report_timers) (acknowledged e) in
    let u = forget_report_timer-Unchanged tk (lookup tk e.report_timers) (acknowledged e) in
    (
      stopped,
      receive_segment-ack k ack ra s e t same q found ∙ rw (r, whole) refl,
      ap deliveries u.2,
    )
