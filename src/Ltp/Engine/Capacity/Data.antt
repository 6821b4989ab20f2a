-- ===== src/Ltp/Engine/Capacity/Data.antt =====
-- The limit on sessions, in the handling of data, acknowledgements and cancellations.
use qpsk_b.Base.{ℕ, ◌≡◌, ◌&&◌, refl, Option, none, some, inl, inr, Bool-cases, leb, arith, length}
use qpsk_b.Base.Assoc.{nat_eq, lookup, length-emplace, lookup-emplace_new}
use qpsk_b.Ltp.Segment.{LtpSegment, DataSegContent}
use qpsk_b.Ltp.Session.{LtpSession, SessionKey, key, session_key_eq}
use qpsk_b.Ltp.Engine.State.{Engine, inc64, timer_key, count, put_session}
use qpsk_b.Ltp.Engine.Send.{send_segment}
use qpsk_b.Ltp.Engine.Report.{is_originator, is_active}
use qpsk_b.Ltp.Engine.Receive.{
  deliver, complete_receiver, report_checkpoint, absorb, receiver_session, accept_data,
  data_session, data_found, receive_data_segment, count_received,
}
use qpsk_b.Ltp.Engine.Frame.{Keeps-if, read-Keeps, Same-refl, SameSessions, Keeps}
use qpsk_b.Ltp.Segment.{get_data, get_rpt_ack, get_cancel}
use qpsk_b.Ltp.SegType.{is_red, is_green, has_eob, has_checkpoint}
use qpsk_b.Ltp.Engine.State.{slice}
use qpsk_b.Ltp.Engine.Report.{generate_report}
use qpsk_b.Ltp.Tracker.{is_complete}
use qpsk_b.Ltp.Engine.Finish.{
  forget_report_timer, stop_report_timer, ack_found, receive_report_ack, cancelled_by_remote,
  receive_cancel_segment, cancel_ack_found, receive_cancel_ack, is_cancelled,
}
use qpsk_b.Ltp.Engine.Capacity.{
  IsWithin, Returns, >>=-Returns, read-Returns, Keeps-Returns, Same-IsWithin, if-Returns,
  send_segment-Returns, erase_session-IsWithin, Holds, put_session-IsWithin, put_session-Holds,
  Holds-Same,
}

deliver-Keeps : (s : LtpSession) (e : Engine) → Keeps e (deliver s e)
unfolding deliver
deliver-Keeps s e =
    Keeps-if e e.callbacks.data_arrival _ _
      (read-Keeps e (slice 0 s.total_data_length s.client_data) _ (λ bytes. Same-refl e))
      (Same-refl e)

complete_receiver-Returns :
    (k : SessionKey) (s : LtpSession) (e : Engine) → IsWithin e → Returns (complete_receiver k s e)
unfolding complete_receiver
complete_receiver-Returns k s e h =
    let counted = count (λ d. record d { sessions_completed = inc64 d.sessions_completed }) e in
    >>=-Returns (deliver s counted) _
      (Keeps-Returns counted (deliver s counted) (deliver-Keeps s counted) h)
      (λ e' h'. erase_session-IsWithin k e' h')

pub generate_report-Returns :
    (k : SessionKey) (s : LtpSession) (c u : ℕ) (e : Engine)
    → Holds k e
    → IsWithin e
    → Returns (generate_report k s c u e)
unfolding generate_report
generate_report-Returns k s c u e q h = send_segment-Returns _ _ (
    put_session-IsWithin k (record s { report_serial_counter = inc64 s.report_serial_counter }) e q
      h)

report_checkpoint-Returns :
    (k : SessionKey) (seg : LtpSegment) (ds : DataSegContent) (s : LtpSession) (o : Option ℕ)
    (e : Engine)
    → Holds k e
    → IsWithin e
    → Returns (report_checkpoint k seg ds s o e)
unfolding report_checkpoint
report_checkpoint-Returns k seg ds s none e q h = h
report_checkpoint-Returns k seg ds s (some c) e q h =
    if-Returns (has_checkpoint seg.segment_type) _ _ (generate_report-Returns k s c _ e q h) h

count_received-Same : (seg : LtpSegment) (e : Engine) → SameSessions e (count_received seg e)
count_received-Same seg e = elim (Bool-cases (is_red seg.segment_type)) [
  | inl q ↦ rw q (Same-refl e)
  | inr q ↦ rw q (Same-refl e)
]

data_session-Returns :
    (k : SessionKey) (seg : LtpSegment) (ds : DataSegContent) (s : LtpSession) (e : Engine)
    → Holds k e
    → IsWithin e
    → Returns (data_session k seg ds s e)
unfolding data_session accept_data
data_session-Returns k seg ds s e q h =
    let e' = count_received seg e in
    let same = count_received-Same seg e in
    if-Returns (is_active s.state) _ _
      (read-Returns (absorb seg ds s) _ (λ s'.
        >>=-Returns (report_checkpoint k seg ds s' ds.checkpoint_serial (put_session k s' e')) _
          (report_checkpoint-Returns k seg ds s' ds.checkpoint_serial (put_session k s' e')
            (put_session-Holds k s' e')
            (put_session-IsWithin k s' e' (Holds-Same k e e' same q) (Same-IsWithin e e' same h)))
          (λ d hd.
            if-Returns (is_green seg.segment_type && has_eob seg.segment_type) _ _
              (complete_receiver-Returns k s' d hd) hd)))
      h

data_found-Returns :
    (k : SessionKey) (seg : LtpSegment) (ds : DataSegContent) (o : Option LtpSession) (e : Engine)
    → lookup k e.sessions ≡ o
    → IsWithin e
    → Returns (data_found k seg ds o e)
unfolding data_found
data_found-Returns k seg ds none e q h =
    let opened = length-emplace k (receiver_session seg) e.sessions in
    elim (Bool-cases (leb e.config.max_concurrent_sessions (length e.sessions))) [
      | inl t ↦ rw t h
      | inr t ↦ rw t (
          data_session-Returns k seg ds (receiver_session seg) _
            (receiver_session seg, lookup-emplace_new k (receiver_session seg) e.sessions q)
            (ground arith))
    ]
data_found-Returns k seg ds (some s) e q h = data_session-Returns k seg ds s e (s, q) h

pub receive_data_segment-Returns :
    (seg : LtpSegment) (e : Engine) → IsWithin e → Returns (receive_data_segment seg e)
unfolding receive_data_segment
receive_data_segment-Returns seg e h =
    read-Returns (get_data seg.content) _
      (λ ds. data_found-Returns (key seg.engine_id seg.session_number) seg ds _ e refl h)

stop_report_timer-Same : (n serial : ℕ) (e : Engine) → SameSessions e (stop_report_timer n serial e)
unfolding stop_report_timer forget_report_timer
stop_report_timer-Same n serial e =
    go (timer_key n serial) (lookup (timer_key n serial) e.report_timers)
  where
    go : (k : ℕ) (o : Option ℕ) → SameSessions e (forget_report_timer k o e)
    go k none = Same-refl e
    go k (some tid) = Same-refl e

ack_found-Returns :
    (seg : LtpSegment) (serial : ℕ) (o : Option LtpSession) (e : Engine)
    → IsWithin e
    → Returns (ack_found seg serial o e)
unfolding ack_found
ack_found-Returns seg serial none e h = h
ack_found-Returns seg serial (some s) e h =
    let e' = stop_report_timer seg.session_number serial e in
    let h' = Same-IsWithin e e' (stop_report_timer-Same seg.session_number serial e) h in
    if-Returns (is_originator s.role) _ _ h (
      if-Returns (is_complete s.reception_tracker s.total_data_length) _ _
        (complete_receiver-Returns (key seg.engine_id seg.session_number) s e' h') h')

pub receive_report_ack-Returns :
    (seg : LtpSegment) (e : Engine) → IsWithin e → Returns (receive_report_ack seg e)
unfolding receive_report_ack
receive_report_ack-Returns seg e h =
    read-Returns (get_rpt_ack seg.content) _ (λ ra. ack_found-Returns seg ra.report_serial _ _ h)

cancelled_by_remote-IsWithin :
    (seg : LtpSegment) (r : ℕ) (o : Option LtpSession) (e : Engine)
    → IsWithin e
    → IsWithin (cancelled_by_remote seg r o e)
unfolding cancelled_by_remote
cancelled_by_remote-IsWithin seg r none e h = h
cancelled_by_remote-IsWithin seg r (some s) e h =
    erase_session-IsWithin (key seg.engine_id seg.session_number) e h

pub receive_cancel_segment-Returns :
    (seg : LtpSegment) (e : Engine) → IsWithin e → Returns (receive_cancel_segment seg e)
unfolding receive_cancel_segment
receive_cancel_segment-Returns seg e h = read-Returns (get_cancel seg.content) _ (λ cc.
    >>=-Returns (send_segment _ _) _ (send_segment-Returns _ _ h)
      (λ e' h'. cancelled_by_remote-IsWithin seg cc.reason_code _ e' h'))

pub receive_cancel_ack-IsWithin :
    (seg : LtpSegment) (e : Engine) → IsWithin e → IsWithin (receive_cancel_ack seg e)
unfolding receive_cancel_ack cancel_ack_found
receive_cancel_ack-IsWithin seg e h = go _ _
  where
    go : (k : SessionKey) (o : Option LtpSession) → IsWithin (cancel_ack_found k o e)
    go k none = h
    go k (some s) = elim (Bool-cases (is_cancelled s.state)) [
      | inl t ↦ rw t (erase_session-IsWithin k e h)
      | inr t ↦ rw t h
    ]
