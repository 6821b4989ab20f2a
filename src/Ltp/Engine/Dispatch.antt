-- ===== src/Ltp/Engine/Dispatch.antt =====
-- `receive_segment`, `handle_timer_expiry`, and any sequence of calls of the public operations.
use qpsk_b.Base.{
  ℕ, ◌+◌, ◌%◌, Bool, ◌&&◌, ◌||◌, not, Option, none, some, List, [], ◌∷◌, ltb, ◌==◌, if◌then◌else◌,
}
use qpsk_b.Base.Assoc.{lookup}
use qpsk_b.Base.Result.{Result, ok, ◌>>=◌}
use qpsk_b.Ltp.SegType.{
  is_data, report_segment, report_ack, cancel_by_sender, cancel_by_receiver, cancel_ack_to_sender,
  cancel_ack_to_receiver,
}
use qpsk_b.Ltp.Segment.{LtpSegment, Fault}
use qpsk_b.Ltp.Session.{LtpSession, SessionKey, key, session_key_eq}
use qpsk_b.Ltp.Timer.{TimerEvent}
use qpsk_b.Ltp.Timer
use qpsk_b.Ltp.Engine.State.{Engine, inc64, count, put_session}
use qpsk_b.Ltp.Engine.Send.{send_all}
use qpsk_b.Ltp.Engine.Originate.{segment_data, start_session}
use qpsk_b.Ltp.Engine.Report.{
  generate_report, is_originator, is_active, cancel_session, receive_report_segment,
}
use qpsk_b.Ltp.Engine.Receive.{receive_data_segment}
use qpsk_b.Ltp.Engine.Finish.{receive_report_ack, receive_cancel_segment, receive_cancel_ack}

unfoldable pub receive_segment : LtpSegment → Engine → Result Fault Engine
receive_segment seg e =
    let t = seg.segment_type in
    if is_data t
    then receive_data_segment seg e
    else if t == report_segment
    then receive_report_segment seg e
    else if t == report_ack
    then receive_report_ack seg e
    else if t == cancel_by_sender || t == cancel_by_receiver
    then receive_cancel_segment seg e
    else if t == cancel_ack_to_sender || t == cancel_ack_to_receiver
    then ok (receive_cancel_ack seg e)
    else ok e

-- The whole block again, with a new checkpoint.
unfoldable pub resend_block : SessionKey → LtpSession → Engine → Result Fault Engine
resend_block k session e = do
  (segs, session) ← segment_data e session
  send_all segs (put_session k session e)

-- The checkpoint timer of what `find` gave at `k`; the retransmission count is a `uint8_t`.
unfoldable pub checkpoint_expired : SessionKey → Option LtpSession → Engine → Result Fault Engine
checkpoint_expired k none e = ok e
checkpoint_expired k (some session) e =
    let tried = record session {
      retransmission_count = (session.retransmission_count + 1) % 256;
    } in
    let e' = put_session k tried e in
    if is_active session.state && is_originator session.role
    then (if ltb e.config.max_retransmissions tried.retransmission_count
        then cancel_session session.engine_id session.session_number 1 e'
        else resend_block k tried
            (count (λ d. record d { retransmissions = inc64 d.retransmissions }) e'))
    else ok e

unfoldable pub report_expired : SessionKey → ℕ → Option LtpSession → Engine → Result Fault Engine
report_expired k serial none e = ok e
report_expired k serial (some session) e =
    let e' = count (λ d. record d { retransmissions = inc64 d.retransmissions }) e in
    if is_active session.state && not (is_originator session.role)
    then (if ltb 0 session.total_data_length
        then generate_report k session serial session.total_data_length e'
        else ok e')
    else ok e

unfoldable pub expire : Timer.TimerType → TimerEvent → Engine → Result Fault Engine
expire Timer.checkpoint event e =
    let k = key e.config.local_engine_id event.session_number in
    checkpoint_expired k (lookup k e.sessions) e
expire Timer.report_segment event e =
    let k = key event.engine_id event.session_number in
    report_expired k event.serial_number (lookup k e.sessions) e
expire Timer.cancel_segment event e = ok e

unfoldable pub handle_timer_expiry : TimerEvent → Engine → Result Fault Engine
handle_timer_expiry event e = expire event.type event e

-- A call of a public operation.
pub data Call : Type 0 where
  start : List ℕ → Bool → Call
  receive : LtpSegment → Call
  give_up : ℕ → ℕ → ℕ → Call
  timer : TimerEvent → Call

unfoldable pub step : Call → Engine → Result Fault Engine
step (start bytes reliable) e = do (_, e) ← start_session bytes reliable e; ok e
step (receive seg) e = receive_segment seg e
step (give_up engine_id session_number reason) e = cancel_session engine_id session_number reason e
step (timer event) e = handle_timer_expiry event e

unfoldable pub run : List Call → Engine → Result Fault Engine
run [] e = ok e
run (call ∷ calls) e = do e ← step call e; run calls e
