-- ===== src/Ltp/Engine/Finish.antt =====
-- `receive_report_ack`, `receive_cancel_segment` and `receive_cancel_ack`.
use mathlib.Core.Option
use qpsk_b.Base.{ℕ, Bool, true, false, Option, none, some, ◌==◌, if◌then◌else◌}
use qpsk_b.Base.Assoc.{lookup, erase, nat_eq}
use qpsk_b.Base.Result.{Result, ok, ◌>>=◌}
use qpsk_b.Ltp.SegType.{cancel_by_sender, cancel_ack_to_sender, cancel_ack_to_receiver}
use qpsk_b.Ltp.Segment.{cancel, LtpSegment, Fault, get_rpt_ack, get_cancel}
use qpsk_b.Ltp.Session.{LtpSession, SessionKey, SessionState, cancelled, key, session_key_eq}
use qpsk_b.Ltp.Timer.{cancel_timer}
use qpsk_b.Ltp.Tracker.{is_complete}
use qpsk_b.Ltp.Engine.State.{
  Engine, session_failure, inc64, count, emit, timer_key, erase_session, segment,
}
use qpsk_b.Ltp.Engine.Send.{send_segment}
use qpsk_b.Ltp.Engine.Report.{is_originator}
use qpsk_b.Ltp.Engine.Receive.{complete_receiver}

-- The timer with this key and identifier is cancelled and forgotten.
unfoldable pub forget_report_timer : ℕ → Option ℕ → Engine → Engine
forget_report_timer k none e = e
forget_report_timer k (some tid) e = record e {
  timer_manager = Option.map (cancel_timer tid) e.timer_manager;
  report_timers = erase k e.report_timers;
}

unfoldable pub stop_report_timer : ℕ → ℕ → Engine → Engine
stop_report_timer session_number serial e =
    let k = timer_key session_number serial in forget_report_timer k (lookup k e.report_timers) e

-- For what `find` gave: a receiver session is complete when it has all its data.
unfoldable pub ack_found : LtpSegment → ℕ → Option LtpSession → Engine → Result Fault Engine
ack_found seg report_serial none e = ok e
ack_found seg report_serial (some session) e =
    let e' = stop_report_timer seg.session_number report_serial e in
    if is_originator session.role
    then ok e
    else if is_complete session.reception_tracker session.total_data_length
    then complete_receiver (key seg.engine_id seg.session_number) session e'
    else ok e'

unfoldable pub receive_report_ack : LtpSegment → Engine → Result Fault Engine
receive_report_ack seg e = do
  let e = count (λ d. record d { report_acks_received = inc64 d.report_acks_received }) e
  ra ← get_rpt_ack seg.content
  ack_found seg ra.report_serial (lookup (key seg.engine_id seg.session_number) e.sessions) e

-- The session that a cancel segment ends, for what `find` gave.
unfoldable pub cancelled_by_remote : LtpSegment → ℕ → Option LtpSession → Engine → Engine
cancelled_by_remote seg reason none e = e
cancelled_by_remote seg reason (some session) e =
    erase_session (key seg.engine_id seg.session_number) (
      emit e.callbacks.session_failure (session_failure session.session_number reason)
        (count (λ d. record d { sessions_cancelled = inc64 d.sessions_cancelled }) e))

unfoldable pub receive_cancel_segment : LtpSegment → Engine → Result Fault Engine
receive_cancel_segment seg e = do
  let e = count (λ d. record d { cancel_segments_received = inc64 d.cancel_segments_received }) e
  cc ← get_cancel seg.content
  let t =
      if seg.segment_type == cancel_by_sender then cancel_ack_to_sender else cancel_ack_to_receiver
  e ←
      send_segment
        (segment t seg.engine_id seg.session_number (cancel (record { reason_code = 0 }))) e
  let found = lookup (key seg.engine_id seg.session_number) e.sessions
  ok (cancelled_by_remote seg cc.reason_code found e)

abbrev pub is_cancelled : SessionState → Bool
is_cancelled cancelled = true
is_cancelled _ = false

-- For what `find` gave.
unfoldable pub cancel_ack_found : SessionKey → Option LtpSession → Engine → Engine
cancel_ack_found k none e = e
cancel_ack_found k (some session) e = if is_cancelled session.state then erase_session k e else e

unfoldable pub receive_cancel_ack : LtpSegment → Engine → Engine
receive_cancel_ack seg e =
    let k = key seg.engine_id seg.session_number in cancel_ack_found k (lookup k e.sessions) e
