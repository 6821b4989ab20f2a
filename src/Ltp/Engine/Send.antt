-- ===== src/Ltp/Engine/Send.antt =====
-- `send_segment`, and the segments that have their own function.
use qpsk_b.Base.{ℕ, ◌||◌, Option, none, some, List, [], ◌∷◌, ◌==◌, if◌then◌else◌}
use qpsk_b.Base.Assoc.{insert, nat_eq}
use qpsk_b.Base.Result.{Result, ok, ◌>>=◌}
use qpsk_b.Ltp.SegType.{
  is_red, is_green, has_checkpoint, report_segment, report_ack, cancel_by_sender,
  cancel_by_receiver,
}
use qpsk_b.Ltp.Segment.{LtpSegment, Fault, rpt_ack, get_data, get_report}
use qpsk_b.Ltp.Segment.Encoder.{encode}
use qpsk_b.Ltp.Timer.{TimerEvent, TimerManager, start_timer}
use qpsk_b.Ltp.Timer
use qpsk_b.Ltp.Engine.State.{Engine, sent, inc64, count, emit, timer_key, segment}

-- The event of a retransmission timer.
abbrev pub timer_event : Timer.TimerType → LtpSegment → ℕ → TimerEvent
timer_event type seg serial = record {
  type = type;
  engine_id = seg.engine_id;
  session_number = seg.session_number;
  serial_number = serial;
}

unfoldable pub start_checkpoint_timer : LtpSegment → Option ℕ → TimerManager → Engine → Engine
start_checkpoint_timer seg none tm e = e
start_checkpoint_timer seg (some serial) tm e =
    let (tid, tm') =
      start_timer e.config.retransmission_timeout_ms (timer_event Timer.checkpoint seg serial) tm in
    record e {
      timer_manager = some tm';
      checkpoint_timers = insert (timer_key seg.session_number serial) tid e.checkpoint_timers;
    }

unfoldable pub start_report_timer : LtpSegment → ℕ → TimerManager → Engine → Engine
start_report_timer seg serial tm e =
    let (tid, tm') =
      start_timer e.config.retransmission_timeout_ms (timer_event Timer.report_segment seg serial)
        tm in
    record e {
      timer_manager = some tm';
      report_timers = insert (timer_key seg.session_number serial) tid e.report_timers;
    }

-- `if (timer_manager_) { … }` in the branch of a checkpoint.
unfoldable pub time_checkpoint : LtpSegment → Option TimerManager → Engine → Result Fault Engine
time_checkpoint seg none e = ok e
time_checkpoint seg (some tm) e = do
  ds ← get_data seg.content
  ok (start_checkpoint_timer seg ds.checkpoint_serial tm e)

-- The same in the branch of a report.
unfoldable pub time_report : LtpSegment → Option TimerManager → Engine → Result Fault Engine
time_report seg none e = ok e
time_report seg (some tm) e = do
  rs ← get_report seg.content
  ok (start_report_timer seg rs.report_serial tm e)

-- The counters and the timers, by the type of the segment.
unfoldable pub account : LtpSegment → Engine → Result Fault Engine
account seg e =
    let t = seg.segment_type in
    if is_red t
    then (let e' = count (λ d. record d { red_segments_sent = inc64 d.red_segments_sent }) e in
        if has_checkpoint t
        then time_checkpoint seg e.timer_manager
            (count (λ d. record d { checkpoints_sent = inc64 d.checkpoints_sent }) e')
        else ok e')
    else if is_green t
    then ok (count (λ d. record d { green_segments_sent = inc64 d.green_segments_sent }) e)
    else if t == report_segment
    then time_report seg e.timer_manager
        (count (λ d. record d { reports_sent = inc64 d.reports_sent }) e)
    else if t == report_ack
    then ok (count (λ d. record d { report_acks_sent = inc64 d.report_acks_sent }) e)
    else if t == cancel_by_sender || t == cancel_by_receiver
    then ok (count (λ d. record d { cancel_segments_sent = inc64 d.cancel_segments_sent }) e)
    else ok e

-- `if (on_send_segment_) on_send_segment_(seg.encode())`.
unfoldable pub transmit : LtpSegment → Engine → Result Fault Engine
transmit seg e =
    if e.callbacks.send_segment
    then (do bytes ← encode seg; ok (emit e.callbacks.send_segment (sent bytes) e))
    else ok e

unfoldable pub send_segment : LtpSegment → Engine → Result Fault Engine
send_segment seg e = do e ← account seg e; transmit seg e

-- `for (const auto& seg : segments) send_segment(seg)`.
unfoldable pub send_all : List LtpSegment → Engine → Result Fault Engine
send_all [] e = ok e
send_all (seg ∷ segs) e = do e ← send_segment seg e; send_all segs e

unfoldable pub send_report_ack : ℕ → ℕ → ℕ → Engine → Result Fault Engine
send_report_ack engine_id session_number report_serial e =
    let content = rpt_ack (record { report_serial = report_serial }) in
    send_segment (segment report_ack engine_id session_number content) e
