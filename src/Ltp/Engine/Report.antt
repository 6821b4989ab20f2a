-- ===== src/Ltp/Engine/Report.antt =====
-- Reports and selective retransmission: `generate_report`, `compute_gaps`, `retransmit_gaps`, and the
-- end of a session by `cancel_session`.
use mathlib.Core.Option
use qpsk_b.Base.{
  ℕ, zero, suc, ◌+◌, ◌-◌, ◌%◌, Bool, true, false, Option, none, some, List, [], ◌∷◌, ◌++◌, ltb,
  ◌==◌, ◌&&◌, if◌then◌else◌, min,
}
use qpsk_b.Base.Assoc.{lookup, erase, nat_eq}
use qpsk_b.Base.Result.{Result, ok, err, ◌>>=◌}
use qpsk_b.Ltp.SegType.{red_data, red_data_cp, report_segment, cancel_by_sender, cancel_by_receiver}
use qpsk_b.Ltp.Segment.{
  ReceptionClaim, ReportSegContent, data_seg, report_seg, cancel, LtpSegment, Fault, endless,
  get_data, get_report,
}
use qpsk_b.Ltp.Session.{
  LtpSession, SessionKey, SessionRole, originator, receiver, SessionState, active, key,
  session_key_eq,
}
use qpsk_b.Ltp.Timer.{cancel_timer}
use qpsk_b.Ltp.Tracker.{gaps_from, is_whole}
use qpsk_b.Ltp.Engine.State.{
  Engine, session_complete, session_failure, inc64, count, emit, timer_key, put_session,
  erase_session, segment, slice,
}
use qpsk_b.Ltp.Engine.Send.{send_segment, send_all, send_report_ack}
use qpsk_b.Ltp.Engine.Originate.{data_content}

-- `generate_report` for the session at `k`, whose report counter it moves on.
unfoldable pub generate_report : SessionKey → LtpSession → ℕ → ℕ → Engine → Result Fault Engine
generate_report k session checkpoint_serial upper_bound e =
    let serial = inc64 session.report_serial_counter in
    let rs : ReportSegContent = record {
      report_serial = serial;
      checkpoint_serial = checkpoint_serial;
      upper_bound = upper_bound;
      lower_bound = 0;
      claims = session.reception_tracker;
    } in
    send_segment (segment report_segment session.engine_id session.session_number (report_seg rs))
      (put_session k (record session { report_serial_counter = serial }) e)

-- The loop is that of `get_gaps`, over the claims of a report.
unfoldable pub compute_gaps : List ReceptionClaim → ℕ → ℕ → List ReceptionClaim
compute_gaps claims lower upper = gaps_from lower upper claims

-- The chunks of one gap. The first argument is fuel.
unfoldable pub gap_loop : ℕ → LtpSession → ℕ → ℕ → ℕ → Result Fault (List LtpSegment)
gap_loop fuel session max_seg offset zero = ok []
gap_loop zero session max_seg offset (suc r) = err endless
gap_loop (suc fuel) session max_seg offset (suc r) =
    let remaining : ℕ = suc r in
    let chunk = min max_seg remaining in
    do
      bytes ← slice offset chunk session.client_data
      segs ← gap_loop fuel session max_seg (offset + chunk) (remaining - chunk)
      ok (
          segment red_data session.engine_id session.session_number
            (data_seg (data_content offset chunk none none bytes))
          ∷ segs)

unfoldable pub gap_segments : LtpSession → ℕ → List ReceptionClaim → Result Fault (List LtpSegment)
gap_segments session max_seg [] = ok []
gap_segments session max_seg (gap ∷ gaps) = do
  segs ← gap_loop gap.length session max_seg gap.offset gap.length
  more ← gap_segments session max_seg gaps
  ok (segs ++ more)

-- The last segment becomes a checkpoint with this serial number.
unfoldable pub mark_last : ℕ → List LtpSegment → Result Fault (List LtpSegment)
mark_last serial [] = ok []
mark_last serial (last ∷ []) = do
  ds ← get_data last.content
  let marked = record ds { checkpoint_serial = some serial; report_serial = some 0 }
  ok (record last { segment_type = red_data_cp; content = data_seg marked } ∷ [])
mark_last serial (seg ∷ next ∷ segs) = do more ← mark_last serial (next ∷ segs); ok (seg ∷ more)

-- `++session.checkpoint_serial_counter`, where there is a segment to mark.
unfoldable pub next_serial : LtpSession → List LtpSegment → LtpSession
next_serial session [] = session
next_serial session (seg ∷ segs) = record session {
  checkpoint_serial_counter = inc64 session.checkpoint_serial_counter;
}

unfoldable pub retransmit_gaps :
    SessionKey → LtpSession → List ReceptionClaim → Engine → Result Fault Engine
retransmit_gaps k session gaps e = do
  segs ← gap_segments session e.config.max_segment_size gaps
  let session' = next_serial session segs
  marked ← mark_last session'.checkpoint_serial_counter segs
  send_all marked (put_session k session' e)

abbrev pub is_originator : SessionRole → Bool
is_originator originator = true
is_originator receiver = false

abbrev pub is_active : SessionState → Bool
is_active active = true
is_active _ = false

-- The rest of `cancel_session`, for what `find` gave.
unfoldable pub cancel_found : ℕ → ℕ → ℕ → Option LtpSession → Engine → Result Fault Engine
cancel_found engine_id session_number reason none e = ok e
cancel_found engine_id session_number reason (some session) e = do
  let t = if is_originator session.role then cancel_by_sender else cancel_by_receiver
  e ← send_segment (segment t engine_id session_number (cancel (record { reason_code = reason }))) e
  let counted = count (λ d. record d { sessions_cancelled = inc64 d.sessions_cancelled }) e
  let told = emit e.callbacks.session_failure (session_failure session_number reason) counted
  ok (erase_session (key engine_id session_number) told)

unfoldable pub cancel_session : ℕ → ℕ → ℕ → Engine → Result Fault Engine
cancel_session engine_id session_number reason e =
    cancel_found engine_id session_number reason (lookup (key engine_id session_number) e.sessions)
      e

-- The timer with this key and identifier is cancelled and forgotten.
unfoldable pub forget_checkpoint_timer : ℕ → Option ℕ → Engine → Engine
forget_checkpoint_timer k none e = e
forget_checkpoint_timer k (some tid) e = record e {
  timer_manager = Option.map (cancel_timer tid) e.timer_manager;
  checkpoint_timers = erase k e.checkpoint_timers;
}

unfoldable pub stop_checkpoint_timer : ℕ → ℕ → Engine → Engine
stop_checkpoint_timer session_number serial e =
    let k = timer_key session_number serial in
    forget_checkpoint_timer k (lookup k e.checkpoint_timers) e

-- `fully_received`.
unfoldable pub fully_received : LtpSession → ReportSegContent → Bool
fully_received session rs =
    if session.total_data_length == 0 then true else is_whole rs.claims session.total_data_length

unfoldable pub complete_originator : SessionKey → LtpSession → Engine → Engine
complete_originator k session e = erase_session k (
    emit e.callbacks.session_complete (session_complete session.session_number)
      (count (λ d. record d { sessions_completed = inc64 d.sessions_completed }) e))

-- From `retransmission_count++`, a `uint8_t`, on.
unfoldable pub retransmit_or_cancel :
    SessionKey → LtpSession → List ReceptionClaim → Engine → Result Fault Engine
retransmit_or_cancel k session gaps e =
    let tried = record session {
      retransmission_count = (session.retransmission_count + 1) % 256;
    } in
    let e' = put_session k tried e in
    if ltb e.config.max_retransmissions tried.retransmission_count
    then cancel_session session.engine_id session.session_number 1 e'
    else retransmit_gaps k tried gaps
        (count (λ d. record d { retransmissions = inc64 d.retransmissions }) e')

-- The gaps of the report, where the block is not received in full.
unfoldable pub fill_gaps :
    SessionKey → LtpSession → List ReceptionClaim → Engine → Result Fault Engine
fill_gaps k session [] e = ok e
fill_gaps k session (gap ∷ gaps) e = retransmit_or_cancel k session (gap ∷ gaps) e

-- An active originator session at `k` and the report `rs` on it.
unfoldable pub apply_report :
    SessionKey → LtpSession → ReportSegContent → Engine → Result Fault Engine
apply_report k session rs e =
    if fully_received session rs
    then ok (complete_originator k session e)
    else fill_gaps k session (compute_gaps rs.claims rs.lower_bound rs.upper_bound) e

-- For what `find` gave.
unfoldable pub report_found :
    LtpSegment → SessionKey → ReportSegContent → Option LtpSession → Engine → Result Fault Engine
report_found seg k rs none e = send_report_ack seg.engine_id seg.session_number rs.report_serial e
report_found seg k rs (some session) e =
    if is_originator session.role && is_active session.state
    then (do
      e ← send_report_ack seg.engine_id seg.session_number rs.report_serial e
      apply_report k session rs (stop_checkpoint_timer seg.session_number rs.checkpoint_serial e))
    else ok e

unfoldable pub receive_report_segment : LtpSegment → Engine → Result Fault Engine
receive_report_segment seg e = do
  let e = count (λ d. record d { reports_received = inc64 d.reports_received }) e
  rs ← get_report seg.content
  let k = key e.config.local_engine_id seg.session_number
  report_found seg k rs (lookup k e.sessions) e
