-- ===== src/Ltp/Engine/Capacity/Reports.antt =====
-- The limit on sessions, in `cancel_session` and the handling of reports.
use qpsk_b.Base.{ℕ, ◌≡◌, ◌&&◌, ◌+◌, ◌%◌, refl, Option, none, some, List, [], ◌∷◌, ltb}
use qpsk_b.Base.Assoc.{nat_eq, lookup}
use qpsk_b.Base.Result.{Result, ok, err, ◌>>=◌}
use qpsk_b.Ltp.Segment.{get_report, LtpSegment, Fault, ReceptionClaim, ReportSegContent}
use qpsk_b.Ltp.Session.{LtpSession, SessionKey, key, session_key_eq}
use qpsk_b.Ltp.Engine.State.{Engine, timer_key}
use qpsk_b.Ltp.Engine.Send.{send_segment, send_report_ack}
use qpsk_b.Ltp.Engine.Report.{
  cancel_session, cancel_found, retransmit_gaps, gap_segments, next_serial, mark_last, apply_report,
  complete_originator, retransmit_or_cancel, fully_received, fill_gaps, forget_checkpoint_timer,
  compute_gaps, stop_checkpoint_timer, report_found, receive_report_segment, is_originator,
  is_active,
}
use qpsk_b.Ltp.Engine.Frame.{Same-refl, Same-trans, SameSessions, Keeps, send_segment-Keeps}
use qpsk_b.Ltp.Engine.Capacity.{
  IsWithin, Returns, >>=-Returns, read-Returns, Same-IsWithin, if-Returns, send_segment-Returns,
  send_all-Returns, erase_session-IsWithin, Holds, put_session-IsWithin, put_session-Holds,
  Holds-Same,
}

cancel_found-Returns :
    (i n r : ℕ) (o : Option LtpSession) (e : Engine) → IsWithin e → Returns (cancel_found i n r o e)
unfolding cancel_found
cancel_found-Returns i n r none e h = h
cancel_found-Returns i n r (some s) e h =
    >>=-Returns (send_segment _ e) _ (send_segment-Returns _ e h)
      (λ e' h'. erase_session-IsWithin (key i n) e' h')

pub cancel_session-Returns :
    (i n r : ℕ) (e : Engine) → IsWithin e → Returns (cancel_session i n r e)
unfolding cancel_session
cancel_session-Returns i n r e h = cancel_found-Returns i n r (lookup (key i n) e.sessions) e h

retransmit_gaps-Returns :
    (k : SessionKey) (s : LtpSession) (gaps : List ReceptionClaim) (e : Engine)
    → Holds k e
    → IsWithin e
    → Returns (retransmit_gaps k s gaps e)
unfolding retransmit_gaps
retransmit_gaps-Returns k s gaps e q h =
    read-Returns (gap_segments s e.config.max_segment_size gaps) _ (λ segs.
      read-Returns (mark_last (next_serial s segs).checkpoint_serial_counter segs) _
        (λ marked. send_all-Returns marked _ (put_session-IsWithin k (next_serial s segs) e q h)))

fill_gaps-Returns :
    (k : SessionKey) (s : LtpSession) (gaps : List ReceptionClaim) (e : Engine)
    → Holds k e
    → IsWithin e
    → Returns (fill_gaps k s gaps e)
unfolding fill_gaps retransmit_or_cancel
fill_gaps-Returns k s [] e q h = h
fill_gaps-Returns k s (gap ∷ gaps) e q h =
    let tried = record s { retransmission_count = (s.retransmission_count + 1) % 256 } in
    let within = put_session-IsWithin k tried e q h in
    if-Returns (ltb e.config.max_retransmissions tried.retransmission_count) _ _
      (cancel_session-Returns s.engine_id s.session_number 1 _ within)
      (retransmit_gaps-Returns k tried (gap ∷ gaps) _ (put_session-Holds k tried e) within)

apply_report-Returns :
    (k : SessionKey) (s : LtpSession) (rs : ReportSegContent) (e : Engine)
    → Holds k e
    → IsWithin e
    → Returns (apply_report k s rs e)
unfolding apply_report complete_originator
apply_report-Returns k s rs e q h =
    if-Returns (fully_received s rs) _ _ (erase_session-IsWithin k e h)
      (fill_gaps-Returns k s (compute_gaps rs.claims rs.lower_bound rs.upper_bound) e q h)

forget_checkpoint_timer-Same :
    (k : ℕ) (o : Option ℕ) (e : Engine) → SameSessions e (forget_checkpoint_timer k o e)
unfolding forget_checkpoint_timer
forget_checkpoint_timer-Same k none e = Same-refl e
forget_checkpoint_timer-Same k (some tid) e = Same-refl e

report_found-Returns :
    (seg : LtpSegment) (k : SessionKey) (rs : ReportSegContent) (o : Option LtpSession) (e : Engine)
    → lookup k e.sessions ≡ o
    → IsWithin e
    → Returns (report_found seg k rs o e)
unfolding report_found send_report_ack stop_checkpoint_timer
report_found-Returns seg k rs none e q h = send_segment-Returns _ e h
report_found-Returns seg k rs (some s) e q h =
    if-Returns (is_originator s.role && is_active s.state) _ _
      (go (send_segment _ e) (send_segment-Keeps _ e)) h
  where
    go :
        (m : Result Fault Engine)
        → Keeps e m
        → Returns (do
          e ← m
          apply_report k s rs (stop_checkpoint_timer seg.session_number rs.checkpoint_serial e))
    go (ok e') w =
        let tk = timer_key seg.session_number rs.checkpoint_serial in
        let stopped = forget_checkpoint_timer tk (lookup tk e'.checkpoint_timers) e' in
        let same = Same-trans e e' stopped w (forget_checkpoint_timer-Same tk _ e') in
        apply_report-Returns k s rs stopped (Holds-Same k e stopped same (s, q))
          (Same-IsWithin e stopped same h)
    go (err x) w = tt

pub receive_report_segment-Returns :
    (seg : LtpSegment) (e : Engine) → IsWithin e → Returns (receive_report_segment seg e)
unfolding receive_report_segment
receive_report_segment-Returns seg e h =
    read-Returns (get_report seg.content) _ (λ rs.
      report_found-Returns seg (key e.config.local_engine_id seg.session_number) rs _ _ refl h)
