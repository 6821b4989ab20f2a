-- ===== src/Ltp/Engine/Capacity/Run.antt =====
-- The limit on sessions, over any sequence of calls of the public operations.
use mathlib.Core.Path.{subst}
use qpsk_b.Base.{
  ℕ, ◌≡◌, ◌≤◌, ◌&&◌, ◌==◌, ◌+◌, ◌%◌, refl, Bool, true, false, Option, none, some, List, [], ◌∷◌,
  inl, inr, Bool-cases, leb, ltb, if◌then◌else◌, arith, length,
}
use qpsk_b.Base.Assoc.{nat_eq, lookup, emplace, length-emplace, lookup-emplace}
use qpsk_b.Base.Result.{Result, ok, err, ◌>>=◌}
use qpsk_b.Ltp.Segment.{LtpSegment, Fault}
use qpsk_b.Ltp.Session.{LtpSession, SessionKey, key, session_key_eq}
use qpsk_b.Ltp.Engine.State.{Engine, inc64, count, put_session, erase_session}
use qpsk_b.Ltp.Timer.{cancel_timer}
use qpsk_b.Ltp.Engine.Send.{send_all}
use qpsk_b.Ltp.Engine.Report.{is_originator, is_active}
use qpsk_b.Ltp.Engine.Capacity.{
  IsWithin, Returns, >>=-Returns, read-Returns, if-Returns, send_all-Returns,
  erase_session-IsWithin, Holds, put_session-IsWithin, put_session-Holds,
}
use qpsk_b.Base.{not, ◌||◌}
use qpsk_b.Ltp.SegType.{
  is_data, report_segment, report_ack, cancel_by_sender, cancel_by_receiver, cancel_ack_to_sender,
  cancel_ack_to_receiver,
}
use qpsk_b.Ltp.Engine.Originate.{
  segment_data, send_session, start_session, session_or_new, originator_session,
}
use qpsk_b.Ltp.Engine.Dispatch.{
  receive_segment, resend_block, checkpoint_expired, report_expired, expire, handle_timer_expiry,
  Call, start, receive, give_up, timer, step, run,
}
use qpsk_b.Ltp.Timer.{TimerEvent}
use qpsk_b.Ltp.Timer
use qpsk_b.Ltp.Engine.Capacity.Reports.{cancel_session-Returns, receive_report_segment-Returns}
use qpsk_b.Ltp.Engine.Capacity.Data.{
  generate_report-Returns, receive_data_segment-Returns, receive_report_ack-Returns,
  receive_cancel_segment-Returns, receive_cancel_ack-IsWithin,
}

receive_segment-Returns :
    (seg : LtpSegment) (e : Engine) → IsWithin e → Returns (receive_segment seg e)
unfolding receive_segment
receive_segment-Returns seg e h =
    let t = seg.segment_type in
    if-Returns (is_data t) _ _ (receive_data_segment-Returns seg e h) (
      if-Returns (t == report_segment) _ _ (receive_report_segment-Returns seg e h) (
        if-Returns (t == report_ack) _ _ (receive_report_ack-Returns seg e h) (
          if-Returns (t == cancel_by_sender || t == cancel_by_receiver) _ _
            (receive_cancel_segment-Returns seg e h)
            (if-Returns (t == cancel_ack_to_sender || t == cancel_ack_to_receiver) _ _
              (receive_cancel_ack-IsWithin seg e h) h))))

checkpoint_expired-Returns :
    (k : SessionKey) (o : Option LtpSession) (e : Engine)
    → lookup k e.sessions ≡ o
    → IsWithin e
    → Returns (checkpoint_expired k o e)
unfolding checkpoint_expired resend_block
checkpoint_expired-Returns k none e q h = h
checkpoint_expired-Returns k (some s) e q h =
    let tried = record s { retransmission_count = (s.retransmission_count + 1) % 256 } in
    let within = put_session-IsWithin k tried e (s, q) h in
    let counted =
      count (λ d. record d { retransmissions = inc64 d.retransmissions }) (put_session k tried e) in
    if-Returns (is_active s.state && is_originator s.role) _ _
      (if-Returns (ltb e.config.max_retransmissions tried.retransmission_count) _ _
        (cancel_session-Returns s.engine_id s.session_number 1 (put_session k tried e) within)
        (read-Returns (segment_data counted tried) _ (λ made.
          send_all-Returns made.0 _
            (put_session-IsWithin k made.1 counted (put_session-Holds k tried e) within))))
      h

report_expired-Returns :
    (k : SessionKey) (serial : ℕ) (o : Option LtpSession) (e : Engine)
    → lookup k e.sessions ≡ o
    → IsWithin e
    → Returns (report_expired k serial o e)
unfolding report_expired
report_expired-Returns k serial none e q h = h
report_expired-Returns k serial (some s) e q h =
    if-Returns (is_active s.state && not (is_originator s.role)) _ _
      (if-Returns (ltb 0 s.total_data_length) _ _
        (generate_report-Returns k s serial s.total_data_length _ (s, q) h) h)
      h

handle_timer_expiry-Returns :
    (event : TimerEvent) (e : Engine) → IsWithin e → Returns (handle_timer_expiry event e)
unfolding handle_timer_expiry expire
handle_timer_expiry-Returns event e h = go event.type
  where
    go : (t : Timer.TimerType) → Returns (expire t event e)
    go Timer.checkpoint = checkpoint_expired-Returns _ _ e refl h
    go Timer.report_segment = report_expired-Returns _ event.serial_number _ e refl h
    go Timer.cancel_segment = h

send_session-Returns :
    (k : SessionKey) (reliable : Bool) (e : Engine)
    → Holds k e
    → IsWithin e
    → Returns (send_session k reliable e)
unfolding send_session
send_session-Returns k reliable e q h =
    read-Returns (segment_data e (session_or_new (lookup k e.sessions))) _ (λ made.
      >>=-Returns (send_all made.0 (put_session k made.1 e)) _
        (send_all-Returns made.0 _ (put_session-IsWithin k made.1 e q h))
        (λ e' h'. finish reliable e' h'))
  where
    finish :
        (b : Bool) (e' : Engine)
        → IsWithin e'
        → IsWithin (
            if b
            then e'
            else count
                (λ d. record d { sessions_completed = inc64 d.sessions_completed })
                (erase_session k e'))
    finish true e' h' = h'
    finish false e' h' = erase_session-IsWithin k e' h'

start_session-Returns :
    (bytes : List ℕ) (reliable : Bool) (e : Engine)
    → IsWithin e
    → Returns (do (_, e) ← start_session bytes reliable e; ok e)
unfolding start_session
start_session-Returns bytes reliable e h =
    let sn = inc64 e.session_counter in
    let k = key e.config.local_engine_id sn in
    let s = originator_session e.config.local_engine_id sn bytes reliable in
    let started =
      count (λ d. record d { sessions_originated = inc64 d.sessions_originated })
        (record e { session_counter = sn; sessions = emplace k s e.sessions }) in
    let grown = length-emplace k s e.sessions in
    elim (Bool-cases (leb e.config.max_concurrent_sessions (length e.sessions))) [
      | inl t ↦ rw t h
      | inr t ↦ rw t (
          go sn (send_session k reliable started) (
            send_session-Returns k reliable started (lookup-emplace k s e.sessions) (ground arith)))
    ]
  where
    go :
        (sn : ℕ) (m : Result Fault Engine)
        → Returns m
        → Returns (do (_, e) ← (do e ← m; ok (sn, e)); ok e)
    go sn (ok e') w = w
    go sn (err x) w = tt

step-Returns : (call : Call) (e : Engine) → IsWithin e → Returns (step call e)
unfolding step
step-Returns (receive seg) e h = receive_segment-Returns seg e h
step-Returns (give_up i n r) e h = cancel_session-Returns i n r e h
step-Returns (timer event) e h = handle_timer_expiry-Returns event e h
step-Returns (start bytes reliable) e h = start_session-Returns bytes reliable e h

run-Returns : (calls : List Call) (e : Engine) → IsWithin e → Returns (run calls e)
unfolding run
run-Returns [] e h = h
run-Returns (call ∷ calls) e h =
    >>=-Returns (step call e) (run calls) (step-Returns call e h) (run-Returns calls)

-- From an engine with at most `max_concurrent_sessions` sessions, any sequence of calls of
-- `start_session`, `receive_segment`, `cancel_session` and `handle_timer_expiry`, with any segments
-- and events, ends with at most that number of sessions, where it runs to its end.
pub length-run :
    (calls : List Call) (e e' : Engine)
    → length e.sessions ≤ e.config.max_concurrent_sessions
    → run calls e ≡ ok e'
    → length e'.sessions ≤ e'.config.max_concurrent_sessions
length-run calls e e' h q = subst Returns q (run-Returns calls e h)
