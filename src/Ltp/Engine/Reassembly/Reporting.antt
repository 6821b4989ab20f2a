-- ===== src/Ltp/Engine/Reassembly/Reporting.antt =====
-- What a report on a checkpoint changes: the session's counter of reports, and nothing is handed over.
use qpsk_b.Base.{
  ℕ, ◌≡◌, refl, ap, ◌∙◌, Bool, true, false, Option, none, some, List, [], ◌∷◌, ◌++◌, inl, inr,
  Bool-cases,
}
use qpsk_b.Base.Assoc.{lookup, lookup-insert_self}
use qpsk_b.Base.Result.{ok, ◌>>=◌}
use qpsk_b.Ltp.Segment.{LtpSegment, DataSegContent, ReportSegContent, report_seg}
use qpsk_b.Base.Bits.{add64}
use qpsk_b.Ltp.Segment.Encoder.{
  encode, encode_content, encode_extensions, encode_report, encode_header,
}
use qpsk_b.Ltp.Timer.{TimerManager}
use qpsk_b.Ltp.SegType.{has_checkpoint, report_segment}
use qpsk_b.Ltp.Session.{LtpSession, SessionKey, session_key_eq}
use qpsk_b.Ltp.Engine.State.{
  Engine, Effect, sent, delivered, session_complete, session_failure, put_session, inc64, emit,
  count, segment,
}
use qpsk_b.Ltp.Engine.Send.{send_segment, account, transmit, time_report, start_report_timer}
use qpsk_b.Ltp.Engine.Report.{generate_report}
use qpsk_b.Ltp.Engine.Receive.{report_checkpoint}

-- The blocks that have been handed over, in their order.
unfoldable pub deliveries : List Effect → List (List ℕ)
deliveries [] = []
deliveries (delivered bytes ∷ effects) = bytes ∷ deliveries effects
deliveries (sent bytes ∷ effects) = deliveries effects
deliveries (session_complete n ∷ effects) = deliveries effects
deliveries (session_failure n reason ∷ effects) = deliveries effects

pub deliveries-append :
    (xs ys : List Effect) → deliveries (xs ++ ys) ≡ deliveries xs ++ deliveries ys
unfolding deliveries
deliveries-append [] ys = refl
deliveries-append (delivered bytes ∷ xs) ys = ap (λ l. bytes ∷ l) (deliveries-append xs ys)
deliveries-append (sent bytes ∷ xs) ys = deliveries-append xs ys
deliveries-append (session_complete n ∷ xs) ys = deliveries-append xs ys
deliveries-append (session_failure n reason ∷ xs) ys = deliveries-append xs ys

-- The callbacks are as before, and nothing has been handed over.
abbrev pub IsQuiet : Engine → Engine → Type 0
IsQuiet e e' = (e'.callbacks ≡ e.callbacks) × (deliveries e'.effects ≡ deliveries e.effects)

append_none : (xs : List (List ℕ)) → xs ++ [] ≡ xs
append_none [] = refl
append_none (x ∷ xs) = ap (λ l. x ∷ l) (append_none xs)

emit-IsQuiet :
    (is_set : Bool) (bytes : List ℕ) (e : Engine) → IsQuiet e (emit is_set (sent bytes) e)
unfolding deliveries
emit-IsQuiet true bytes e =
    (refl, deliveries-append e.effects (sent bytes ∷ []) ∙ append_none (deliveries e.effects))
emit-IsQuiet false bytes e = (refl, refl)

-- The same sessions, and quiet.
abbrev IsSending : Engine → Engine → Type 0
IsSending e e' = (e'.sessions ≡ e.sessions) × IsQuiet e e'

module _ (engine_id session_number : ℕ) (rs : ReportSegContent) where
  abbrev report : LtpSegment
  report = segment report_segment engine_id session_number (report_seg rs)

  time_report-IsSending :
      (o : Option TimerManager) (e : Engine)
      → (e' : Engine) × (time_report report o e ≡ ok e') × IsSending e e'
  unfolding time_report start_report_timer
  time_report-IsSending none e = (e, refl, (refl, (refl, refl)))
  time_report-IsSending (some tm) e =
      (start_report_timer report rs.report_serial tm e, refl, (refl, (refl, refl)))

  encode-report :
      encode report ≡ ok (encode_extensions (encode_report (encode_header report) rs) [])
  unfolding encode encode_content
  encode-report = refl

  transmit-IsSending : (e : Engine) → (e' : Engine) × (transmit report e ≡ ok e') × IsSending e e'
  unfolding transmit
  transmit-IsSending e =
      let bytes = encode_extensions (encode_report (encode_header report) rs) [] in
      elim (Bool-cases e.callbacks.send_segment) [
        | inl c ↦ (
          emit true (sent bytes) e,
          rw (c, encode-report) refl,
          (refl, emit-IsQuiet true bytes e),
        )
        | inr c ↦ (e, rw c refl, (refl, (refl, refl)))
      ]

  pub send_segment-report :
      (e : Engine) → (e' : Engine) × (send_segment report e ≡ ok e') × IsSending e e'
  unfolding send_segment account
  send_segment-report e =
      let counted = count (λ d. record d { reports_sent = inc64 d.reports_sent }) e in
      let (timed, q, (same, (calls, told))) = time_report-IsSending e.timer_manager counted in
      let (e', r, (same', (calls', told'))) = transmit-IsSending timed in
      (e', ap (λ m. m >>= transmit report) q ∙ r, (same' ∙ same, (calls' ∙ calls, told' ∙ told)))

-- The session at `k` has the other session's fields but for the count of reports.
pub record IsReported (k : SessionKey) (s : LtpSession) (e e' : Engine) : Type 0 where
  pub counter : ℕ
  pub found : lookup k e'.sessions ≡ some (record s { report_serial_counter = counter })
  pub quiet : IsQuiet e e'

generate_report-IsReported :
    (k : SessionKey) (s : LtpSession) (serial upper : ℕ) (e : Engine)
    → (e' : Engine) × (generate_report k s serial upper e ≡ ok e') × IsReported k s e e'
unfolding generate_report
generate_report-IsReported k s serial upper e =
    let counter = inc64 s.report_serial_counter in
    let s' = record s { report_serial_counter = counter } in
    let rs : ReportSegContent = record {
      report_serial = counter;
      checkpoint_serial = serial;
      upper_bound = upper;
      lower_bound = 0;
      claims = s.reception_tracker;
    } in
    let (e', q, (same, quiet)) =
      send_segment-report s.engine_id s.session_number rs (put_session k s' e) in
    (
      e',
      q,
      record {
        counter = counter;
        found = ap (lookup k) same ∙ lookup-insert_self k s' e.sessions;
        quiet = quiet;
      },
    )

stored-IsReported :
    (k : SessionKey) (s : LtpSession) (e : Engine) → IsReported k s e (put_session k s e)
stored-IsReported k s e = record {
  counter = s.report_serial_counter;
  found = lookup-insert_self k s e.sessions;
  quiet = (refl, refl);
}

-- A session that has been stored, with its report where the segment is a checkpoint.
pub report_checkpoint-IsReported :
    (k : SessionKey) (seg : LtpSegment) (ds : DataSegContent) (s : LtpSession) (o : Option ℕ)
    (e : Engine)
    → (e' : Engine) × (report_checkpoint k seg ds s o (put_session k s e) ≡ ok e')
      × IsReported k s e e'
unfolding report_checkpoint
report_checkpoint-IsReported k seg ds s none e = (put_session k s e, refl, stored-IsReported k s e)
report_checkpoint-IsReported k seg ds s (some serial) e =
    elim (Bool-cases (has_checkpoint seg.segment_type)) [
      | inl h ↦
          let (e', q, r) =
            generate_report-IsReported k s serial (add64 ds.offset ds.length) (put_session k s e) in
          (e', rw h q, record { counter = r.counter; found = r.found; quiet = r.quiet })
      | inr h ↦ (put_session k s e, rw h refl, stored-IsReported k s e)
    ]
