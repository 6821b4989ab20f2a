-- ===== src/Ltp/Engine/Frame.antt =====
-- What sending leaves alone: the sessions, the configuration, the callbacks.
use qpsk_b.Base.{
  ℕ, ◌≡◌, refl, ◌∙◌, Bool, true, false, Option, none, some, List, [], ◌∷◌, ◌==◌, ◌||◌,
  if◌then◌else◌,
}
use qpsk_b.Base.Result.{Result, ok, err, ◌>>=◌}
use qpsk_b.Ltp.SegType.{
  is_red, is_green, has_checkpoint, report_segment, report_ack, cancel_by_sender,
  cancel_by_receiver,
}
use qpsk_b.Ltp.Segment.{LtpSegment, DataSegContent, ReportSegContent, Fault, get_data, get_report}
use qpsk_b.Ltp.Segment.Encoder.{encode}
use qpsk_b.Ltp.Timer.{TimerManager}
use qpsk_b.Ltp.Engine.State.{Engine, sent, emit}
use qpsk_b.Ltp.Engine.Send.{
  start_checkpoint_timer, start_report_timer, time_checkpoint, time_report, account, transmit,
  send_segment, send_all,
}

-- The sessions, the configuration, the callbacks and the session counter.
abbrev pub SameSessions : Engine → Engine → Type 0
SameSessions e e' =
    (e'.sessions ≡ e.sessions)
    × (e'.config ≡ e.config)
    × (e'.callbacks ≡ e.callbacks)
    × (e'.session_counter ≡ e.session_counter)

-- Where the call returns, it returns an engine with the same sessions.
abbrev pub Keeps : Engine → Result Fault Engine → Type 0
Keeps e (ok e') = SameSessions e e'
Keeps e (err x) = Unit

>>=-Keeps :
    (e : Engine) (m : Result Fault Engine) (f : Engine → Result Fault Engine)
    → Keeps e m
    → ((e' : Engine) → SameSessions e e' → Keeps e (f e'))
    → Keeps e (m >>= f)
>>=-Keeps e (ok e') f h k = k e' h
>>=-Keeps e (err x) f h k = tt

pub Same-refl : (e : Engine) → SameSessions e e
Same-refl e = (refl, refl, refl, refl)

pub Same-trans : (a b c : Engine) → SameSessions a b → SameSessions b c → SameSessions a c
Same-trans a b c h k = (k.0 ∙ h.0, k.1 ∙ h.1, k.2 ∙ h.2, k.3 ∙ h.3)

-- A value that the engine does not depend on.
pub read-Keeps {ℓ} :
    {A : Type ℓ} (e : Engine) (m : Result Fault A) (f : A → Result Fault Engine)
    → ((a : A) → Keeps e (f a))
    → Keeps e (m >>= f)
read-Keeps e (ok a) f k = k a
read-Keeps e (err x) f k = tt

pub Same-then : (a b : Engine) (m : Result Fault Engine) → SameSessions a b → Keeps b m → Keeps a m
Same-then a b (ok c) h k = Same-trans a b c h k
Same-then a b (err x) h k = tt

start_checkpoint_timer-Same :
    (seg : LtpSegment) (o : Option ℕ) (tm : TimerManager) (e : Engine)
    → SameSessions e (start_checkpoint_timer seg o tm e)
unfolding start_checkpoint_timer
start_checkpoint_timer-Same seg none tm e = Same-refl e
start_checkpoint_timer-Same seg (some s) tm e = (refl, refl, refl, refl)

time_checkpoint-Keeps :
    (a : Engine) (seg : LtpSegment) (o : Option TimerManager) (e : Engine)
    → SameSessions a e
    → Keeps a (time_checkpoint seg o e)
unfolding time_checkpoint
time_checkpoint-Keeps a seg none e h = h
time_checkpoint-Keeps a seg (some tm) e h = go (get_data seg.content)
  where
    go :
        (r : Result Fault DataSegContent)
        → Keeps a (do ds ← r; ok (start_checkpoint_timer seg ds.checkpoint_serial tm e))
    go (ok ds) =
        Same-trans a e (start_checkpoint_timer seg ds.checkpoint_serial tm e) h
          (start_checkpoint_timer-Same seg ds.checkpoint_serial tm e)
    go (err x) = tt

time_report-Keeps :
    (a : Engine) (seg : LtpSegment) (o : Option TimerManager) (e : Engine)
    → SameSessions a e
    → Keeps a (time_report seg o e)
unfolding time_report start_report_timer
time_report-Keeps a seg none e h = h
time_report-Keeps a seg (some tm) e h = go (get_report seg.content)
  where
    go :
        (r : Result Fault ReportSegContent)
        → Keeps a (do rs ← r; ok (start_report_timer seg rs.report_serial tm e))
    go (ok rs) = h
    go (err x) = tt

pub Keeps-if :
    (e : Engine) (b : Bool) (m n : Result Fault Engine)
    → Keeps e m
    → Keeps e n
    → Keeps e (if b then m else n)
Keeps-if e true m n h k = h
Keeps-if e false m n h k = k

account-Keeps : (seg : LtpSegment) (e : Engine) → Keeps e (account seg e)
unfolding account
account-Keeps seg e =
    Keeps-if e (is_red seg.segment_type) _ _
      (Keeps-if e (has_checkpoint seg.segment_type) _ _
        (time_checkpoint-Keeps e seg e.timer_manager _ (Same-refl e)) (Same-refl e))
      (Keeps-if e (is_green seg.segment_type) _ _ (Same-refl e) (
        Keeps-if e (seg.segment_type == report_segment) _ _
          (time_report-Keeps e seg e.timer_manager _ (Same-refl e))
          (Keeps-if e (seg.segment_type == report_ack) _ _ (Same-refl e) (
            Keeps-if e
              (seg.segment_type == cancel_by_sender || seg.segment_type == cancel_by_receiver) _ _
              (Same-refl e) (Same-refl e)))))

transmit-Keeps : (seg : LtpSegment) (e : Engine) → Keeps e (transmit seg e)
unfolding transmit
transmit-Keeps seg e = Keeps-if e e.callbacks.send_segment _ _ (go (encode seg)) (Same-refl e)
  where
    go :
        (r : Result Fault (List ℕ))
        → Keeps e (do bytes ← r; ok (emit e.callbacks.send_segment (sent bytes) e))
    go (ok bytes) = Same-refl e
    go (err x) = tt

pub send_segment-Keeps : (seg : LtpSegment) (e : Engine) → Keeps e (send_segment seg e)
unfolding send_segment
send_segment-Keeps seg e =
    >>=-Keeps e (account seg e) (transmit seg) (account-Keeps seg e)
      (λ e' h. Same-then e e' (transmit seg e') h (transmit-Keeps seg e'))

pub send_all-Keeps : (segs : List LtpSegment) (e : Engine) → Keeps e (send_all segs e)
unfolding send_all
send_all-Keeps [] e = Same-refl e
send_all-Keeps (seg ∷ segs) e =
    >>=-Keeps e (send_segment seg e) (send_all segs) (send_segment-Keeps seg e)
      (λ e' h. Same-then e e' (send_all segs e') h (send_all-Keeps segs e'))
