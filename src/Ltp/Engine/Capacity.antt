-- ===== src/Ltp/Engine/Capacity.antt =====
-- The limit on concurrent sessions, over every public operation of `LtpEngine`.
pub mod Reports
pub mod Data
pub mod Run
use mathlib.Core.Option
use qpsk_b.Base.{
  ℕ, ◌≡◌, ◌≤◌, ◌&&◌, ◌==◌, ◌+◌, ◌%◌, refl, ap, ◌∙◌, sym, Bool, true, false, Option, none, some,
  List, [], ◌∷◌, inl, inr, Bool-cases, Option-cases, leb, ltb, if◌then◌else◌, arith, length,
}
use qpsk_b.Base.Assoc.{
  nat_eq, lookup, insert, emplace, erase, length-insert, length-emplace, length-erase,
  lookup-emplace_new, lookup-insert_self,
}
use qpsk_b.Base.Result.{Result, ok, err, ◌>>=◌}
use qpsk_b.Ltp.Segment.{
  get_report, LtpSegment, Fault, ReceptionClaim, ReportSegContent, DataSegContent,
}
use qpsk_b.Ltp.Session.{LtpSession, SessionKey, key, session_key_eq}
use qpsk_b.Ltp.Engine.State.{
  Engine, inc64, timer_key, LtpDiagnostics, Effect, count, emit, put_session, erase_session,
}
use qpsk_b.Ltp.Timer.{cancel_timer}
use qpsk_b.Ltp.Engine.Send.{send_segment, send_all, send_report_ack}
use qpsk_b.Ltp.Engine.Report.{
  cancel_session, cancel_found, retransmit_gaps, gap_segments, next_serial, mark_last, apply_report,
  complete_originator, retransmit_or_cancel, fully_received, fill_gaps, forget_checkpoint_timer,
  compute_gaps, stop_checkpoint_timer, report_found, receive_report_segment, is_originator,
  is_active,
}
use qpsk_b.Ltp.Engine.Frame.{
  Same-refl, Same-trans, SameSessions, Keeps, send_segment-Keeps, send_all-Keeps,
}

-- The engine holds no more sessions than its configuration allows.
abbrev pub IsWithin : Engine → Type 0
IsWithin e = length e.sessions ≤ e.config.max_concurrent_sessions

-- Where the call returns, it returns an engine within its limit.
abbrev pub Returns : Result Fault Engine → Type 0
Returns (ok e) = IsWithin e
Returns (err x) = Unit

pub >>=-Returns :
    (m : Result Fault Engine) (f : Engine → Result Fault Engine)
    → Returns m
    → ((e : Engine) → IsWithin e → Returns (f e))
    → Returns (m >>= f)
>>=-Returns (ok e) f h k = k e h
>>=-Returns (err x) f h k = tt

pub Same-IsWithin : (e e' : Engine) → SameSessions e e' → IsWithin e → IsWithin e'
Same-IsWithin e e' s h = rw (s.0, s.1) h

pub Keeps-Returns : (e : Engine) (m : Result Fault Engine) → Keeps e m → IsWithin e → Returns m
Keeps-Returns e (ok e') s h = Same-IsWithin e e' s h
Keeps-Returns e (err x) s h = tt

pub if-Returns :
    (b : Bool) (m n : Result Fault Engine) → Returns m → Returns n → Returns (if b then m else n)
if-Returns true m n h k = h
if-Returns false m n h k = k

pub send_segment-Returns :
    (seg : LtpSegment) (e : Engine) → IsWithin e → Returns (send_segment seg e)
send_segment-Returns seg e = Keeps-Returns e (send_segment seg e) (send_segment-Keeps seg e)

pub send_all-Returns :
    (segs : List LtpSegment) (e : Engine) → IsWithin e → Returns (send_all segs e)
send_all-Returns segs e = Keeps-Returns e (send_all segs e) (send_all-Keeps segs e)

pub erase_session-IsWithin :
    (k : SessionKey) (e : Engine) → IsWithin e → IsWithin (erase_session k e)
erase_session-IsWithin k e h = omega (arith, length-erase k e.sessions)

-- A value that the engine does not depend on.
pub read-Returns {ℓ} :
    {A : Type ℓ} (m : Result Fault A) (f : A → Result Fault Engine)
    → ((a : A) → Returns (f a))
    → Returns (m >>= f)
read-Returns (ok a) f k = k a
read-Returns (err x) f k = tt

-- The session at `k` is in the map.
abbrev pub Holds : SessionKey → Engine → Type 0
Holds k e = (t : LtpSession) × (lookup k e.sessions ≡ some t)

pub put_session-IsWithin :
    (k : SessionKey) (s : LtpSession) (e : Engine)
    → Holds k e
    → IsWithin e
    → IsWithin (put_session k s e)
put_session-IsWithin k s e q h = omega (arith, length-insert k s q.0 e.sessions q.1)

pub put_session-Holds : (k : SessionKey) (s : LtpSession) (e : Engine) → Holds k (put_session k s e)
put_session-Holds k s e = (s, lookup-insert_self k s e.sessions)

pub Holds-Same : (k : SessionKey) (e e' : Engine) → SameSessions e e' → Holds k e → Holds k e'
Holds-Same k e e' s q = (q.0, ap (lookup k) s.0 ∙ q.1)
