-- ===== src/Ltp/Engine/Limits.antt =====
-- The limit on retransmissions, and when a receiver session ends.
use qpsk_b.Base.{
  ℕ, ◌+◌, ◌%◌, ◌≡◌, refl, ap, ◌∙◌, true, false, Option, some, none, List, [], ◌∷◌, ◌++◌, ltb, leb,
  arith, length,
}
use qpsk_b.Base.Assoc.{nat_eq, lookup, erase}
use qpsk_b.Base.Result.{ok}
use qpsk_b.Ltp.Segment.{LtpSegment, ReceptionClaim}
use qpsk_b.Ltp.Session.{LtpSession, SessionKey, receiver, key, session_key_eq}
use qpsk_b.Ltp.Tracker.{is_complete}
use qpsk_b.Ltp.Engine.State.{
  Engine, emit, erase_session, timer_key, delivered, inc64, count, put_session, slice,
}
use qpsk_b.Ltp.Engine.Report.{retransmit_gaps, retransmit_or_cancel}
use qpsk_b.Ltp.Engine.Receive.{deliver, complete_receiver}
use qpsk_b.Ltp.Engine.Finish.{ack_found, stop_report_timer, forget_report_timer}

-- The session after one more try.
abbrev pub tried : LtpSession → LtpSession
tried s = record s { retransmission_count = (s.retransmission_count + 1) % 256 }

-- The engine that retransmits.
abbrev pub counted : SessionKey → LtpSession → Engine → Engine
counted k s e =
    count (λ d. record d { retransmissions = inc64 d.retransmissions }) (put_session k (tried s) e)

-- With a limit of 255, which the count of tries cannot exceed, no session is given up.
retransmit_or_cancel-wraps :
    (k : SessionKey) (s : LtpSession) (gaps : List ReceptionClaim) (e : Engine)
    → e.config.max_retransmissions ≡ 255
    → retransmit_or_cancel k s gaps e ≡ retransmit_gaps k (tried s) gaps (counted k s e)
unfolding retransmit_or_cancel
retransmit_or_cancel-wraps k s gaps e m =
    let t : ltb e.config.max_retransmissions ((s.retransmission_count + 1) % 256) ≡ false =
      ground arith in
    rw t refl

-- The sessions, the callbacks and the effects are as before.
abbrev pub Unchanged : Engine → Engine → Type 0
Unchanged e e' =
    (e'.sessions ≡ e.sessions) × (e'.callbacks ≡ e.callbacks) × (e'.effects ≡ e.effects)

pub forget_report_timer-Unchanged :
    (k : ℕ) (o : Option ℕ) (e : Engine) → Unchanged e (forget_report_timer k o e)
unfolding forget_report_timer
forget_report_timer-Unchanged k none e = (refl, refl, refl)
forget_report_timer-Unchanged k (some tid) e = (refl, refl, refl)

complete_receiver-delivers :
    (k : SessionKey) (s : LtpSession) (block : List ℕ) (e : Engine)
    → e.callbacks.data_arrival ≡ true
    → slice 0 s.total_data_length s.client_data ≡ ok block
    → (e' : Engine) × (complete_receiver k s e ≡ ok e')
      × (e'.sessions ≡ erase k e.sessions)
      × (e'.effects ≡ e.effects ++ delivered block ∷ [])
unfolding complete_receiver deliver
complete_receiver-delivers k s block e c q =
    let counted = count (λ d. record d { sessions_completed = inc64 d.sessions_completed }) e in
    let told = emit true (delivered block) counted in
    (erase_session k told, simp (c, q) refl, refl, refl)

-- A report acknowledgement for a receiver session that is complete, with the callback set: the block
-- that the session holds is handed over, once, and the session is forgotten.
pub ack_found-delivers :
    (seg : LtpSegment) (serial : ℕ) (s : LtpSession) (block : List ℕ) (e : Engine)
    → s.role ≡ receiver
    → is_complete s.reception_tracker s.total_data_length ≡ true
    → slice 0 s.total_data_length s.client_data ≡ ok block
    → e.callbacks.data_arrival ≡ true
    → (e' : Engine) × (ack_found seg serial (some s) e ≡ ok e')
      × (e'.sessions ≡ erase (key seg.engine_id seg.session_number) e.sessions)
      × (e'.effects ≡ e.effects ++ delivered block ∷ [])
unfolding ack_found stop_report_timer
ack_found-delivers seg serial s block e r w q c =
    let k = key seg.engine_id seg.session_number in
    let tk = timer_key seg.session_number serial in
    let stopped = forget_report_timer tk (lookup tk e.report_timers) e in
    let u = forget_report_timer-Unchanged tk (lookup tk e.report_timers) e in
    let (e', run, gone, told) =
      complete_receiver-delivers k s block stopped (ap (λ c. c.data_arrival) u.1 ∙ c) q in
    (e', simp (r, w) run, gone ∙ ap (erase k) u.0, told ∙ ap (λ x. x ++ delivered block ∷ []) u.2)

-- A receiver session that no end of block has reached is taken for complete at the first report
-- acknowledgement, whatever it holds: nothing is handed over, as a block of no bytes, and the session
-- is forgotten.
pub ack_found-premature :
    (seg : LtpSegment) (serial : ℕ) (s : LtpSession) (e : Engine)
    → s.role ≡ receiver
    → s.total_data_length ≡ 0
    → e.callbacks.data_arrival ≡ true
    → (e' : Engine) × (ack_found seg serial (some s) e ≡ ok e')
      × (e'.sessions ≡ erase (key seg.engine_id seg.session_number) e.sessions)
      × (e'.effects ≡ e.effects ++ delivered [] ∷ [])
unfolding is_complete slice
ack_found-premature seg serial s e r z c =
    let fits : leb (0 + 0) (length s.client_data) ≡ true = ground arith in
    ack_found-delivers seg serial s [] e r (simp z refl) (simp (z, fits) refl) c
