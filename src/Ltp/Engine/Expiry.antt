-- ===== src/Ltp/Engine/Expiry.antt =====
-- The checkpoint timer of a session of this side: `handle_timer_expiry`, up to what is sent and told.
pub mod Sending
use qpsk_b.Base.{
  ℕ, ◌+◌, ◌%◌, ◌≤◌, ◌<◌, ◌≡◌, refl, ap, ◌∙◌, ◌⊎◌, true, Option, some, none, List, [], ◌∷◌, ◌++◌,
  inl, inr, Bool-cases, ltb, arith, append_assoc, map, All, append-nil,
}
use qpsk_b.Base.Assoc.{nat_eq, lookup, erase, erase-insert, lookup-insert_self}
use qpsk_b.Base.Result.{ok, ◌>>=◌}
use qpsk_b.Ltp.Segment.{LtpSegment, cancel, DataSegContent, data_seg}
use qpsk_b.Ltp.Session.{LtpSession, SessionKey, key, session_key_eq, originator}
use qpsk_b.Ltp.Engine.State.{
  Engine, emit, erase_session, inc64, count, put_session, segment, sent, session_failure,
}
use qpsk_b.Ltp.Engine.Report.{cancel_session, cancel_found, is_active, is_originator}
use qpsk_b.Ltp.SegType.{cancel_by_sender, is_red, has_checkpoint, is_data}
use qpsk_b.Ltp.Segment.Encoder.{
  encode, encode_content, encode_header, encode_extensions, encode_data,
}
use qpsk_b.Ltp.Engine.Send.{
  send_segment, account, transmit, send_all, time_checkpoint, start_checkpoint_timer,
}
use qpsk_b.Ltp.Timer.{TimerEvent, TimerManager}
use qpsk_b.Ltp.Timer
use qpsk_b.Ltp.Engine.Dispatch.{handle_timer_expiry, expire, checkpoint_expired, resend_block}
use qpsk_b.Ltp.Engine.Limits.{tried}
use mathlib.Core.Path.{subst, sym}
use qpsk_b.Ltp.Engine.Frame.{Keeps, send_all-Keeps}
use qpsk_b.Ltp.Engine.Originate.{segment_data, segment_data_impl}
use qpsk_b.Ltp.Engine.Originate.Chunks.{AreChunks, segment_data_impl-AreChunks}
use qpsk_b.Ltp.Engine.Expiry.Sending.{AreEncoded, IsRedData, send_all-sends}

-- The segment that cancels a session of this side.
abbrev pub cancel_segment : ℕ → ℕ → ℕ → LtpSegment
cancel_segment engine_id session_number reason =
    segment cancel_by_sender engine_id session_number (cancel (record { reason_code = reason }))

-- The other side has been sent the segment `bytes`, the callback has been told of the failure, nothing else
-- has been told, and the session is forgotten.
abbrev pub IsCancelled : SessionKey → ℕ → ℕ → List ℕ → Engine → Engine → Type 0
IsCancelled k session_number reason bytes e e' =
    (e'.effects ≡ e.effects ++ (sent bytes ∷ session_failure session_number reason ∷ []))
    × (e'.sessions ≡ erase k e.sessions)

cancel_session-IsCancelled :
    (engine_id n reason : ℕ) (s : LtpSession) (e : Engine)
    → lookup (key engine_id n) e.sessions ≡ some s
    → s.role ≡ originator
    → e.callbacks.send_segment ≡ true
    → e.callbacks.session_failure ≡ true
    → (bytes : List ℕ) × (e' : Engine) × (encode (cancel_segment engine_id n reason) ≡ ok bytes)
      × (cancel_session engine_id n reason e ≡ ok e')
      × IsCancelled (key engine_id n) n reason bytes e e'
unfolding cancel_session cancel_found send_segment account transmit encode encode_content
cancel_session-IsCancelled engine_id n reason s e found r c f =
    let bytes =
      encode_extensions (encode_header (cancel_segment engine_id n reason) ++ (reason ∷ [])) [] in
    let accounted =
      count (λ d. record d { cancel_segments_sent = inc64 d.cancel_segments_sent }) e in
    let counted =
      count (λ d. record d { sessions_cancelled = inc64 d.sessions_cancelled })
        (emit true (sent bytes) accounted) in
    (
      bytes,
      erase_session (key engine_id n) (emit true (session_failure n reason) counted),
      refl,
      rw (found, r, c, f) refl,
      (append_assoc e.effects (sent bytes ∷ []) (session_failure n reason ∷ []), refl),
    )

AreChunks-IsRedData :
    (s : LtpSession) (max_seg offset : ℕ) (segs : List LtpSegment)
    → s.is_red ≡ true
    → AreChunks s max_seg offset segs
    → All IsRedData segs
AreChunks-IsRedData s max_seg offset [] red c = tt
AreChunks-IsRedData s max_seg offset (seg ∷ segs) red c =
    let (ds, p, rest) = c in
    (
      (p.colour ∙ red, ds, p.content),
      AreChunks-IsRedData s max_seg (offset + ds.length) segs red rest,
    )

-- The whole block has been sent again, as `segment_data` makes its segments, and nothing has been told; the
-- session is held.
pub record IsResent (k : SessionKey) (s : LtpSession) (e e' : Engine) : Type 0 where
  pub made : List LtpSegment × ℕ
  pub wire : List (List ℕ)
  pub segments : segment_data_impl s e.config.max_segment_size s.checkpoint_serial_counter ≡ ok made
  pub encoded : AreEncoded made.0 wire
  pub effects : e'.effects ≡ e.effects ++ map sent wire
  pub held : lookup k e'.sessions ≡ some (record s { checkpoint_serial_counter = made.1 })

resend_block-IsResent :
    (k : SessionKey) (s : LtpSession) (e : Engine)
    → 0 < e.config.max_segment_size
    → s.is_red ≡ true
    → e.callbacks.send_segment ≡ true
    → (e' : Engine) × (resend_block k s e ≡ ok e') × IsResent k s e e'
unfolding resend_block segment_data
resend_block-IsResent k s e m red c =
    let max_seg = e.config.max_segment_size in
    let (made, q, chunks, _) =
      segment_data_impl-AreChunks s max_seg s.checkpoint_serial_counter m in
    let after = record s { checkpoint_serial_counter = made.1 } in
    let stored = put_session k after e in
    let (wire, e', encoded, ran, told) =
      send_all-sends made.0 stored (AreChunks-IsRedData s max_seg 0 made.0 red chunks) c in
    let same = subst (Keeps stored) ran (send_all-Keeps made.0 stored) in
    (
      e',
      rw q ran,
      record {
        made = made;
        wire = wire;
        segments = q;
        encoded = encoded;
        effects = told;
        held = ap (lookup k) same.0 ∙ lookup-insert_self k after e.sessions;
      },
    )

-- The session after one more try, where the count does not wrap.
abbrev pub again : LtpSession → LtpSession
again s = record s { retransmission_count = s.retransmission_count + 1 }

tried-again : (s : LtpSession) → s.retransmission_count < 255 → tried s ≡ again s
tried-again s h =
    let fits : (s.retransmission_count + 1) % 256 ≡ s.retransmission_count + 1 = omega arith in
    ap (λ n. record s { retransmission_count = n }) fits

-- The checkpoint timer expires of an active originator session that is red and has been tried fewer than 255
-- times, with a positive segment size and both callbacks set. Below the limit on retransmissions the segments
-- of the whole block are sent, in their order and nothing else, and the session is held with its count one
-- higher. From the limit on, one segment is sent, which cancels the session with reason 1, the failure is told,
-- once and with the same reason, and the session is forgotten.
pub handle_timer_expiry_lem :
    (event : TimerEvent) (s : LtpSession) (e : Engine)
    → event.type ≡ Timer.checkpoint
    → lookup (key e.config.local_engine_id event.session_number) e.sessions ≡ some s
    → is_active s.state ≡ true
    → s.role ≡ originator
    → s.is_red ≡ true
    → s.engine_id ≡ e.config.local_engine_id
    → s.session_number ≡ event.session_number
    → s.retransmission_count < 255
    → 0 < e.config.max_segment_size
    → e.callbacks.send_segment ≡ true
    → e.callbacks.session_failure ≡ true
    → (e' : Engine) × (handle_timer_expiry event e ≡ ok e')
      × (((s.retransmission_count < e.config.max_retransmissions)
            × IsResent (key e.config.local_engine_id event.session_number) (again s) e e')
          ⊎ ((e.config.max_retransmissions ≤ s.retransmission_count)
              × ((bytes : List ℕ) × (encode
                      (cancel_segment e.config.local_engine_id event.session_number 1)
                    ≡ ok bytes)
                  × IsCancelled
                      (key e.config.local_engine_id event.session_number)
                      event.session_number
                      1
                      bytes
                      e
                      e')))
unfolding handle_timer_expiry expire checkpoint_expired
handle_timer_expiry_lem event s e t found a r red i n small m c f =
    let local = e.config.local_engine_id in
    let k = key local event.session_number in
    let stored = put_session k (tried s) e in
    let originates : is_originator s.role ≡ true = ap is_originator r in
    elim (Bool-cases (ltb e.config.max_retransmissions ((s.retransmission_count + 1) % 256))) [
      | inl at_limit ↦
          let timed_out : handle_timer_expiry event e
              ≡ cancel_session s.engine_id s.session_number 1 stored =
            ap (λ x. expire x event e) t ∙ rw (found, a, originates, at_limit) refl in
          let (bytes, e', wire, ran, (told, gone)) =
            cancel_session-IsCancelled local event.session_number 1 (tried s) stored
              (lookup-insert_self k (tried s) e.sessions) r c f in
          (
            e',
            timed_out
                ∙ ap (λ x. cancel_session x s.session_number 1 stored) i
                ∙ ap (λ x. cancel_session local x 1 stored) n
                ∙ ran,
            inr (ground arith, (bytes, wire, (told, gone ∙ erase-insert k (tried s) e.sessions))),
          )
      | inr below ↦
          let counted =
            count (λ d. record d { retransmissions = inc64 d.retransmissions }) stored in
          let timed_out : handle_timer_expiry event e ≡ resend_block k (tried s) counted =
            ap (λ x. expire x event e) t ∙ rw (found, a, originates, below) refl in
          let (e', ran, resent) = resend_block-IsResent k (tried s) counted m red c in
          let outcome : IsResent k (tried s) e e' = record {
            made = resent.made;
            wire = resent.wire;
            segments = resent.segments;
            encoded = resent.encoded;
            effects = resent.effects;
            held = resent.held;
          } in
          (
            e',
            timed_out ∙ ran,
            inl (ground arith, subst (λ x. IsResent k x e e') (tried-again s small) outcome),
          )
    ]
