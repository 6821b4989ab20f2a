-- ===== src/Ltp/Engine/Expiry/Sending.antt =====
-- `send_segment` on red data: the segments are sent as they are encoded, and nothing else is told.
use qpsk_b.Base.{
  ℕ, ◌≡◌, refl, ap, ◌∙◌, true, Option, some, none, List, [], ◌∷◌, ◌++◌, inl, inr, Bool-cases, arith,
  append_assoc, map, All, append-nil,
}
use qpsk_b.Base.Assoc.{nat_eq}
use qpsk_b.Base.Result.{ok, ◌>>=◌}
use qpsk_b.Ltp.Segment.{LtpSegment, DataSegContent, data_seg}
use qpsk_b.Ltp.Session.{session_key_eq}
use qpsk_b.Ltp.Engine.State.{Engine, emit, inc64, count, sent}
use qpsk_b.Ltp.Segment.Encoder.{
  encode, encode_content, encode_header, encode_extensions, encode_data,
}
use qpsk_b.Ltp.Engine.Send.{
  send_segment, account, transmit, send_all, time_checkpoint, start_checkpoint_timer,
}
use mathlib.Core.Path.{sym}
use qpsk_b.Ltp.SegType.{is_red, has_checkpoint, is_data}
use qpsk_b.Ltp.Timer.{TimerManager}

-- The bytes are the segments as they are encoded.
abbrev pub AreEncoded : List LtpSegment → List (List ℕ) → Type 0
AreEncoded [] [] = Unit
AreEncoded [] (bytes ∷ rest) = ⊥
AreEncoded (seg ∷ segs) [] = ⊥
AreEncoded (seg ∷ segs) (bytes ∷ rest) = (encode seg ≡ ok bytes) × AreEncoded segs rest

abbrev pub IsRedData : LtpSegment → Type 0
IsRedData seg =
    (is_red seg.segment_type ≡ true) × (ds : DataSegContent) × (seg.content ≡ data_seg ds)

-- The callbacks and what has been told are as before.
abbrev IsSilent : Engine → Engine → Type 0
IsSilent e e' = (e'.callbacks ≡ e.callbacks) × (e'.effects ≡ e.effects)

start_checkpoint_timer-IsSilent :
    (seg : LtpSegment) (o : Option ℕ) (tm : TimerManager) (e : Engine)
    → IsSilent e (start_checkpoint_timer seg o tm e)
unfolding start_checkpoint_timer
start_checkpoint_timer-IsSilent seg none tm e = (refl, refl)
start_checkpoint_timer-IsSilent seg (some serial) tm e = (refl, refl)

time_checkpoint-IsSilent :
    (seg : LtpSegment) (ds : DataSegContent) (o : Option TimerManager) (e : Engine)
    → seg.content ≡ data_seg ds
    → (e' : Engine) × (time_checkpoint seg o e ≡ ok e') × IsSilent e e'
unfolding time_checkpoint
time_checkpoint-IsSilent seg ds none e q = (e, refl, (refl, refl))
time_checkpoint-IsSilent seg ds (some tm) e q = (
  start_checkpoint_timer seg ds.checkpoint_serial tm e,
  rw q refl,
  start_checkpoint_timer-IsSilent seg ds.checkpoint_serial tm e,
)

account-IsSilent :
    (seg : LtpSegment) (e : Engine)
    → IsRedData seg
    → (e' : Engine) × (account seg e ≡ ok e') × IsSilent e e'
unfolding account
account-IsSilent seg e (red, ds, q) =
    let sent_one = count (λ d. record d { red_segments_sent = inc64 d.red_segments_sent }) e in
    elim (Bool-cases (has_checkpoint seg.segment_type)) [
      | inl h ↦
          let (e', ran, silent) =
            time_checkpoint-IsSilent seg ds e.timer_manager
              (count (λ d. record d { checkpoints_sent = inc64 d.checkpoints_sent }) sent_one) q in
          (e', rw (h, red) ran, silent)
      | inr h ↦ (sent_one, rw (h, red) refl, (refl, refl))
    ]

encode-data : (seg : LtpSegment) → IsRedData seg → (bytes : List ℕ) × (encode seg ≡ ok bytes)
unfolding encode encode_content
encode-data seg (red, ds, q) =
    let one : is_data seg.segment_type ≡ true = ground arith in
    (
      encode_extensions (encode_data (encode_header seg) seg.segment_type ds)
          seg.trailer_extensions,
      rw (one, q) refl,
    )

send_segment-sends :
    (seg : LtpSegment) (e : Engine)
    → IsRedData seg
    → e.callbacks.send_segment ≡ true
    → (bytes : List ℕ) × (e' : Engine) × (encode seg ≡ ok bytes)
      × (send_segment seg e ≡ ok e')
      × (e'.callbacks ≡ e.callbacks)
      × (e'.effects ≡ e.effects ++ (sent bytes ∷ []))
unfolding send_segment transmit
send_segment-sends seg e r c =
    let (timed, ran, (calls, told)) = account-IsSilent seg e r in
    let (bytes, wire) = encode-data seg r in
    let set : timed.callbacks.send_segment ≡ true = ap (λ x. x.send_segment) calls ∙ c in
    (
      bytes,
      emit true (sent bytes) timed,
      wire,
      ap (λ m. m >>= transmit seg) ran ∙ rw (set, wire) refl,
      calls,
      ap (λ x. x ++ (sent bytes ∷ [])) told,
    )

pub send_all-sends :
    (segs : List LtpSegment) (e : Engine)
    → All IsRedData segs
    → e.callbacks.send_segment ≡ true
    → (wire : List (List ℕ)) × (e' : Engine) × AreEncoded segs wire
      × (send_all segs e ≡ ok e')
      × (e'.effects ≡ e.effects ++ map sent wire)
unfolding send_all
send_all-sends [] e r c = ([], e, tt, refl, sym (append-nil e.effects))
send_all-sends (seg ∷ segs) e r c =
    let (bytes, e1, encoded, ran, calls, told) = send_segment-sends seg e r.0 c in
    let (wire, e2, rest, ran', told') =
      send_all-sends segs e1 r.1 (ap (λ x. x.send_segment) calls ∙ c) in
    (
      bytes ∷ wire,
      e2,
      (encoded, rest),
      ap (λ m. m >>= send_all segs) ran ∙ ran',
      told'
          ∙ ap (λ x. x ++ map sent wire) told
          ∙ append_assoc e.effects (sent bytes ∷ []) (map sent wire),
    )
