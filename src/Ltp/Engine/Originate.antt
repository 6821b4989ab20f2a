-- ===== src/Ltp/Engine/Originate.antt =====
-- `segment_data` and `start_session`.
pub mod Chunks
use qpsk_b.Base.{
  ℕ, zero, suc, ◌+◌, ◌-◌, Bool, true, Option, none, some, List, [], ◌∷◌, leb, ◌==◌, if◌then◌else◌,
  length, min,
}
use qpsk_b.Base.Assoc.{emplace, lookup}
use qpsk_b.Base.Result.{Result, ok, err, ◌>>=◌}
use qpsk_b.Ltp.SegType.{red_data, red_data_cp_eorp_eob, green_data, green_data_eob}
use qpsk_b.Ltp.Segment.{DataSegContent, data_seg, LtpSegment, Fault, endless}
use qpsk_b.Ltp.Session.{
  LtpSession, SessionKey, originator, active, new_session, key, session_key_eq,
}
use qpsk_b.Ltp.Engine.State.{Engine, inc64, count, put_session, erase_session, segment, slice}
use qpsk_b.Ltp.Engine.Send.{send_all}

abbrev pub data_content : ℕ → ℕ → Option ℕ → Option ℕ → List ℕ → DataSegContent
data_content offset len checkpoint_serial report_serial bytes = record {
  client_service_id = 1;
  offset = offset;
  length = len;
  checkpoint_serial = checkpoint_serial;
  report_serial = report_serial;
  bytes = bytes;
}

-- The segment of one chunk, and the checkpoint counter after it: the last red segment is a
-- checkpoint and ends the red part and the block, the last green one ends the block.
unfoldable pub chunk_segment : LtpSession → ℕ → ℕ → Bool → List ℕ → ℕ → LtpSegment × ℕ
chunk_segment session offset chunk is_last bytes cp =
    if session.is_red
    then (if is_last
        then (let serial = inc64 cp in
            (
              segment red_data_cp_eorp_eob session.engine_id session.session_number
                  (data_seg (data_content offset chunk (some serial) (some 0) bytes)),
              serial,
            ))
        else (
          segment red_data session.engine_id session.session_number
              (data_seg (data_content offset chunk none none bytes)),
          cp,
        ))
    else (
      segment (if is_last then green_data_eob else green_data) session.engine_id
          session.session_number (data_seg (data_content offset chunk none none bytes)),
      cp,
    )

-- `while (remaining > 0)`. The first argument is fuel.
unfoldable pub segment_loop : ℕ → LtpSession → ℕ → ℕ → ℕ → ℕ → Result Fault (List LtpSegment × ℕ)
segment_loop fuel session max_seg offset zero cp = ok ([], cp)
segment_loop zero session max_seg offset (suc r) cp = err endless
segment_loop (suc fuel) session max_seg offset (suc r) cp =
    let remaining : ℕ = suc r in
    let chunk = min max_seg remaining in
    do
      bytes ← slice offset chunk session.client_data
      let made = chunk_segment session offset chunk (chunk == remaining) bytes cp
      (segs, cp) ← segment_loop fuel session max_seg (offset + chunk) (remaining - chunk) made.1
      ok (made.0 ∷ segs, cp)

-- `segment_data_impl`: the segments, and the checkpoint counter after them. A round of the loop takes
-- a byte at least, unless `max_seg` is 0.
unfoldable pub segment_data_impl : LtpSession → ℕ → ℕ → Result Fault (List LtpSegment × ℕ)
segment_data_impl session max_seg cp =
    let size = length session.client_data in
    if size == 0
    then (let (seg, cp') = chunk_segment session 0 0 true [] cp in ok (seg ∷ [], cp'))
    else segment_loop size session max_seg 0 size cp

-- `segment_data`, which stores the counter in the session.
unfoldable pub segment_data : Engine → LtpSession → Result Fault (List LtpSegment × LtpSession)
segment_data e session = do
  (segs, cp) ← segment_data_impl session e.config.max_segment_size session.checkpoint_serial_counter
  ok (segs, record session { checkpoint_serial_counter = cp })

unfoldable pub segment_data_readonly : Engine → LtpSession → Result Fault (List LtpSegment)
segment_data_readonly e session = do
  (segs, _) ← segment_data_impl session e.config.max_segment_size session.checkpoint_serial_counter
  ok segs

-- `sessions_[key]`.
abbrev pub session_or_new : Option LtpSession → LtpSession
session_or_new none = new_session
session_or_new (some s) = s

abbrev pub originator_session : ℕ → ℕ → List ℕ → Bool → LtpSession
originator_session engine_id sn bytes reliable = record new_session {
  engine_id = engine_id;
  session_number = sn;
  role = originator;
  state = active;
  total_data_length = length bytes;
  is_red = reliable;
  client_data = bytes;
}

-- Segment and send, then forget a green session.
unfoldable pub send_session : SessionKey → Bool → Engine → Result Fault Engine
send_session k reliable e = do
  (segs, session) ← segment_data e (session_or_new (lookup k e.sessions))
  e ← send_all segs (put_session k session e)
  let finished =
      count (λ d. record d { sessions_completed = inc64 d.sessions_completed }) (erase_session k e)
  ok (if reliable then e else finished)

-- The session number, or 0 where the limit is reached, and the engine.
unfoldable pub start_session : List ℕ → Bool → Engine → Result Fault (ℕ × Engine)
start_session bytes reliable e =
    let sn = inc64 e.session_counter in
    let k = key e.config.local_engine_id sn in
    let session = originator_session e.config.local_engine_id sn bytes reliable in
    let started =
      count (λ d. record d { sessions_originated = inc64 d.sessions_originated })
        (record e { session_counter = sn; sessions = emplace k session e.sessions }) in
    if leb e.config.max_concurrent_sessions (length e.sessions)
    then ok (0, e)
    else (do e ← send_session k reliable started; ok (sn, e))
