-- ===== src/Ltp/Engine/Receive.antt =====
-- `receive_data_segment`.
use qpsk_b.Base.{
  ℕ, ◌+◌, ◌-◌, ◌^◌, Option, none, some, List, ◌++◌, leb, ltb, ◌&&◌, if◌then◌else◌, length, take,
  drop, replicate,
}
use qpsk_b.Base.Assoc.{lookup, emplace}
use qpsk_b.Base.Bits.{add64}
use qpsk_b.Base.Result.{Result, ok, err, ◌>>=◌}
use qpsk_b.Ltp.SegType.{is_red, is_green, has_eob, has_checkpoint}
use qpsk_b.Ltp.Segment.{DataSegContent, LtpSegment, Fault, out_of_bounds, length_error, get_data}
use qpsk_b.Ltp.Session.{LtpSession, SessionKey, receiver, active, new_session, key, session_key_eq}
use qpsk_b.Ltp.Tracker.{add_range}
use qpsk_b.Ltp.Engine.State.{
  Engine, delivered, inc64, count, emit, put_session, erase_session, slice,
}
use qpsk_b.Ltp.Engine.Report.{generate_report, is_active}

-- `client_data.resize(n)` where it grows; the new bytes are 0. `max_size()` of a vector of bytes is
-- 2^63 - 1, and below it the allocation is taken to succeed.
unfoldable pub grow : ℕ → List ℕ → Result Fault (List ℕ)
grow n bytes =
    if ltb (length bytes) n
    then (if ltb (2 ^ 63 - 1) n
        then err length_error
        else ok (bytes ++ replicate (n - length bytes) 0))
    else ok bytes

-- `std::copy(src.begin(), src.end(), dst.begin() + offset)`: past the end it is undefined behaviour.
unfoldable pub copy_at : ℕ → List ℕ → List ℕ → Result Fault (List ℕ)
copy_at offset src dst =
    if leb (offset + length src) (length dst)
    then ok (take offset dst ++ (src ++ drop (offset + length src) dst))
    else err out_of_bounds

-- The reassembly buffer with the data of the segment.
unfoldable pub store_data : DataSegContent → List ℕ → Result Fault (List ℕ)
store_data ds buffer = do
  grown ← grow (add64 ds.offset ds.length) buffer
  if ltb 0 ds.length then copy_at ds.offset ds.bytes grown else ok grown

abbrev pub receiver_session : LtpSegment → LtpSession
receiver_session seg = record new_session {
  engine_id = seg.engine_id;
  session_number = seg.session_number;
  role = receiver;
  state = active;
  is_red = is_red seg.segment_type;
}

-- The buffer, the received ranges, and the block length where the segment ends the block.
unfoldable pub absorb : LtpSegment → DataSegContent → LtpSession → Result Fault LtpSession
absorb seg ds session = do
  buffer ← store_data ds session.client_data
  ok (record session {
    client_data = buffer;
    reception_tracker = add_range ds.offset ds.length session.reception_tracker;
    total_data_length =
        if has_eob seg.segment_type then add64 ds.offset ds.length else session.total_data_length;
  })

-- `if (has_checkpoint(…) && ds.checkpoint_serial.has_value()) generate_report(…)`.
unfoldable pub report_checkpoint :
    SessionKey → LtpSegment → DataSegContent → LtpSession → Option ℕ → Engine → Result Fault Engine
report_checkpoint k seg ds session none e = ok e
report_checkpoint k seg ds session (some serial) e =
    if has_checkpoint seg.segment_type
    then generate_report k session serial (add64 ds.offset ds.length) e
    else ok e

-- The block is handed over, trimmed to its length, if there is a callback.
unfoldable pub deliver : LtpSession → Engine → Result Fault Engine
deliver session e =
    if e.callbacks.data_arrival
    then (do
      bytes ← slice 0 session.total_data_length session.client_data
      ok (emit e.callbacks.data_arrival (delivered bytes) e))
    else ok e

unfoldable pub complete_receiver : SessionKey → LtpSession → Engine → Result Fault Engine
complete_receiver k session e = do
  e ← deliver session (count (λ d. record d { sessions_completed = inc64 d.sessions_completed }) e)
  ok (erase_session k e)

abbrev pub count_received : LtpSegment → Engine → Engine
count_received seg e =
    if is_red seg.segment_type
    then count (λ d. record d { red_segments_received = inc64 d.red_segments_received }) e
    else count (λ d. record d { green_segments_received = inc64 d.green_segments_received }) e

-- An active session at `k` and the segment for it.
unfoldable pub accept_data :
    SessionKey → LtpSegment → DataSegContent → LtpSession → Engine → Result Fault Engine
accept_data k seg ds session e = do
  session ← absorb seg ds session
  e ←
      report_checkpoint k seg ds session ds.checkpoint_serial
        (put_session k session (count_received seg e))
  if is_green seg.segment_type && has_eob seg.segment_type
      then complete_receiver k session e
      else ok e

-- The reference that `it->second` is.
unfoldable pub data_session :
    SessionKey → LtpSegment → DataSegContent → LtpSession → Engine → Result Fault Engine
data_session k seg ds session e =
    if is_active session.state then accept_data k seg ds session e else ok e

-- For what `find` gave: a segment of an unknown session opens one, unless the limit is reached.
unfoldable pub data_found :
    SessionKey → LtpSegment → DataSegContent → Option LtpSession → Engine → Result Fault Engine
data_found k seg ds none e =
    let session = receiver_session seg in
    let opened =
      count (λ d. record d { sessions_received = inc64 d.sessions_received })
        (record e { sessions = emplace k session e.sessions }) in
    if leb e.config.max_concurrent_sessions (length e.sessions)
    then ok e
    else data_session k seg ds session opened
data_found k seg ds (some session) e = data_session k seg ds session e

unfoldable pub receive_data_segment : LtpSegment → Engine → Result Fault Engine
receive_data_segment seg e = do
  ds ← get_data seg.content
  let k = key seg.engine_id seg.session_number
  data_found k seg ds (lookup k e.sessions) e
