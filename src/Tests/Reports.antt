-- ===== src/Tests/Reports.antt =====
-- Reports, acknowledgements and the limits of an engine, on small sessions.
use qpsk_b.Base.{
  ℕ, ◌<◌, ◌⊎◌, ◌≤◌, ◌≡◌, refl, true, false, none, some, List, [], ◌∷◌, ◌++◌, All, arith,
}
use qpsk_b.Base.Assoc.{lookup, insert, emplace, erase}
use qpsk_b.Base.Result.{ok, err}
use qpsk_b.Ltp.Segment.{LtpSegment, ReceptionClaim, data_seg, out_of_bounds}
use qpsk_b.Ltp.SegType.{red_data}
use qpsk_b.Ltp.Session.{LtpSession, key, session_key_eq}
use qpsk_b.Ltp.Tracker.{claim}
use qpsk_b.Ltp.Tracker.Coverage.{covers}
use qpsk_b.Ltp.Engine.State.{
  Engine, LtpEngineConfig, Callbacks, delivered, new_engine, no_diagnostics, slice, segment,
}
use qpsk_b.Ltp.Engine.Send.{send_segment, send_all, account, transmit, time_checkpoint}
use qpsk_b.Ltp.Engine.Originate.{
  data_content, originator_session, start_session, send_session, segment_data, segment_data_impl,
  segment_loop, chunk_segment,
}
use qpsk_b.Ltp.Engine.Report.{gap_loop, gap_segments}
use qpsk_b.Ltp.Engine.Receive.{receiver_session, receive_data_segment, data_found}
use qpsk_b.Ltp.Engine.Finish.{ack_found}
use qpsk_b.Ltp.Engine.Dispatch.{start, receive, step, run, receive_segment, handle_timer_expiry}
use qpsk_b.Ltp.Engine.Reassembly.{Carries, any_touches}
use qpsk_b.Ltp.Engine.Retransmission.{gap_segments-covers, gap_loop-out_of_bounds}
use qpsk_b.Ltp.Timer.{TimerEvent}
use qpsk_b.Ltp.Timer
use qpsk_b.Ltp.Segment.Encoder.{encode}
use qpsk_b.Ltp.Engine.Expiry.{again, cancel_segment, IsResent, IsCancelled, handle_timer_expiry_lem}
use qpsk_b.Ltp.Engine.Limits.{ack_found-premature}
use qpsk_b.Ltp.Engine.Capacity.Run.{length-run}

abbrev block : List ℕ
block = 10 ∷ 20 ∷ 30 ∷ 40 ∷ 50 ∷ []

abbrev sender : LtpSession
sender = originator_session 1 1 block true

abbrev gaps : List ReceptionClaim
gaps = claim 0 1 ∷ claim 2 3 ∷ []

gap_segments-covers_example :
    (segs : List LtpSegment) × (gap_segments sender 2 gaps ≡ ok segs)
    × All (Carries block) segs
    × ((i : ℕ) → any_touches segs i ≡ covers gaps i)
gap_segments-covers_example =
    gap_segments-covers sender 2 gaps (omega arith) (omega arith, (omega arith, tt))

gap_loop-out_of_bounds_example : gap_loop 4 sender 2 3 4 ≡ err out_of_bounds
gap_loop-out_of_bounds_example =
    gap_loop-out_of_bounds 4 sender 2 3 4 (omega arith) (omega arith) (omega arith) (omega arith)

abbrev config : ℕ → LtpEngineConfig
config max_retransmissions = record {
  local_engine_id = 1;
  remote_engine_id = 2;
  max_segment_size = 2;
  retransmission_timeout_ms = 1000;
  max_retransmissions = max_retransmissions;
  max_concurrent_sessions = 1;
}

abbrev callbacks : Callbacks
callbacks = record {
  data_arrival = true;
  session_complete = false;
  session_failure = false;
  send_segment = false;
}

abbrev engine : ℕ → Engine
engine max_retransmissions = new_engine (config max_retransmissions) callbacks none

abbrev often_tried : ℕ → LtpSession
often_tried n = record sender { retransmission_count = n }

-- A session that has been tried twice, where three times are allowed.
abbrev waiting : Engine
waiting = record (engine 3) {
  callbacks = record {
    data_arrival = true;
    session_complete = true;
    session_failure = true;
    send_segment = true;
  };
  sessions = (key 1 1, often_tried 2) ∷ [];
}

waiting_session : lookup (key 1 1) waiting.sessions ≡ some (often_tried 2)
unfolding lookup
waiting_session = refl

abbrev timed_out : TimerEvent
timed_out = record { type = Timer.checkpoint; engine_id = 1; session_number = 1; serial_number = 1 }

handle_timer_expiry_lem_example :
    (e' : Engine) × (handle_timer_expiry timed_out waiting ≡ ok e')
    × (((2 < 3) × IsResent (key 1 1) (again (often_tried 2)) waiting e')
        ⊎ ((3 ≤ 2)
            × ((bytes : List ℕ) × (encode (cancel_segment 1 1 1) ≡ ok bytes)
                × IsCancelled (key 1 1) 1 1 bytes waiting e')))
handle_timer_expiry_lem_example =
    handle_timer_expiry_lem timed_out (often_tried 2) waiting refl waiting_session refl refl refl
      refl refl (omega arith) (omega arith) refl refl

abbrev data_segment : LtpSegment
data_segment = segment red_data 2 7 (data_seg (data_content 0 2 none none (10 ∷ 20 ∷ [])))

abbrev whole : LtpSession
whole = record (receiver_session data_segment) {
  client_data = block;
  total_data_length = 5;
  reception_tracker = claim 0 5 ∷ [];
}

-- The first bytes have arrived, but not the end of the block.
abbrev begun : LtpSession
begun = record (receiver_session data_segment) {
  client_data = 10 ∷ 20 ∷ [];
  reception_tracker = claim 0 2 ∷ [];
}

ack_found-premature_example :
    (e' : Engine) × (ack_found data_segment 1 (some begun) (engine 3) ≡ ok e')
    × (e'.sessions ≡ erase (key 2 7) (engine 3).sessions)
    × (e'.effects ≡ [] ++ delivered [] ∷ [])
ack_found-premature_example = ack_found-premature data_segment 1 begun (engine 3) refl refl refl

-- The second session and the incoming one are refused.
abbrev busy : Engine
busy = record (engine 3) {
  session_counter = 1;
  sessions = (key 1 1, record sender { checkpoint_serial_counter = 1 }) ∷ [];
  diagnostics = record no_diagnostics {
    sessions_originated = 1;
    red_segments_sent = 3;
    checkpoints_sent = 1;
  };
}

busy_after :
    run (start block true ∷ start block true ∷ receive data_segment ∷ []) (engine 3) ≡ ok busy
unfolding run step start_session send_session segment_data segment_data_impl segment_loop
    chunk_segment slice send_all send_segment account transmit time_checkpoint receive_segment
    receive_data_segment data_found lookup insert emplace
busy_after = refl

length-run_example : 1 ≤ 1
length-run_example =
    length-run (start block true ∷ start block true ∷ receive data_segment ∷ []) (engine 3) busy
      (omega arith) busy_after
