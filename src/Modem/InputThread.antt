-- ===== src/Modem/InputThread.antt =====
-- src/main.cpp: `tcp_input_thread_fn`, which cuts the bytes of the client into chunks for the queue of the
-- transmitter. `offered` are the chunks it calls `try_push` with, and what each call returns: `results`,
-- false once they have ended. The clock counts nanoseconds and is read once for the frames of a round and
-- once after them.
pub mod Feeding
pub mod Idle
use qpsk_b.Base.{
  ℕ, zero, suc, ◌+◌, ◌-◌, ◌/◌, Bool, true, false, not, ◌&&◌, List, [], ◌∷◌, ◌++◌, ltb, ◌==◌,
  if◌then◌else◌, length,
}
use qpsk_b.Modem.TcpInput.{
  TcpInputServer, Polled, poll_once, has_frame, read_frame, flush, connected, buffered_bytes,
}

pub record InputThread : Type 0 where
  pub server : TcpInputServer
  pub offered : List (List ℕ × Bool)
  pub results : List Bool
  pub was_connected : Bool
  pub last_data_time : ℕ
  pub last_buffered : ℕ

unfoldable pub new_thread : List Bool → ℕ → TcpInputServer → InputThread
new_thread results now server = record {
  server = server;
  offered = [];
  results = results;
  was_connected = false;
  last_data_time = now;
  last_buffered = 0;
}

unfoldable pub next_result : List Bool → Bool × List Bool
next_result [] = (false, [])
next_result (pushed ∷ results) = (pushed, results)

unfoldable pub offer : List ℕ → InputThread → InputThread
offer chunk t =
    let (pushed, results) = next_result t.results in
    record t { offered = t.offered ++ ((chunk, pushed) ∷ []); results = results }

-- `if (!data.empty()) try_push(data)`.
unfoldable pub offer_data : List ℕ → InputThread → InputThread
offer_data [] t = t
offer_data (byte ∷ bytes) t = offer (byte ∷ bytes) t

-- The loop over the complete frames; the fuel bounds their number.
unfoldable pub send_frames : ℕ → ℕ → InputThread → InputThread
send_frames zero now t = t
send_frames (suc fuel) now t =
    let (frame_data, server) = read_frame t.server in
    let rest = send_frames fuel now (record (offer frame_data (record t { server = server })) {
      last_data_time = now;
      last_buffered = 0;
    }) in
    if has_frame t.server
    then if length frame_data == 0 then record t { server = server } else rest
    else t

unfoldable pub flush_disconnected : InputThread → InputThread
flush_disconnected t =
    let (leftover, server) = flush t.server in
    if t.was_connected && not (connected t.server)
    then offer_data leftover (record t { server = server })
    else t

unfoldable pub flush_idle : ℕ → InputThread → InputThread
flush_idle now t =
    let current_buffered = buffered_bytes t.server in
    let idle_ms = (now - t.last_data_time) / 1000000 in
    let (leftover, server) = flush t.server in
    if ltb 0 current_buffered && (current_buffered == t.last_buffered)
    then if ltb 100 idle_ms
      then record (offer_data leftover (record t { server = server })) { last_buffered = 0 }
      else t
    else if not (current_buffered == t.last_buffered)
    then record t { last_data_time = now; last_buffered = current_buffered }
    else t

pub record Round : Type 0 where
  pub polled : Polled
  pub frame_time : ℕ
  pub now : ℕ

-- The body of the outer loop.
unfoldable pub input_round : Round → InputThread → InputThread
input_round r t =
    let t = record t { server = poll_once r.polled t.server } in
    let t = send_frames (suc (buffered_bytes t.server)) r.frame_time t in
    let t = flush_idle r.now (flush_disconnected t) in
    record t { was_connected = connected t.server }

unfoldable pub input_rounds : List Round → InputThread → InputThread
input_rounds [] t = t
input_rounds (r ∷ rounds) t = input_rounds rounds (input_round r t)
