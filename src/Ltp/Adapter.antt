-- ===== src/Ltp/Adapter.antt =====
-- src/ltp_cla/convergence_layer_adapter.cpp: the segments to send, the thread that writes them to one TCP
-- connection after another, the thread that reads them, and the waiting between attempts to connect.
-- What `write`, `read` and `connect_to` return is an argument: of each `write` the number of bytes that it
-- takes, 0 where it fails, in one list for each segment that is popped; a list ends where `running_` is
-- cleared. `closed` and `current` are the bytes
-- that have been written on each connection.
pub mod Backoff
pub mod Streams
pub mod Sending
pub mod Transfer
use qpsk_b.Base.{
  ℕ, zero, suc, ◌+◌, ◌*◌, ◌%◌, ◌^◌, min, Bool, true, false, List, [], ◌∷◌, ◌++◌, if◌then◌else◌,
  take, drop,
}
use qpsk_b.Base.Result.{Result, ok, err, ◌>>=◌}
use qpsk_b.Ltp.Segment.{Fault}
use qpsk_b.Ltp.Config.{ClaConfig}
use qpsk_b.Ltp.Framing.{frame_message, on_bytes}

-- The transmitting half.
pub record Transmitter : Type 0 where
  pub tx_queue : List (List ℕ)
  pub closed : List (List ℕ)
  pub current : List ℕ

unfoldable pub new_transmitter : Transmitter
new_transmitter = record { tx_queue = []; closed = []; current = [] }

unfoldable pub send_segment : List ℕ → Transmitter → Transmitter
send_segment encoded_segment t = record t { tx_queue = t.tx_queue ++ (encoded_segment ∷ []) }

-- What the writes of one segment have come to.
pub record Written : Type 0 where
  pub is_whole : Bool
  pub closed : List (List ℕ)
  pub current : List ℕ

-- After a failure the connection is closed, and the frame is written again on the next, from its
-- beginning.
unfoldable pub write_frame : List ℕ → List ℕ → List ℕ → List (List ℕ) → List ℕ → Written
write_frame results framed [] closed current = record {
  is_whole = true;
  closed = closed;
  current = current;
}
write_frame [] framed (byte ∷ left) closed current = record {
  is_whole = false;
  closed = closed;
  current = current;
}
write_frame (zero ∷ results) framed (byte ∷ left) closed current =
    write_frame results framed framed (closed ++ (current ∷ [])) []
write_frame (suc n ∷ results) framed (byte ∷ left) closed current =
    write_frame results framed (drop n left) closed (current ++ (byte ∷ take n left))

-- The loop of `run_tx` over the queue. A segment is popped before it is written: where the thread ends
-- inside its frame it has left the queue.
unfoldable pub run_tx_loop : List (List ℕ) → List (List ℕ) → List (List ℕ) → List ℕ → Transmitter
run_tx_loop writes [] closed current = record { tx_queue = []; closed = closed; current = current }
run_tx_loop [] (segment ∷ queue) closed current = record {
  tx_queue = segment ∷ queue;
  closed = closed;
  current = current;
}
run_tx_loop (results ∷ writes) (segment ∷ queue) closed current =
    let framed = frame_message segment in
    let w = write_frame results framed framed closed current in
    let rest = run_tx_loop writes queue w.closed w.current in
    if w.is_whole then rest else record { tx_queue = queue; closed = w.closed; current = w.current }

unfoldable pub run_tx : List (List ℕ) → Transmitter → Transmitter
run_tx writes t = run_tx_loop writes t.tx_queue t.closed t.current

-- What the receiving thread meets: bytes, or the loss of the connection and a new one.
pub data RxEvent : Type 0 where
  received : List ℕ → RxEvent
  lost : RxEvent

-- The segments handed to `on_segment_received_`, and the buffer.
unfoldable pub run_rx : List ℕ → List RxEvent → Result Fault (List (List ℕ) × List ℕ)
run_rx buffer [] = ok ([], buffer)
run_rx buffer (received read_buf ∷ events) = do
  (msgs, left) ← on_bytes buffer read_buf
  (more, last) ← run_rx left events
  ok (msgs ++ more, last)
run_rx buffer (lost ∷ events) = run_rx [] events

-- The delays of `reconnect_loop` with the outcomes of `connect_to`, and whether it has connected.
unfoldable pub reconnect_from : ℕ → ℕ → List Bool → List ℕ × Bool
reconnect_from max_delay delay_ms [] = ([], false)
reconnect_from max_delay delay_ms (true ∷ attempts) = ([], true)
reconnect_from max_delay delay_ms (false ∷ attempts) =
    let rest = reconnect_from max_delay (min (delay_ms * 2 % 2 ^ 32) max_delay) attempts in
    (delay_ms ∷ rest.0, rest.1)

unfoldable pub reconnect_loop : ClaConfig → List Bool → List ℕ × Bool
reconnect_loop config attempts =
    reconnect_from config.max_reconnect_delay_ms config.initial_reconnect_delay_ms attempts
