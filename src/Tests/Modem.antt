-- ===== src/Tests/Modem.antt =====
-- The threads of the modem: two clients of the input server, one after the other, samples for the receiver,
-- and clients of the output server.
use qpsk_b.Base.{
  ℕ, ◌<◌, ◌≡◌, refl, true, Option, none, some, List, [], ◌∷◌, ◌++◌, length, joined, replicate, All,
  map, arith,
}
use qpsk_b.Base.Result.{ok, Returns}
use qpsk_b.Modem.SetUp.{listening, outcome}
use qpsk_b.Modem.TcpInput.{quiet, ready}
use qpsk_b.Modem.TcpInput
use qpsk_b.Modem.TcpInput.Serving.{current, bytes_of}
use qpsk_b.Modem.InputThread.{InputThread, Round, input_round, input_rounds}
use qpsk_b.Modem.InputThread
use qpsk_b.Modem.InputThread.Feeding.{chunks, IsChunk, input_rounds-feeds}
use qpsk_b.Modem.InputThread.Idle.{silence, quiet_rounds-send_all}
use qpsk_b.Modem.RxThread.{RxThread, failed, batch, append_samples, rx_round, rx_rounds}
use qpsk_b.Modem.RxThread
use qpsk_b.Modem.RxThread.Window.{IsWindow, rx_rounds-IsWindow, rx_rounds-whole_burst}
use qpsk_b.Modem.TcpOutput.{output_rounds}
use qpsk_b.Modem.TcpOutput
use qpsk_b.Modem.TcpOutput.Clients.{IsServed}
use qpsk_b.Modem.TcpOutput.Broadcast.{payloads_of, output_rounds-IsServed}
use qpsk_b.Tests.Link.{low, nought, high, ideal}
use qpsk_b.Tests.Receiver.{still, radio}

abbrev polled : TcpInput.Polled → Round
polled p = record { polled = p; frame_time = 5; now = 9 }

-- A client sends five bytes, and is replaced by a second one, which is read at once. The queue has room once.
abbrev rounds : List Round
rounds =
    polled (ready (some 7) none)
    ∷ polled (ready none (some (1 ∷ 2 ∷ 3 ∷ 4 ∷ 5 ∷ [])))
    ∷ polled (ready (some 8) (some (6 ∷ [])))
    ∷ []

abbrev fed : InputThread
fed =
    input_rounds rounds (
      InputThread.new_thread (true ∷ []) 0 (TcpInput.start (listening 3) (TcpInput.new_server 2)).1)

input_rounds-feeds_example :
    (bytes_of fed.server.received ≡ joined (chunks fed) ++ fed.server.buffer)
    × All (IsChunk 2) (chunks fed)
    × (length fed.server.buffer < 2)
    × (fed.server.accepted ≡ fed.server.closed ++ current fed.server.client_fd)
input_rounds-feeds_example =
    input_rounds-feeds 2 0 (listening 3) (true ∷ []) rounds fed (omega arith) refl

abbrev short_rounds : List Round
short_rounds = polled (ready (some 7) none) ∷ polled (ready none (some (1 ∷ 2 ∷ 3 ∷ []))) ∷ []

abbrev begun : InputThread
begun =
    input_rounds short_rounds
      (InputThread.new_thread [] 0 (TcpInput.start (listening 3) (TcpInput.new_server 4)).1)

-- The server is polled every 50 ms.
abbrev waited : InputThread
waited = input_rounds (map silence (10 ∷ 50000010 ∷ 100000010 ∷ 150000010 ∷ [])) begun

noted : begun.last_data_time ≡ 9
unfolding input_rounds input_round InputThread.flush_idle InputThread.flush_disconnected
    InputThread.send_frames InputThread.new_thread TcpInput.buffered_bytes TcpInput.has_frame
    TcpInput.poll_once TcpInput.start TcpInput.serve_clients TcpInput.connected TcpInput.new_server
    TcpInput.accept_ready TcpInput.accept_client TcpInput.read_ready TcpInput.receive
    TcpInput.read_frame InputThread.offer outcome
noted = refl

quiet_rounds-send_all_example : bytes_of waited.server.received ≡ joined (chunks waited)
quiet_rounds-send_all_example =
    quiet_rounds-send_all 4 0 10 150000010 (50000010 ∷ 100000010 ∷ []) (listening 3) [] short_rounds
      begun waited (omega arith) refl (omega (arith, noted)) (omega arith) refl

rx_rounds-IsWindow_example : Returns (IsWindow ideal still) (
    rx_rounds ideal still
      (batch (replicate 16384 (low, nought)) ∷ failed ∷ [])
      (RxThread.new_thread ideal still radio))
rx_rounds-IsWindow_example =
    rx_rounds-IsWindow ideal still (batch (replicate 16384 (low, nought)) ∷ failed ∷ []) radio

abbrev filled : RxThread ideal still
filled = record {
  decoder = radio;
  rx_buffer = (low, nought) ∷ (high, nought) ∷ (low, nought) ∷ [];
  samples_since_last_decode = 3;
  heard = (low, nought) ∷ (high, nought) ∷ (low, nought) ∷ [];
  offered = [];
}

listened :
    rx_rounds ideal still
      (batch ((low, nought) ∷ (high, nought) ∷ []) ∷ failed ∷ batch ((low, nought) ∷ []) ∷ [])
      (RxThread.new_thread ideal still radio)
    ≡ ok filled
unfolding rx_rounds rx_round append_samples RxThread.new_thread
listened = refl

rx_rounds-whole_burst_example :
    (older : List (ideal.Sample)) × (filled.rx_buffer
      ≡ older ++ (((high, nought) ∷ []) ++ ((low, nought) ∷ [])))
rx_rounds-whole_burst_example =
    rx_rounds-whole_burst ideal still
      (batch ((low, nought) ∷ (high, nought) ∷ []) ∷ failed ∷ batch ((low, nought) ∷ []) ∷ []) radio
      filled ((low, nought) ∷ []) ((high, nought) ∷ []) ((low, nought) ∷ []) listened refl
      (omega arith) (omega arith)

-- The second client fails in the second payload.
abbrev served : List (Option ℕ × List (List ℕ))
served = (some 7, []) ∷ (some 8, (1 ∷ 2 ∷ []) ∷ []) ∷ (none, (3 ∷ []) ∷ [] ∷ []) ∷ []

output_rounds-IsServed_example :
    All
      (IsServed (payloads_of served))
      (output_rounds
        (2 ∷ 1 ∷ 1 ∷ 0 ∷ 1 ∷ [])
        served
        (TcpOutput.start (listening 3) TcpOutput.new_server).1).0.clients
output_rounds-IsServed_example =
    output_rounds-IsServed (listening 3) (2 ∷ 1 ∷ 1 ∷ 0 ∷ 1 ∷ []) served
