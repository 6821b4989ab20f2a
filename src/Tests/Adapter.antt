-- ===== src/Tests/Adapter.antt =====
-- Segments over two connections, the first of which is lost in the second segment, and the delays
-- between the attempts to connect.
use qpsk_b.Base.{ℕ, ◌≤◌, ◌≡◌, refl, true, false, List, [], ◌∷◌, ◌++◌, All, arith, length}
use qpsk_b.Base.Result.{ok}
use qpsk_b.Ltp.Config.{ClaConfig}
use qpsk_b.Ltp.Adapter.{Transmitter, write_frame, run_tx_loop, run_tx, run_rx, reconnect_loop}
use qpsk_b.Ltp.Framing.{frame_message}
use qpsk_b.Ltp.Adapter.Sending.{in_hand}
use qpsk_b.Ltp.Adapter.Transfer.{rx_events, run_rx-run_tx}
use qpsk_b.Ltp.Adapter.Backoff.{doubling, failures, reconnect_loop-doubling}

-- The four bytes of the length, and the bytes.
abbrev first : List ℕ
first = 0 ∷ 0 ∷ 0 ∷ 2 ∷ 8 ∷ 9 ∷ []

abbrev second : List ℕ
second = 0 ∷ 0 ∷ 0 ∷ 1 ∷ 5 ∷ []

abbrev transmitted : Transmitter
transmitted = record {
  tx_queue = (7 ∷ []) ∷ [];
  closed = (first ++ 0 ∷ 0 ∷ []) ∷ [];
  current = second ++ 0 ∷ 0 ∷ 0 ∷ [];
}

abbrev writes : List (List ℕ)
writes = (4 ∷ 2 ∷ []) ∷ (2 ∷ 0 ∷ 5 ∷ []) ∷ (3 ∷ []) ∷ []

-- The third segment is in hand when the thread ends, and the fourth is still queued.
abbrev queued : List (List ℕ)
queued = (8 ∷ 9 ∷ []) ∷ (5 ∷ []) ∷ (6 ∷ []) ∷ (7 ∷ []) ∷ []

abbrev reads : List (List (List ℕ))
reads = ((0 ∷ 0 ∷ 0 ∷ []) ∷ (2 ∷ 8 ∷ 9 ∷ 0 ∷ 0 ∷ []) ∷ []) ∷ []

run_tx-writes :
    transmitted ≡ run_tx writes (record { tx_queue = queued; closed = []; current = [] })
unfolding run_tx run_tx_loop write_frame frame_message
run_tx-writes = refl

run_rx-run_tx_example :
    (sent : List (List ℕ)) × (left : List ℕ) × (run_rx []
        (rx_events reads (transmitted.current ∷ []))
      ≡ ok (sent, left))
    × (queued ≡ sent ++ (in_hand writes queued ++ transmitted.tx_queue))
    × (length (in_hand writes queued) ≤ 1)
run_rx-run_tx_example =
    run_rx-run_tx writes queued transmitted reads (transmitted.current ∷ []) run_tx-writes
      (omega arith, (omega arith, (omega arith, (omega arith, tt)))) (refl, tt) refl

abbrev adapter : ClaConfig
adapter = record {
  tx_addr = "127.0.0.1";
  tx_port = 5000;
  rx_addr = "127.0.0.1";
  rx_port = 5001;
  initial_reconnect_delay_ms = 1000;
  max_reconnect_delay_ms = 3000;
}

reconnect_loop-doubling_example :
    ((reconnect_loop adapter (false ∷ false ∷ false ∷ true ∷ [])).0
      ≡ doubling 3000 (failures (false ∷ false ∷ false ∷ true ∷ [])) 1000)
    × All
        (λ d. (1000 ≤ d) × (d ≤ 3000))
        (reconnect_loop adapter (false ∷ false ∷ false ∷ true ∷ [])).0
reconnect_loop-doubling_example =
    reconnect_loop-doubling adapter (false ∷ false ∷ false ∷ true ∷ []) (omega arith) (omega arith)
