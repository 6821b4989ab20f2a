-- ===== src/Modem/TcpInput.antt =====
-- src/tcp_input_server.cpp: the one client, its bytes, and their cutting into frames. What `poll`, `accept`
-- and `recv` return are arguments. `accepted`, `closed` and `received` are what has been accepted, closed
-- and read, of which descriptor. The address and the port of the client are only logged and are left out.
pub mod Serving
use qpsk_b.Base.{
  ℕ, Bool, true, false, Option, none, some, List, [], ◌∷◌, ◌++◌, ltb, leb, if◌then◌else◌, length,
  take, drop,
}
use qpsk_b.Base.Bits.{add64}
use qpsk_b.Modem.SetUp.{SetUp, StartError, outcome}

pub record TcpInputServer : Type 0 where
  pub frame_size : ℕ
  pub listen_fd : Option ℕ
  pub client_fd : Option ℕ
  pub client_bytes_received : ℕ
  pub buffer : List ℕ
  pub accepted : List ℕ
  pub closed : List ℕ
  pub received : List (ℕ × List ℕ)

unfoldable pub new_server : ℕ → TcpInputServer
new_server frame_size = record {
  frame_size = frame_size;
  listen_fd = none;
  client_fd = none;
  client_bytes_received = 0;
  buffer = [];
  accepted = [];
  closed = [];
  received = [];
}

-- The error that is thrown, and the server after the call.
unfoldable pub start : SetUp → TcpInputServer → Option StartError × TcpInputServer
start u s = let (error, listen_fd) = outcome u in (error, record s { listen_fd = listen_fd })

unfoldable pub disconnect_client : TcpInputServer → TcpInputServer
disconnect_client s = elim s.client_fd [
  | none ↦ s
  | some fd ↦ record s {
    client_fd = none;
    client_bytes_received = 0;
    closed = s.closed ++ (fd ∷ []);
  }
]

unfoldable pub stop : TcpInputServer → TcpInputServer
stop s = record (disconnect_client s) { listen_fd = none; buffer = [] }

-- A client that is connected is closed and replaced.
unfoldable pub accept_client : ℕ → TcpInputServer → TcpInputServer
accept_client new_fd s = elim s.client_fd [
  | none ↦ record s {
    client_fd = some new_fd;
    client_bytes_received = 0;
    accepted = s.accepted ++ (new_fd ∷ []);
  }
  | some fd ↦ record s {
    client_fd = some new_fd;
    client_bytes_received = 0;
    accepted = s.accepted ++ (new_fd ∷ []);
    closed = s.closed ++ (fd ∷ []);
  }
]

-- The result of `recv` on the client's descriptor, empty where it is not positive.
unfoldable pub receive : List ℕ → TcpInputServer → TcpInputServer
receive [] s = disconnect_client s
receive (byte ∷ bytes) s = elim s.client_fd [
  | none ↦ s
  | some fd ↦ record s {
    buffer = s.buffer ++ (byte ∷ bytes);
    client_bytes_received = add64 s.client_bytes_received (length (byte ∷ bytes));
    received = s.received ++ ((fd, byte ∷ bytes) ∷ []);
  }
]

-- `poll` fails or times out; or it reports: a client to accept, for which `accept` gives a descriptor, and
-- the client to read, for which `recv` gives bytes.
pub data Polled : Type 0 where
  quiet : Polled
  ready : Option ℕ → Option (List ℕ) → Polled

unfoldable pub connected : TcpInputServer → Bool
connected s = elim s.client_fd [ none ↦ false | some fd ↦ true ]

unfoldable pub accept_ready : Option ℕ → TcpInputServer → TcpInputServer
accept_ready none s = s
accept_ready (some new_fd) s = accept_client new_fd s

unfoldable pub read_ready : Option (List ℕ) → TcpInputServer → TcpInputServer
read_ready none s = s
read_ready (some bytes) s = receive bytes s

-- The client is read where one was connected before the call, even when it has just been replaced.
unfoldable pub serve_clients : Option ℕ → Option (List ℕ) → TcpInputServer → TcpInputServer
serve_clients new_fd bytes s =
    let t = accept_ready new_fd s in if connected s then read_ready bytes t else t

unfoldable pub poll_once : Polled → TcpInputServer → TcpInputServer
poll_once quiet s = s
poll_once (ready new_fd bytes) s = elim s.listen_fd [
  | none ↦ s
  | some fd ↦ serve_clients new_fd bytes s
]

unfoldable pub has_frame : TcpInputServer → Bool
has_frame s = leb s.frame_size (length s.buffer)

unfoldable pub read_frame : TcpInputServer → List ℕ × TcpInputServer
read_frame s =
    if ltb (length s.buffer) s.frame_size
    then ([], s)
    else (take s.frame_size s.buffer, record s { buffer = drop s.frame_size s.buffer })

unfoldable pub flush : TcpInputServer → List ℕ × TcpInputServer
flush s = (s.buffer, record s { buffer = [] })

unfoldable pub buffered_bytes : TcpInputServer → ℕ
buffered_bytes s = length s.buffer
