-- ===== src/Modem/TcpOutput.antt =====
-- src/tcp_output_server.cpp, and `tcp_output_thread_fn` of src/main.cpp: each payload is sent to every client.
-- What `send` and `accept` return, and what is popped from the queue, are arguments: of `send` the number of
-- bytes that it takes, 0 where it fails, and failure once the list has ended. `sent` is what a client has
-- been sent, `missed` the payloads popped before it was accepted, `popped` those popped so far. The addresses
-- and the ports of clients, which are only logged, are left out.
pub mod Clients
pub mod Broadcast
use qpsk_b.Base.{
  ℕ, zero, suc, Bool, true, false, Option, none, some, List, [], ◌∷◌, ◌++◌, if◌then◌else◌, map,
  length, get_elem?, set, take, drop,
}
use qpsk_b.Base.Bits.{add64}
use qpsk_b.Modem.SetUp.{SetUp, StartError, outcome}

pub record ClientInfo : Type 0 where
  pub fd : ℕ
  pub bytes_sent : ℕ
  pub sent : List ℕ
  pub missed : List (List ℕ)

pub record TcpOutputServer : Type 0 where
  pub listen_fd : Option ℕ
  pub clients : List ClientInfo
  pub closed : List ℕ
  pub popped : List (List ℕ)

unfoldable pub new_server : TcpOutputServer
new_server = record { listen_fd = none; clients = []; closed = []; popped = [] }

-- The error that is thrown, and the server after the call.
unfoldable pub start : SetUp → TcpOutputServer → Option StartError × TcpOutputServer
start u s = let (error, listen_fd) = outcome u in (error, record s { listen_fd = listen_fd })

unfoldable pub stop : TcpOutputServer → TcpOutputServer
stop s = record s {
  listen_fd = none;
  clients = [];
  closed = s.closed ++ map (λ (c : ClientInfo). c.fd) s.clients;
}

-- `accept` gives a descriptor, or there is none to accept.
unfoldable pub poll_once : Option ℕ → TcpOutputServer → TcpOutputServer
poll_once none s = s
poll_once (some client_fd) s = elim s.listen_fd [
  | none ↦ s
  | some fd ↦ record s {
    clients =
        s.clients ++ (record { fd = client_fd; bytes_sent = 0; sent = []; missed = s.popped } ∷ []);
  }
]

-- What the loop of sends to one client has done.
pub record Sent : Type 0 where
  pub is_whole : Bool
  pub client : ClientInfo
  pub results : List ℕ

unfoldable pub send_loop : List ℕ → List ℕ → ClientInfo → Sent
send_loop results [] c = record { is_whole = true; client = c; results = results }
send_loop [] (byte ∷ left) c = record { is_whole = false; client = c; results = [] }
send_loop (zero ∷ results) (byte ∷ left) c = record {
  is_whole = false;
  client = c;
  results = results;
}
send_loop (suc n ∷ results) (byte ∷ left) c = send_loop results (drop n left) (record c {
  bytes_sent = add64 c.bytes_sent (length (byte ∷ take n left));
  sent = c.sent ++ (byte ∷ take n left);
})

abbrev pub erase : List ClientInfo → ℕ → List ClientInfo
erase [] index = []
erase (c ∷ clients) zero = clients
erase (c ∷ clients) (suc index) = c ∷ erase clients index

unfoldable pub remove_client : ℕ → TcpOutputServer → TcpOutputServer
remove_client index s = elim (get_elem? s.clients index) [
  | none ↦ s
  | some c ↦ record s { clients = erase s.clients index; closed = s.closed ++ (c.fd ∷ []) }
]

-- The client at an index has been sent to.
unfoldable pub after_send : ℕ → Sent → TcpOutputServer → TcpOutputServer
after_send index w s =
    let t = record s { clients = set s.clients index w.client } in
    if w.is_whole then t else remove_client index t

-- The loop over the indices below a number, downwards.
unfoldable pub write_below : List ℕ → List ℕ → ℕ → TcpOutputServer → TcpOutputServer × List ℕ
write_below results payload zero s = (s, results)
write_below results payload (suc index) s = elim (get_elem? s.clients index) [
  | none ↦ (s, results)
  | some c ↦
      let w = send_loop results payload c in
      write_below w.results payload index (after_send index w s)
]

-- The results of `send` that are left are returned.
unfoldable pub write_to_all : List ℕ → List ℕ → TcpOutputServer → TcpOutputServer × List ℕ
write_to_all results [] s = (s, results)
write_to_all results (byte ∷ bytes) s = write_below results (byte ∷ bytes) (length s.clients) s

-- The loop that drains the queue, over the payloads popped.
unfoldable pub write_payloads : List ℕ → List (List ℕ) → TcpOutputServer → TcpOutputServer × List ℕ
write_payloads results [] s = (s, results)
write_payloads results (payload ∷ payloads) s =
    let (t, left) =
      write_to_all results payload (record s { popped = s.popped ++ (payload ∷ []) }) in
    write_payloads left payloads t

-- The rounds of the thread: a client that is accepted, and the payloads popped.
unfoldable pub output_rounds :
    List ℕ → List (Option ℕ × List (List ℕ)) → TcpOutputServer → TcpOutputServer × List ℕ
output_rounds results [] s = (s, results)
output_rounds results ((accepted, payloads) ∷ rounds) s =
    let (t, left) = write_payloads results payloads (poll_once accepted s) in
    output_rounds left rounds t
