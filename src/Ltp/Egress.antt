-- ===== src/Ltp/Egress.antt =====
-- src/ltp_cla/tcp_egress.cpp: delivered blocks for the clients that are connected, and the buffer for
-- the time when none is. What `write` returns is an argument: the number of bytes that each call takes,
-- 0 for a result that is not positive, and failure once the list has ended. `log` is what has been
-- written, to which descriptor. The set-up and the closing of sockets are not modelled.
pub mod Invariant
pub mod Writes
use qpsk_b.Base.{
  ℕ, zero, suc, ◌+◌, Bool, true, false, List, [], ◌∷◌, ◌++◌, ltb, ◌==◌, if◌then◌else◌, length, take,
  drop,
}
use qpsk_b.Base.Bits.{add64, sub64}
use qpsk_b.Ltp.Framing.{frame_message}

pub record TcpEgress : Type 0 where
  pub max_buffer_bytes : ℕ
  pub client_fds : List ℕ
  pub buffer : List (List ℕ)
  pub buffer_bytes : ℕ
  pub log : List (ℕ × List ℕ)

unfoldable pub new_egress : ℕ → TcpEgress
new_egress max_buffer_bytes = record {
  max_buffer_bytes = max_buffer_bytes;
  client_fds = [];
  buffer = [];
  buffer_bytes = 0;
  log = [];
}

-- What the loop of writes to one client has done.
pub record Written : Type 0 where
  pub is_whole : Bool
  pub sent : List ℕ
  pub results : List ℕ

unfoldable pub write_loop : List ℕ → List ℕ → Written
write_loop results [] = record { is_whole = true; sent = []; results = results }
write_loop [] (byte ∷ left) = record { is_whole = false; sent = []; results = [] }
write_loop (zero ∷ results) (byte ∷ left) = record {
  is_whole = false;
  sent = [];
  results = results;
}
write_loop (suc n ∷ results) (byte ∷ left) =
    let rest = write_loop results (drop n left) in
    record rest { sent = byte ∷ take n left ++ rest.sent }

-- What the loop over the clients has done.
pub record Broadcast : Type 0 where
  pub written : List (ℕ × List ℕ)
  pub dead_fds : List ℕ
  pub unused : List ℕ

unfoldable pub write_each : List ℕ → List ℕ → List ℕ → Broadcast
write_each results [] framed = record { written = []; dead_fds = []; unused = results }
write_each results (fd ∷ fds) framed =
    let w = write_loop results framed in
    let rest = write_each w.results fds framed in
    record {
      written = (fd, w.sent) ∷ rest.written;
      dead_fds = if w.is_whole then rest.dead_fds else fd ∷ rest.dead_fds;
      unused = rest.unused;
    }

-- `client_fds_.erase(std::remove(…))`.
unfoldable pub remove : ℕ → List ℕ → List ℕ
remove fd [] = []
remove fd (other ∷ fds) = let rest = remove fd fds in if other == fd then rest else other ∷ rest

unfoldable pub remove_all : List ℕ → List ℕ → List ℕ
remove_all [] fds = fds
remove_all (fd ∷ dead_fds) fds = remove_all dead_fds (remove fd fds)

-- The results of `write` that are left are returned.
unfoldable pub write_to_clients : List ℕ → List ℕ → TcpEgress → TcpEgress × List ℕ
write_to_clients results framed e =
    let b = write_each results e.client_fds framed in
    (
      record e { client_fds = remove_all b.dead_fds e.client_fds; log = e.log ++ b.written },
      b.unused,
    )

-- The oldest blocks are discarded while the new one does not fit.
unfoldable pub discard_loop : ℕ → ℕ → List (List ℕ) → ℕ → List (List ℕ) × ℕ
discard_loop max_buffer_bytes framed_size [] buffer_bytes = ([], buffer_bytes)
discard_loop max_buffer_bytes framed_size (block ∷ buffer) buffer_bytes =
    let rest =
      discard_loop max_buffer_bytes framed_size buffer (sub64 buffer_bytes (length block)) in
    if ltb max_buffer_bytes (add64 buffer_bytes framed_size)
    then rest
    else (block ∷ buffer, buffer_bytes)

-- No client is connected.
unfoldable pub store : List ℕ → TcpEgress → TcpEgress
store framed e =
    let (buffer, buffer_bytes) =
      discard_loop e.max_buffer_bytes (length framed) e.buffer e.buffer_bytes in
    record e { buffer = buffer ++ (framed ∷ []); buffer_bytes = add64 buffer_bytes (length framed) }

unfoldable pub is_empty : List ℕ → Bool
is_empty [] = true
is_empty (fd ∷ fds) = false

unfoldable pub deliver : List ℕ → List ℕ → TcpEgress → TcpEgress
deliver results bytes e =
    if is_empty e.client_fds
    then store (frame_message bytes) e
    else (write_to_clients results (frame_message bytes) e).0

-- The loop of `flush_buffer_to_clients`, over the blocks that are buffered.
unfoldable pub flush_loop : List ℕ → List (List ℕ) → TcpEgress → TcpEgress
flush_loop results [] e = e
flush_loop results (block ∷ buffer) e =
    let written = write_to_clients results block e in
    let rest =
      flush_loop written.1 buffer (record written.0 {
        buffer = buffer;
        buffer_bytes = sub64 e.buffer_bytes (length block);
      }) in
    if is_empty e.client_fds then e else rest

unfoldable pub flush_buffer_to_clients : List ℕ → TcpEgress → TcpEgress
flush_buffer_to_clients results e = flush_loop results e.buffer e

-- A client is accepted by `run`.
unfoldable pub connect : List ℕ → ℕ → TcpEgress → TcpEgress
connect results client_fd e =
    flush_buffer_to_clients results (record e { client_fds = e.client_fds ++ (client_fd ∷ []) })

-- The clients are closed by `stop`.
unfoldable pub close_clients : TcpEgress → TcpEgress
close_clients e = record e { client_fds = [] }

pub data Event : Type 0 where
  delivered : List ℕ → List ℕ → Event
  connected : List ℕ → ℕ → Event
  stopped : Event

unfoldable pub handle : Event → TcpEgress → TcpEgress
handle (delivered results bytes) e = deliver results bytes e
handle (connected results client_fd) e = connect results client_fd e
handle stopped e = close_clients e

unfoldable pub serve : List Event → TcpEgress → TcpEgress
serve [] e = e
serve (event ∷ events) e = serve events (handle event e)
