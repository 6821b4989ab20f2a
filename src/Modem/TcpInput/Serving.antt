-- ===== src/Modem/TcpInput/Serving.antt =====
-- The bytes and the descriptors of the clients, through every call of the server.
use qpsk_b.Base.{
  ℕ, ◌+◌, ◌≤◌, ◌≡◌, inl, inr, sym, ap, ◌∙◌, false, Option, none, some, List, [], ◌∷◌, ◌++◌, map,
  append-nil, append_assoc, ltb, length, take, drop, length-drop, length-take, take-append-drop,
  joined, Bool-cases, Option-cases, arith,
}
use qpsk_b.Modem.TcpInput.{
  TcpInputServer, disconnect_client, accept_client, receive, Polled, quiet, ready, connected,
  accept_ready, read_ready, serve_clients, poll_once, read_frame, flush,
}

abbrev pub current : Option ℕ → List ℕ
current none = []
current (some fd) = fd ∷ []

abbrev pub bytes_of : List (ℕ × List ℕ) → List ℕ
bytes_of received = joined (map (λ r. r.1) received)

-- What has been read from the clients is what has been taken from the buffer, and then the buffer; each
-- client that was accepted has been closed once, in the order of accepting, or is the current one.
pub record IsServing (n : ℕ) (taken : List ℕ) (s : TcpInputServer) : Type 0 where
  pub frame_size : s.frame_size ≡ n
  pub stream : bytes_of s.received ≡ taken ++ s.buffer
  pub clients : s.accepted ≡ s.closed ++ current s.client_fd

bytes_of-append :
    (received : List (ℕ × List ℕ)) (fd : ℕ) (bytes : List ℕ)
    → bytes_of (received ++ ((fd, bytes) ∷ [])) ≡ bytes_of received ++ bytes
bytes_of-append [] fd bytes = append-nil bytes
bytes_of-append (r ∷ received) fd bytes =
    ap (λ l. r.1 ++ l) (bytes_of-append received fd bytes)
    ∙ sym (append_assoc r.1 (bytes_of received) bytes)

module _ (n : ℕ) (taken : List ℕ) where
  disconnect_client-IsServing :
      (s : TcpInputServer) → IsServing n taken s → IsServing n taken (disconnect_client s)
  unfolding disconnect_client
  disconnect_client-IsServing s i = elim (Option-cases s.client_fd) [
    | inl e ↦ rw e (record {
      frame_size = i.frame_size;
      stream = i.stream;
      clients = i.clients ∙ ap (λ c. s.closed ++ current c) e;
    })
    | inr (fd, e) ↦ rw e (record {
      frame_size = i.frame_size;
      stream = i.stream;
      clients =
          i.clients ∙ ap (λ c. s.closed ++ current c) e ∙ sym (append-nil (s.closed ++ (fd ∷ [])));
    })
  ]

  accept_client-IsServing :
      (new_fd : ℕ) (s : TcpInputServer)
      → IsServing n taken s
      → IsServing n taken (accept_client new_fd s)
  unfolding accept_client
  accept_client-IsServing new_fd s i = elim (Option-cases s.client_fd) [
    | inl e ↦
        let all_closed = i.clients ∙ ap (λ c. s.closed ++ current c) e ∙ append-nil s.closed in
        rw e (record {
          frame_size = i.frame_size;
          stream = i.stream;
          clients = ap (λ l. l ++ (new_fd ∷ [])) all_closed;
        })
    | inr (fd, e) ↦
        let old = i.clients ∙ ap (λ c. s.closed ++ current c) e in
        rw e (record {
          frame_size = i.frame_size;
          stream = i.stream;
          clients = ap (λ l. l ++ (new_fd ∷ [])) old;
        })
  ]

  receive-IsServing :
      (bytes : List ℕ) (s : TcpInputServer)
      → IsServing n taken s
      → IsServing n taken (receive bytes s)
  unfolding receive
  receive-IsServing [] s i = disconnect_client-IsServing s i
  receive-IsServing (byte ∷ bytes) s i = elim (Option-cases s.client_fd) [
    | inl e ↦ rw e (record {
      frame_size = i.frame_size;
      stream = i.stream;
      clients = i.clients ∙ ap (λ c. s.closed ++ current c) e;
    })
    | inr (fd, e) ↦ rw e (record {
      frame_size = i.frame_size;
      stream =
          bytes_of-append s.received fd (byte ∷ bytes)
          ∙ ap (λ l. l ++ (byte ∷ bytes)) i.stream
          ∙ append_assoc taken s.buffer (byte ∷ bytes);
      clients = i.clients ∙ ap (λ c. s.closed ++ current c) e;
    })
  ]

  read_ready-IsServing :
      (bytes : Option (List ℕ)) (s : TcpInputServer)
      → IsServing n taken s
      → IsServing n taken (read_ready bytes s)
  unfolding read_ready
  read_ready-IsServing none s i = i
  read_ready-IsServing (some bytes) s i = receive-IsServing bytes s i

  accept_ready-IsServing :
      (new_fd : Option ℕ) (s : TcpInputServer)
      → IsServing n taken s
      → IsServing n taken (accept_ready new_fd s)
  unfolding accept_ready
  accept_ready-IsServing none s i = i
  accept_ready-IsServing (some new_fd) s i = accept_client-IsServing new_fd s i

  serve_clients-IsServing :
      (new_fd : Option ℕ) (bytes : Option (List ℕ)) (s : TcpInputServer)
      → IsServing n taken s
      → IsServing n taken (serve_clients new_fd bytes s)
  unfolding serve_clients
  serve_clients-IsServing new_fd bytes s i =
      let accepted = accept_ready-IsServing new_fd s i in
      elim (Bool-cases (connected s)) [
        | inl c ↦ rw c (read_ready-IsServing bytes (accept_ready new_fd s) accepted)
        | inr c ↦ rw c accepted
      ]

  pub poll_once-IsServing :
      (p : Polled) (s : TcpInputServer) → IsServing n taken s → IsServing n taken (poll_once p s)
  unfolding poll_once
  poll_once-IsServing quiet s i = i
  poll_once-IsServing (ready new_fd bytes) s i = elim (Option-cases s.listen_fd) [
    | inl e ↦ rw e (record { frame_size = i.frame_size; stream = i.stream; clients = i.clients })
    | inr (fd, e) ↦ rw e (
        serve_clients-IsServing new_fd bytes (record s { listen_fd = some fd })
          (record { frame_size = i.frame_size; stream = i.stream; clients = i.clients }))
  ]

  -- The bytes that are read are the next of the stream.
  pub read_frame-IsServing :
      (s : TcpInputServer)
      → n ≤ length s.buffer
      → IsServing n taken s
      → IsServing n (taken ++ (read_frame s).0) (read_frame s).1
        × (length (read_frame s).0 ≡ n)
        × (length (read_frame s).1.buffer + n ≡ length s.buffer)
  unfolding read_frame
  read_frame-IsServing s h i =
      let here : s.frame_size ≡ n = i.frame_size in
      let enough : ltb (length s.buffer) s.frame_size ≡ false = ground arith in
      rw enough (
        record {
          frame_size = here;
          stream =
              i.stream
              ∙ ap (λ l. taken ++ l) (sym (take-append-drop s.frame_size s.buffer))
              ∙ sym (append_assoc taken (take s.frame_size s.buffer) (drop s.frame_size s.buffer));
          clients = i.clients;
        },
        omega (arith, length-take s.frame_size s.buffer),
        omega (arith, length-drop s.frame_size s.buffer),
      )

  pub flush-IsServing :
      (s : TcpInputServer) → IsServing n taken s → IsServing n (taken ++ (flush s).0) (flush s).1
  unfolding flush
  flush-IsServing s i = record {
    frame_size = i.frame_size;
    stream = i.stream ∙ sym (append-nil (taken ++ s.buffer));
    clients = i.clients;
  }
