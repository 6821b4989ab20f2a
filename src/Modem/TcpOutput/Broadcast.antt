-- ===== src/Modem/TcpOutput/Broadcast.antt =====
-- What the clients of the output server have been sent.
use mathlib.Core.Path.{subst}
use qpsk_b.Base.{
  ℕ, zero, suc, ◌≡◌, inl, inr, refl, sym, ap, ◌∙◌, Option, none, some, Option-cases, List, [], ◌∷◌,
  ◌++◌, append-nil, append_assoc, length, get_elem?, set, All, All-append, Bool-cases, arith,
}
use qpsk_b.Modem.TcpOutput.Clients.{IsServed, write_to_all-IsServed}
use qpsk_b.Modem.SetUp.{SetUp}
use qpsk_b.Modem.TcpOutput.{
  ClientInfo, TcpOutputServer, new_server, start, poll_once, Sent, send_loop, remove_client,
  after_send, write_below, write_to_all, write_payloads, output_rounds,
}

remove_client-popped : (index : ℕ) (s : TcpOutputServer) → (remove_client index s).popped ≡ s.popped
unfolding remove_client
remove_client-popped index s = elim (Option-cases (get_elem? s.clients index)) [
  | inl e ↦ rw (remove_client, e) refl
  | inr (c, e) ↦ rw (remove_client, e) refl
]

after_send-popped :
    (index : ℕ) (w : Sent) (s : TcpOutputServer) → (after_send index w s).popped ≡ s.popped
unfolding after_send
after_send-popped index w s = elim (Bool-cases w.is_whole) [
  | inl h ↦ rw h refl
  | inr h ↦ rw h (remove_client-popped index (record s { clients = set s.clients index w.client }))
]

write_below-popped :
    (results payload : List ℕ) (index : ℕ) (s : TcpOutputServer)
    → (write_below results payload index s).0.popped ≡ s.popped
unfolding write_below
write_below-popped results payload zero s = refl
write_below-popped results payload (suc index) s =
    let rest = λ (c : ClientInfo).
      write_below-popped (send_loop results payload c).results payload index
        (after_send index (send_loop results payload c) s) in
    elim (Option-cases (get_elem? s.clients index)) [
      | inl e ↦ rw (write_below, e) refl
      | inr (c, e) ↦
          rw (write_below, e) (rest c ∙ after_send-popped index (send_loop results payload c) s)
    ]

write_to_all-popped :
    (results payload : List ℕ) (s : TcpOutputServer)
    → (write_to_all results payload s).0.popped ≡ s.popped
unfolding write_to_all
write_to_all-popped results [] s = refl
write_to_all-popped results (byte ∷ bytes) s =
    write_below-popped results (byte ∷ bytes) (length s.clients) s

-- These have been popped, and the clients served.
record IsAfter (history : List (List ℕ)) (s : TcpOutputServer) : Type 0 where
  popped : s.popped ≡ history
  served : All (IsServed history) s.clients

write_payloads-IsAfter :
    (history : List (List ℕ)) (results : List ℕ) (payloads : List (List ℕ)) (s : TcpOutputServer)
    → IsAfter history s
    → IsAfter (history ++ payloads) (write_payloads results payloads s).0
unfolding write_payloads
write_payloads-IsAfter history results [] s i =
    subst (λ l. IsAfter l s) (sym (append-nil history)) i
write_payloads-IsAfter history results (payload ∷ payloads) s i =
    let noted = record s { popped = s.popped ++ (payload ∷ []) } in
    let (t, left) = write_to_all results payload noted in
    let now : IsAfter (history ++ (payload ∷ [])) t = record {
      popped = write_to_all-popped results payload noted ∙ ap (λ l. l ++ (payload ∷ [])) i.popped;
      served = write_to_all-IsServed history results payload noted i.served;
    } in
    subst (λ l. IsAfter l (write_payloads left payloads t).0)
      (append_assoc history (payload ∷ []) payloads)
      (write_payloads-IsAfter (history ++ (payload ∷ [])) left payloads t now)

poll_once-IsAfter :
    (history : List (List ℕ)) (accepted : Option ℕ) (s : TcpOutputServer)
    → IsAfter history s
    → IsAfter history (poll_once accepted s)
unfolding poll_once
poll_once-IsAfter history none s i = i
poll_once-IsAfter history (some client_fd) s i =
    let new : ClientInfo = record {
      fd = client_fd;
      bytes_sent = 0;
      sent = [];
      missed = s.popped;
    } in
    let fresh : IsServed history new = record {
      later = [];
      split = sym i.popped ∙ sym (append-nil s.popped);
      sent = refl;
      counted = omega arith;
    } in
    let grown = All-append (IsServed history) s.clients (new ∷ []) i.served (fresh, tt) in
    elim (Option-cases s.listen_fd) [
      | inl e ↦ rw e (record { popped = i.popped; served = i.served })
      | inr (fd, e) ↦ rw e (record { popped = i.popped; served = grown })
    ]

abbrev pub payloads_of : List (Option ℕ × List (List ℕ)) → List (List ℕ)
payloads_of [] = []
payloads_of ((accepted, payloads) ∷ rounds) = payloads ++ payloads_of rounds

rounds-IsAfter :
    (history : List (List ℕ)) (results : List ℕ) (rounds : List (Option ℕ × List (List ℕ)))
    (s : TcpOutputServer)
    → IsAfter history s
    → IsAfter (history ++ payloads_of rounds) (output_rounds results rounds s).0
unfolding output_rounds
rounds-IsAfter history results [] s i = subst (λ l. IsAfter l s) (sym (append-nil history)) i
rounds-IsAfter history results ((accepted, payloads) ∷ rounds) s i =
    let (t, left) = write_payloads results payloads (poll_once accepted s) in
    subst (λ l. IsAfter l (output_rounds left rounds t).0)
      (append_assoc history payloads (payloads_of rounds))
      (rounds-IsAfter (history ++ payloads) left rounds t (
        write_payloads-IsAfter history results payloads (poll_once accepted s)
          (poll_once-IsAfter history accepted s i)))

-- Through any rounds of accepting clients and sending payloads, with sends that take any number of bytes or
-- fail: each client that is connected has been sent every payload popped since it was accepted, all of them
-- as wholes and in their order, and nothing else; bytes_sent is the number of these bytes modulo 2^64.
pub output_rounds-IsServed :
    (setup : SetUp) (results : List ℕ) (rounds : List (Option ℕ × List (List ℕ)))
    → All
        (IsServed (payloads_of rounds))
        (output_rounds results rounds (start setup new_server).1).0.clients
unfolding start new_server
output_rounds-IsServed setup results rounds =
    (rounds-IsAfter [] results rounds _ (record { popped = refl; served = tt })).served
