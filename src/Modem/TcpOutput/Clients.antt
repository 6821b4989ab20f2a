-- ===== src/Modem/TcpOutput/Clients.antt =====
-- One payload, sent to every client by the loop over the indices.
use mathlib.Core.Path.{subst}
use mathlib.Core.List.{reverse-cons, reverse-reverse}
use qpsk_b.Base.{
  ℕ, zero, suc, ◌%◌, ◌^◌, ◌≡◌, ◌⊎◌, inl, inr, refl, sym, ap, ◌∙◌, true, some, List, [], ◌∷◌, ◌++◌,
  reverse, append-nil, append_assoc, length, get_elem?, set, take, drop, joined, joined-append,
  length-append, length-reverse, take-append-drop, All, All-append, Bool-cases, arith,
}
use qpsk_b.Base.Bits.{add64}
use qpsk_b.Modem.TcpOutput.{
  ClientInfo, TcpOutputServer, Sent, send_loop, erase, remove_client, after_send, write_below,
  write_to_all,
}

-- The client has been sent all payloads since it was accepted, as wholes and in their order, and their bytes
-- are counted.
pub record IsServed (history : List (List ℕ)) (c : ClientInfo) : Type 0 where
  pub later : List (List ℕ)
  pub split : history ≡ c.missed ++ later
  pub sent : c.sent ≡ joined later
  pub counted : c.bytes_sent ≡ length c.sent % 2 ^ 64

send_loop-sent :
    (results payload : List ℕ) (c : ClientInfo)
    → (send_loop results payload c).is_whole ≡ true
    → c.bytes_sent ≡ length c.sent % 2 ^ 64
    → ((send_loop results payload c).client.sent ≡ c.sent ++ payload)
      × ((send_loop results payload c).client.bytes_sent
          ≡ length (send_loop results payload c).client.sent % 2 ^ 64)
      × ((send_loop results payload c).client.missed ≡ c.missed)
unfolding send_loop
send_loop-sent results [] c h n = (sym (append-nil c.sent), n, refl)
send_loop-sent [] (byte ∷ left) c h n = cc
send_loop-sent (zero ∷ results) (byte ∷ left) c h n = cc
send_loop-sent (suc k ∷ results) (byte ∷ left) c h n =
    let taken : List ℕ = byte ∷ take k left in
    let rest =
      send_loop-sent results (drop k left)
        (record c { bytes_sent = add64 c.bytes_sent (length taken); sent = c.sent ++ taken }) h
        (omega (arith, length-append c.sent taken)) in
    (
      rest.0
          ∙ append_assoc c.sent taken (drop k left)
          ∙ ap (λ l. c.sent ++ (byte ∷ l)) (take-append-drop k left),
      rest.1,
      rest.2,
    )

get_elem?-middle :
    (xs : List ClientInfo) (c : ClientInfo) (ys : List ClientInfo)
    → get_elem? (xs ++ (c ∷ ys)) (length xs) ≡ some c
get_elem?-middle [] c ys = refl
get_elem?-middle (x ∷ xs) c ys = get_elem?-middle xs c ys

set-middle :
    (xs : List ClientInfo) (c d : ClientInfo) (ys : List ClientInfo)
    → set (xs ++ (c ∷ ys)) (length xs) d ≡ xs ++ (d ∷ ys)
set-middle [] c d ys = refl
set-middle (x ∷ xs) c d ys = ap (λ l. x ∷ l) (set-middle xs c d ys)

erase-middle :
    (xs : List ClientInfo) (c : ClientInfo) (ys : List ClientInfo)
    → erase (xs ++ (c ∷ ys)) (length xs) ≡ xs ++ ys
erase-middle [] c ys = refl
erase-middle (x ∷ xs) c ys = ap (λ l. x ∷ l) (erase-middle xs c ys)

remove_client-middle :
    (xs : List ClientInfo) (c : ClientInfo) (ys : List ClientInfo) (s : TcpOutputServer)
    → s.clients ≡ xs ++ (c ∷ ys)
    → (remove_client (length xs) s).clients ≡ xs ++ ys
unfolding remove_client
remove_client-middle xs c ys s e =
    let found = ap (λ l. get_elem? l (length xs)) e ∙ get_elem?-middle xs c ys in
    rw (remove_client, found) (ap (λ l. erase l (length xs)) e ∙ erase-middle xs c ys)

write_below-some :
    (results payload : List ℕ) (index : ℕ) (s : TcpOutputServer) (c : ClientInfo)
    → get_elem? s.clients index ≡ some c
    → write_below results payload (suc index) s
      ≡ write_below
          (send_loop results payload c).results
          payload
          index
          (after_send index (send_loop results payload c) s)
unfolding write_below
write_below-some results payload index s c e = rw (write_below, e) refl

All-reverse : (P : ClientInfo → Type 0) (xs : List ClientInfo) → All P xs → All P (reverse xs)
All-reverse P [] h = tt
All-reverse P (x ∷ xs) h =
    subst (All P) (sym (reverse-cons x xs))
      (All-append P (reverse xs) (x ∷ []) (All-reverse P xs h.1) (h.0, tt))

module _ (history : List (List ℕ)) (payload : List ℕ) where
  abbrev IsServedNow : ClientInfo → Type 0
  IsServedNow c = IsServed (history ++ (payload ∷ [])) c

  sent-IsServed :
      (results : List ℕ) (c : ClientInfo)
      → (send_loop results payload c).is_whole ≡ true
      → IsServed history c
      → IsServedNow (send_loop results payload c).client
  sent-IsServed results c h i =
      let (sent, counted, same) = send_loop-sent results payload c h i.counted in
      record {
        later = i.later ++ (payload ∷ []);
        split =
            ap (λ l. l ++ (payload ∷ [])) i.split
            ∙ append_assoc c.missed i.later (payload ∷ [])
            ∙ ap (λ l. l ++ (i.later ++ (payload ∷ []))) (sym same);
        sent =
            sent
            ∙ ap (λ l. l ++ payload) i.sent
            ∙ ap (λ l. joined i.later ++ l) (sym (append-nil payload))
            ∙ sym (joined-append i.later (payload ∷ []));
        counted = counted;
      }

  -- What `after_send` leaves of the clients, the one at the index between `xs` and `ys`.
  after_send-clients :
      (xs : List ClientInfo) (c : ClientInfo) (ys : List ClientInfo) (w : Sent)
      (s : TcpOutputServer)
      → s.clients ≡ xs ++ (c ∷ ys)
      → ((w.is_whole ≡ true) × ((after_send (length xs) w s).clients ≡ xs ++ (w.client ∷ ys)))
        ⊎ ((after_send (length xs) w s).clients ≡ xs ++ ys)
  unfolding after_send
  after_send-clients xs c ys w s e =
      let put = ap (λ l. set l (length xs) w.client) e ∙ set-middle xs c w.client ys in
      elim (Bool-cases w.is_whole) [
        | inl h ↦ inl (h, rw h put)
        | inr h ↦ inr (
            rw h (
              remove_client-middle xs w.client ys
                (record s { clients = set s.clients (length xs) w.client }) put))
      ]

  -- The clients before the index are given last first.
  write_below-IsServed :
      (zs ys : List ClientInfo) (results : List ℕ) (s : TcpOutputServer)
      → s.clients ≡ reverse zs ++ ys
      → All (IsServed history) zs
      → All IsServedNow ys
      → All IsServedNow (write_below results payload (length zs) s).0.clients
  unfolding write_below
  write_below-IsServed [] ys results s e h k = subst (All IsServedNow) (sym e) k
  write_below-IsServed (z ∷ zs) ys results s e h k =
      let split =
        e ∙ ap (λ l. l ++ ys) (reverse-cons z zs) ∙ append_assoc (reverse zs) (z ∷ []) ys in
      let size = length-reverse zs in
      let w = send_loop results payload z in
      let found =
        ap (λ l. get_elem? l (length zs)) split
        ∙ ap (λ n. get_elem? (reverse zs ++ (z ∷ ys)) n) (sym size)
        ∙ get_elem?-middle (reverse zs) z ys in
      let at = λ (n : ℕ). after_send n w s in
      subst (λ (r : TcpOutputServer × List ℕ). All IsServedNow r.0.clients)
        (sym (write_below-some results payload (length zs) s z found))
        (elim (after_send-clients (reverse zs) z ys w s split) [
          | inl (whole, left) ↦
              write_below-IsServed zs (w.client ∷ ys) w.results (at (length zs))
                (ap (λ n. (at n).clients) (sym size) ∙ left) h.1
                (sent-IsServed results z whole h.0, k)
          | inr left ↦
              write_below-IsServed zs ys w.results (at (length zs))
                (ap (λ n. (at n).clients) (sym size) ∙ left) h.1 k
        ])

  All-sent :
      (clients : List ClientInfo)
      → payload ≡ []
      → All (IsServed history) clients
      → All IsServedNow clients
  All-sent [] e h = tt
  All-sent (c ∷ clients) e h = (
    record {
      later = h.0.later ++ (payload ∷ []);
      split =
          ap (λ l. l ++ (payload ∷ [])) h.0.split ∙ append_assoc c.missed h.0.later (payload ∷ []);
      sent =
          h.0.sent
          ∙ sym (append-nil (joined h.0.later))
          ∙ ap (λ l. joined h.0.later ++ (l ++ [])) (sym e)
          ∙ sym (joined-append h.0.later (payload ∷ []));
      counted = h.0.counted;
    },
    All-sent clients e h.1,
  )

pub write_to_all-IsServed :
    (history : List (List ℕ)) (results payload : List ℕ) (s : TcpOutputServer)
    → All (IsServed history) s.clients
    → All (IsServed (history ++ (payload ∷ []))) (write_to_all results payload s).0.clients
unfolding write_to_all
write_to_all-IsServed history results [] s h = All-sent history [] s.clients refl h
write_to_all-IsServed history results (byte ∷ bytes) s h =
    let last_first = reverse s.clients in
    subst
      (λ n.
        All (IsServed (history ++ ((byte ∷ bytes) ∷ [])))
          (write_below results (byte ∷ bytes) n s).0.clients)
      (length-reverse s.clients)
      (write_below-IsServed history (byte ∷ bytes) last_first [] results s
        (sym (append-nil (reverse last_first) ∙ reverse-reverse s.clients))
        (All-reverse (IsServed history) s.clients h) tt)
