-- ===== src/Ltp/Adapter/Sending.antt =====
-- What the transmitting thread writes on each connection, when any write may fail.
use mathlib.Core.Path.{subst}
use qpsk_b.Base.{
  ℕ, zero, suc, ◌≡◌, ◌≢◌, refl, ap, sym, ◌∙◌, ◌⊎◌, inl, inr, true, false, List, [], ◌∷◌, ◌++◌,
  append_assoc, append-nil, take, drop, length, length-drop, Bool, ◌-◌, if◌then◌else◌,
  take-append-drop, All, arith,
}
use qpsk_b.Ltp.Framing.{frame_message}
use qpsk_b.Ltp.Framing.Stream.{IsFramable, frames}
use qpsk_b.Ltp.Adapter.{Transmitter, Written, write_frame, run_tx_loop}
use qpsk_b.Ltp.Adapter.Streams.{IsStream, frames-append}

-- Each closed connection has carried one group of messages, and a part of one more.
abbrev pub AreStreams : List (List (List ℕ)) → List (List ℕ) → Type 0
AreStreams [] [] = Unit
AreStreams [] (stream ∷ streams) = ⊥
AreStreams (group ∷ groups) [] = ⊥
AreStreams (group ∷ groups) (stream ∷ streams) = IsStream group stream × AreStreams groups streams

abbrev pub together : List (List (List ℕ)) → List (List ℕ)
together [] = []
together (group ∷ groups) = group ++ together groups

AreStreams-append :
    (groups : List (List (List ℕ))) (streams : List (List ℕ)) (group : List (List ℕ))
    (stream : List ℕ)
    → AreStreams groups streams
    → IsStream group stream
    → AreStreams (groups ++ (group ∷ [])) (streams ++ (stream ∷ []))
AreStreams-append [] [] group stream a i = (i, tt)
AreStreams-append [] (s ∷ streams) group stream a i = absurd a
AreStreams-append (g ∷ groups) [] group stream a i = absurd a
AreStreams-append (g ∷ groups) (s ∷ streams) group stream a i =
    (a.0, AreStreams-append groups streams group stream a.1 i)

together-append : (xs ys : List (List (List ℕ))) → together (xs ++ ys) ≡ together xs ++ together ys
together-append [] ys = refl
together-append (x ∷ xs) ys =
    ap (λ l. x ++ l) (together-append xs ys) ∙ sym (append_assoc x (together xs) (together ys))

-- The messages that are done, by connections, with `front` of a frame behind them on the last one.
pub record IsSent (finished : List (List ℕ)) (front : List ℕ) (closed : List (List ℕ))
    (current : List ℕ) : Type 0 where
  pub groups : List (List (List ℕ))
  pub last : List (List ℕ)
  pub streams : AreStreams groups closed
  pub messages : together groups ++ last ≡ finished
  pub bytes : current ≡ frames last ++ front

-- What `write_frame` leaves: the message is done, or a part of it is written.
abbrev WriteOutcome : List (List ℕ) → List ℕ → Written → Type 0
WriteOutcome finished m w =
    ((w.is_whole ≡ true) × IsSent (finished ++ (m ∷ [])) [] w.closed w.current)
    ⊎ ((w.is_whole ≡ false)
        × ((front : List ℕ) × (back : List ℕ) × (front ++ back ≡ frame_message m)
            × (back ≢ [])
            × IsSent finished front w.closed w.current))

frame_not_empty : (m : List ℕ) → frame_message m ≢ []
unfolding frame_message
frame_not_empty m e = cc

module _ (finished : List (List ℕ)) (m : List ℕ) (framable : IsFramable m) where
  message_done :
      (front : List ℕ) (closed : List (List ℕ)) (current : List ℕ)
      → front ≡ frame_message m
      → IsSent finished front closed current
      → IsSent (finished ++ (m ∷ [])) [] closed current
  message_done front closed current e i = record {
    groups = i.groups;
    last = i.last ++ (m ∷ []);
    streams = i.streams;
    messages =
        sym (append_assoc (together i.groups) i.last (m ∷ [])) ∙ ap (λ l. l ++ (m ∷ [])) i.messages;
    bytes =
        i.bytes
        ∙ ap (λ l. frames i.last ++ l) (e ∙ sym (append-nil (frame_message m)))
        ∙ sym (frames-append i.last (m ∷ []))
        ∙ sym (append-nil (frames (i.last ++ (m ∷ []))));
  }

  connection_lost :
      (front left : List ℕ) (closed : List (List ℕ)) (current : List ℕ)
      → front ++ left ≡ frame_message m
      → left ≢ []
      → IsSent finished front closed current
      → IsSent finished [] (closed ++ (current ∷ [])) []
  connection_lost front left closed current e c i = record {
    groups = i.groups ++ (i.last ∷ []);
    last = [];
    streams = AreStreams-append i.groups closed i.last current i.streams (record {
      begun = m;
      front = front;
      back = left;
      bytes = i.bytes;
      frame = e;
      cut = c;
      framable = framable;
    });
    messages =
        append-nil (together (i.groups ++ (i.last ∷ [])))
        ∙ together-append i.groups (i.last ∷ [])
        ∙ ap (λ l. together i.groups ++ l) (append-nil i.last)
        ∙ i.messages;
    bytes = refl;
  }

  write_frame-WriteOutcome :
      (results front left : List ℕ) (closed : List (List ℕ)) (current : List ℕ)
      → front ++ left ≡ frame_message m
      → IsSent finished front closed current
      → WriteOutcome finished m (write_frame results (frame_message m) left closed current)
  unfolding write_frame
  write_frame-WriteOutcome results front [] closed current e i =
      inl (refl, message_done front closed current (sym (append-nil front) ∙ e) i)
  write_frame-WriteOutcome [] front (byte ∷ left) closed current e i =
      inr (refl, (front, byte ∷ left, e, (λ n. cc), i))
  write_frame-WriteOutcome (zero ∷ results) front (byte ∷ left) closed current e i =
      write_frame-WriteOutcome results [] (frame_message m) (closed ++ (current ∷ [])) [] refl
        (connection_lost front (byte ∷ left) closed current e (λ n. cc) i)
  write_frame-WriteOutcome (suc n ∷ results) front (byte ∷ left) closed current e i =
      let cut : (byte ∷ take n left) ++ drop n left ≡ byte ∷ left =
        ap (λ l. byte ∷ l) (take-append-drop n left) in
      write_frame-WriteOutcome results (front ++ (byte ∷ take n left)) (drop n left) closed
        (current ++ (byte ∷ take n left))
        (append_assoc front (byte ∷ take n left) (drop n left) ∙ ap (λ l. front ++ l) cut ∙ e)
        (record {
          groups = i.groups;
          last = i.last;
          streams = i.streams;
          messages = i.messages;
          bytes =
              ap (λ l. l ++ (byte ∷ take n left)) i.bytes
              ∙ append_assoc (frames i.last) front (byte ∷ take n left);
        })

-- The results of the writes are enough for a frame of `size` bytes of which `left` are to be written: each
-- result but 0 is a number of bytes, and after a 0 the whole frame is to be written.
unfoldable pub finishes : List ℕ → ℕ → ℕ → Bool
finishes results size zero = true
finishes [] size (suc left) = false
finishes (zero ∷ results) size (suc left) = finishes results size size
finishes (suc n ∷ results) size (suc left) = finishes results size (left - n)

-- The segment in hand when the thread ends: the first with too few writes, if the thread has popped it.
unfoldable pub in_hand : List (List ℕ) → List (List ℕ) → List (List ℕ)
in_hand writes [] = []
in_hand [] (segment ∷ queue) = []
in_hand (results ∷ writes) (segment ∷ queue) =
    let size = length (frame_message segment) in
    if finishes results size size then in_hand writes queue else segment ∷ []

write_frame-finishes :
    (results framed left : List ℕ) (closed : List (List ℕ)) (current : List ℕ)
    → (write_frame results framed left closed current).is_whole
      ≡ finishes results (length framed) (length left)
unfolding write_frame finishes
write_frame-finishes results framed [] closed current = refl
write_frame-finishes [] framed (byte ∷ left) closed current = refl
write_frame-finishes (zero ∷ results) framed (byte ∷ left) closed current =
    write_frame-finishes results framed framed (closed ++ (current ∷ [])) []
write_frame-finishes (suc n ∷ results) framed (byte ∷ left) closed current =
    write_frame-finishes results framed (drop n left) closed (current ++ (byte ∷ take n left))
    ∙ ap (finishes results (length framed)) (length-drop n left)

-- The segments that have been written, those that are lost, and the state of the connections.
pub record IsTransferred (segments cut : List (List ℕ)) (t : Transmitter) : Type 0 where
  pub sent : List (List ℕ)
  pub groups : List (List (List ℕ))
  pub last : List (List ℕ)
  pub split : segments ≡ sent ++ (cut ++ t.tx_queue)
  pub streams : AreStreams groups t.closed
  pub messages : together groups ++ last ≡ sent
  pub stream : IsStream last t.current

-- The thread ends between two segments.
IsSent-IsTransferred :
    (finished queue : List (List ℕ)) (closed : List (List ℕ)) (current : List ℕ)
    → IsSent finished [] closed current
    → IsTransferred
        (finished ++ queue)
        []
        (record { tx_queue = queue; closed = closed; current = current })
IsSent-IsTransferred finished queue closed current i = record {
  sent = finished;
  groups = i.groups;
  last = i.last;
  split = refl;
  streams = i.streams;
  messages = i.messages;
  stream = record {
    begun = [];
    front = [];
    back = frame_message [];
    bytes = i.bytes;
    frame = refl;
    cut = frame_not_empty [];
    framable = omega arith;
  };
}

pub run_tx_loop-IsTransferred :
    (writes finished queue : List (List ℕ)) (closed : List (List ℕ)) (current : List ℕ)
    → All IsFramable queue
    → IsSent finished [] closed current
    → IsTransferred
        (finished ++ queue)
        (in_hand writes queue)
        (run_tx_loop writes queue closed current)
unfolding run_tx_loop in_hand
run_tx_loop-IsTransferred writes finished [] closed current h i =
    IsSent-IsTransferred finished [] closed current i
run_tx_loop-IsTransferred [] finished (m ∷ queue) closed current h i =
    IsSent-IsTransferred finished (m ∷ queue) closed current i
run_tx_loop-IsTransferred (results ∷ writes) finished (m ∷ queue) closed current h i =
    let w = write_frame results (frame_message m) (frame_message m) closed current in
    let test =
      sym (write_frame-finishes results (frame_message m) (frame_message m) closed current) in
    elim (write_frame-WriteOutcome finished m h.0 results [] (frame_message m) closed current refl
      i) [
        | inl (whole, done) ↦
            let rest =
              run_tx_loop-IsTransferred writes (finished ++ (m ∷ [])) queue w.closed w.current h.1
                done in
            rw (test, whole)
              (subst
                (λ l.
                  IsTransferred l (in_hand writes queue)
                    (run_tx_loop writes queue w.closed w.current))
                (append_assoc finished (m ∷ []) queue) rest)
        | inr (part, (front, back, e, c, sent)) ↦
            rw (test, part)
              (record {
                sent = finished;
                groups = sent.groups;
                last = sent.last;
                split = refl;
                streams = sent.streams;
                messages = sent.messages;
                stream = record {
                  begun = m;
                  front = front;
                  back = back;
                  bytes = sent.bytes;
                  frame = e;
                  cut = c;
                  framable = h.0;
                };
              })
      ]
