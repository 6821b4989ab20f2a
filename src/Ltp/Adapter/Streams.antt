-- ===== src/Ltp/Adapter/Streams.antt =====
-- What the receiving thread makes of the bytes of one connection, of which the last frame may be cut off.
use mathlib.Core.List.{append_cancel_right}
use qpsk_b.Base.{
  joined, ℕ, suc, ◌≡◌, ◌≢◌, refl, ap, sym, ◌∙◌, inl, inr, none, List, [], ◌∷◌, ◌++◌, map,
  append_assoc, append-nil, length, All, All-append, arith,
}
use qpsk_b.Base.Result.{Result, ok, Result-cases}
use qpsk_b.Ltp.Segment.{Fault}
use qpsk_b.Ltp.Framing.{frame_message, extract_framed_message, extract_all, on_bytes, on_reads}
use qpsk_b.Ltp.Framing.RoundTrip.{extract-frame_message}
use qpsk_b.Ltp.Framing.Stream.{IsFramable, frames, extract_loop-Fed}
use qpsk_b.Ltp.Adapter.{RxEvent, received, run_rx}

-- The messages whose frames are whole in the stream, with a part of one more frame behind them.
pub record IsStream (msgs : List (List ℕ)) (stream : List ℕ) : Type 0 where
  pub begun : List ℕ
  pub front : List ℕ
  pub back : List ℕ
  pub bytes : stream ≡ frames msgs ++ front
  pub frame : front ++ back ≡ frame_message begun
  pub cut : back ≢ []
  pub framable : IsFramable begun

pub frames-append : (xs ys : List (List ℕ)) → frames (xs ++ ys) ≡ frames xs ++ frames ys
frames-append [] ys = refl
frames-append (x ∷ xs) ys =
    ap (λ l. frame_message x ++ l) (frames-append xs ys)
    ∙ sym (append_assoc (frame_message x) (frames xs) (frames ys))

-- The reads so far of a stream that goes on with `rest`.
record Heard (ms : List (List ℕ)) (rest : List ℕ) (r : Result Fault (List (List ℕ) × List ℕ))
    : Type 0 where
  taken : List (List ℕ)
  later : List (List ℕ)
  left : List ℕ
  result : r ≡ ok (taken, left)
  split : ms ≡ taken ++ later
  stream : left ++ rest ≡ frames later
  waiting : extract_framed_message left ≡ ok none

on_reads-Heard :
    (buffer rest : List ℕ) (reads : List (List ℕ)) (ms : List (List ℕ))
    → buffer ++ (joined reads ++ rest) ≡ frames ms
    → All IsFramable ms
    → extract_framed_message buffer ≡ ok none
    → Heard ms rest (on_reads buffer reads)
unfolding on_reads on_bytes extract_all
on_reads-Heard buffer rest [] ms e h w = record {
  taken = [];
  later = ms;
  left = buffer;
  result = refl;
  split = refl;
  stream = e;
  waiting = w;
}
on_reads-Heard buffer rest (rd ∷ reads) ms e h w =
    let all : (buffer ++ rd) ++ (joined reads ++ rest) ≡ frames ms =
      append_assoc buffer rd (joined reads ++ rest)
      ∙ ap (λ l. buffer ++ l) (sym (append_assoc rd (joined reads) rest))
      ∙ e in
    let fed =
      extract_loop-Fed (suc (length (buffer ++ rd))) (buffer ++ rd) (joined reads ++ rest) ms all h
        (omega arith) in
    let next = on_reads-Heard fed.left rest reads fed.later fed.stream fed.framable fed.waiting in
    record {
      taken = fed.taken ++ next.taken;
      later = next.later;
      left = next.left;
      result = rw (fed.result, next.result) refl;
      split =
          fed.split
          ∙ ap (λ l. fed.taken ++ l) next.split
          ∙ sym (append_assoc fed.taken next.taken next.later);
      stream = next.stream;
      waiting = next.waiting;
    }

append-nil_behind : (a b : List ℕ) → a ++ b ≡ [] → b ≡ []
append-nil_behind [] b e = e
append-nil_behind (x ∷ a) b e = cc

-- The reads have taken all frames that are whole: one more is left, and it is cut off.
all_taken :
    (taken later msgs : List (List ℕ)) (m left front back : List ℕ)
    → taken ++ later ≡ msgs ++ (m ∷ [])
    → left ++ back ≡ frames later
    → front ++ back ≡ frame_message m
    → back ≢ []
    → extract_framed_message left ≡ ok none
    → All IsFramable (msgs ++ (m ∷ []))
    → taken ≡ msgs
all_taken [] later [] m left front back e s f c w h = refl
all_taken [] later (y ∷ msgs) m left front back e s f c w h =
    let rest = frames msgs ++ front in
    let behind : frames (msgs ++ (m ∷ [])) ≡ rest ++ back =
      frames-append msgs (m ∷ [])
      ∙ ap (λ l. frames msgs ++ l) (append-nil (frame_message m) ∙ sym f)
      ∙ sym (append_assoc (frames msgs) front back) in
    let whole : left ++ back ≡ (frame_message y ++ rest) ++ back =
      s
      ∙ ap frames e
      ∙ ap (λ l. frame_message y ++ l) behind
      ∙ sym (append_assoc (frame_message y) rest back) in
    let left_lem = append_cancel_right left (frame_message y ++ rest) back whole in
    cc (extract-frame_message y rest h.0, ap extract_framed_message left_lem)
all_taken (x ∷ []) later [] m left front back e s f c w h =
    let none_later : later ≡ [] = cc in
    absurd (c (append-nil_behind left back (s ∙ ap frames none_later)))
all_taken (x ∷ z ∷ taken) later [] m left front back e s f c w h = cc
all_taken (x ∷ taken) later (y ∷ msgs) m left front back e s f c w h =
    let tails : taken ++ later ≡ msgs ++ (m ∷ []) = cc in
    let heads : x ≡ y = cc in cc (all_taken taken later msgs m left front back tails s f c w h.1)

-- The reads of a stream give the messages whose frames are whole, and keep the rest.
pub on_reads-IsStream :
    (msgs : List (List ℕ)) (stream : List ℕ) (reads : List (List ℕ))
    → IsStream msgs stream
    → All IsFramable msgs
    → joined reads ≡ stream
    → (left : List ℕ) × (on_reads [] reads ≡ ok (msgs, left))
on_reads-IsStream msgs stream reads i h e =
    let ms = msgs ++ (i.begun ∷ []) in
    let all_framable : All IsFramable ms =
      All-append IsFramable msgs (i.begun ∷ []) h (i.framable, tt) in
    let whole : joined reads ++ i.back ≡ frames ms =
      ap (λ l. l ++ i.back) (e ∙ i.bytes)
      ∙ append_assoc (frames msgs) i.front i.back
      ∙ ap (λ l. frames msgs ++ l) (i.frame ∙ sym (append-nil (frame_message i.begun)))
      ∙ sym (frames-append msgs (i.begun ∷ [])) in
    let heard =
      on_reads-Heard [] i.back reads ms whole all_framable
        (unfold extract_framed_message in refl) in
    let same =
      all_taken heard.taken heard.later msgs i.begun heard.left i.front i.back (sym heard.split)
        heard.stream i.frame i.cut heard.waiting all_framable in
    (heard.left, heard.result ∙ ap (λ t. ok (t, heard.left)) same)

-- The events of a connection come before those of the next.
pub run_rx-append :
    (buffer left last : List ℕ) (reads msgs more : List (List ℕ)) (events : List RxEvent)
    → on_reads buffer reads ≡ ok (msgs, left)
    → run_rx left events ≡ ok (more, last)
    → run_rx buffer (map received reads ++ events) ≡ ok (msgs ++ more, last)
unfolding run_rx on_reads
run_rx-append buffer left last [] msgs more events e f =
    let none_read : [] ≡ msgs = cc in let same : buffer ≡ left = cc in rw (← none_read, same) f
run_rx-append buffer left last (rd ∷ reads) msgs more events e f =
    elim (Result-cases (on_bytes buffer rd)) [
      | inr (x, bad) ↦ cc (rw bad at e)
      | inl (a, good) ↦ elim (Result-cases (on_reads a.1 reads)) [
        | inr (x, bad) ↦ cc (rw (good, bad) at e)
        | inl (b, fine) ↦
            let total = rw (good, fine) at e in
            let parts : a.0 ++ b.0 ≡ msgs = cc in
            let same : b.1 ≡ left = cc in
            let rest = run_rx-append a.1 b.1 last reads b.0 more events fine (rw same f) in
            rw (good, rest)
              (ap (λ l. ok (l, last)) (sym (append_assoc a.0 b.0 more) ∙ ap (λ l. l ++ more) parts))
      ]
    ]
