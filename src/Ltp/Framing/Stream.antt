-- ===== src/Ltp/Framing/Stream.antt =====
-- How the bytes of a stream are cut into reads does not matter.
use qpsk_b.Base.{
  joined, ℕ, zero, suc, ◌+◌, ◌%◌, ◌^◌, ◌<◌, ◌≡◌, ◌⊎◌, refl, sym, ap, ◌∙◌, none, some, List, [], ◌∷◌,
  ◌++◌, leb, inl, inr, length, drop, length-drop, take-of_append, drop-of_append, append-nil,
  append_assoc, All, Bool-cases, arith,
}
use qpsk_b.Base.Bits.{shr, low_bits}
use qpsk_b.Base.Result.{Result, ok}
use qpsk_b.Ltp.Segment.{Fault}
use qpsk_b.Ltp.Framing.{
  frame_message, read_prefix, extract_framed_message, extract_loop, extract_all, on_bytes, on_reads,
}
use qpsk_b.Ltp.Framing.RoundTrip.{prefix_of_length, extract-frame_message}

abbrev pub IsFramable : List ℕ → Type 0
IsFramable bytes = length bytes + 4 < 2 ^ 32

-- The messages as they are sent, one framed message after the other.
abbrev pub frames : List (List ℕ) → List ℕ
frames [] = []
frames (msg ∷ msgs) = frame_message msg ++ frames msgs

-- A buffer that begins like a framed message either holds it, or is waited for.
extract-front :
    (p q m t : List ℕ)
    → p ++ q ≡ frame_message m ++ t
    → IsFramable m
    → (extract_framed_message p ≡ ok none)
      ⊎ ((r : List ℕ) × (extract_framed_message p ≡ ok (some (m, r)))
          × (r ++ q ≡ t)
          × (length r < length p))
unfolding extract_framed_message frame_message
extract-front [] q m t e h = inl refl
extract-front (b0 ∷ []) q m t e h = inl refl
extract-front (b0 ∷ b1 ∷ []) q m t e h = inl refl
extract-front (b0 ∷ b1 ∷ b2 ∷ []) q m t e h = inl refl
extract-front (b0 ∷ b1 ∷ b2 ∷ b3 ∷ body) q m t e h =
    let len : ℕ = length m % 2 ^ 32 in
    let small : len ≡ length m = omega arith in
    let c0 : b0 ≡ low_bits (shr len 24) 8 = cc in
    let c1 : b1 ≡ low_bits (shr len 16) 8 = cc in
    let c2 : b2 ≡ low_bits (shr len 8) 8 = cc in
    let c3 : b3 ≡ low_bits len 8 = cc in
    let tails : body ++ q ≡ m ++ t = cc in
    let bytes : read_prefix b0 b1 b2 b3 ≡ length m =
      rw (c0, c1, c2, c3) (prefix_of_length len (omega arith) ∙ small) in
    elim (Bool-cases (leb (length m) (length body))) [
      | inl g ↦ inr (
        drop (length m) body,
        rw bytes (ground (arith, take-of_append body q m t tails)),
        drop-of_append body q m t tails (ground arith),
        omega (arith, length-drop (length m) body),
      )
      | inr g ↦ inl (rw bytes (ground arith))
    ]

extract-nil :
    (q : List ℕ) (ms : List (List ℕ))
    → q ≡ frames ms
    → extract_framed_message q ≡ ok none
    → All IsFramable ms
    → ms ≡ []
extract-nil q [] e x h = refl
extract-nil q (m ∷ ms) e x h =
    cc (ap extract_framed_message e, extract-frame_message m (frames ms) h.0)

-- What the loop has taken from a front of the stream: the first messages, with the others still in
-- what is left of the front and in the rest of the stream.
pub record Fed (p q : List ℕ) (ms : List (List ℕ)) (r : Result Fault (List (List ℕ) × List ℕ))
    : Type 0 where
  pub taken : List (List ℕ)
  pub later : List (List ℕ)
  pub left : List ℕ
  pub result : r ≡ ok (taken, left)
  pub split : ms ≡ taken ++ later
  pub stream : left ++ q ≡ frames later
  pub framable : All IsFramable later
  pub waiting : extract_framed_message left ≡ ok none

pub extract_loop-Fed :
    (fuel : ℕ) (p q : List ℕ) (ms : List (List ℕ))
    → p ++ q ≡ frames ms
    → All IsFramable ms
    → length p < fuel
    → Fed p q ms (extract_loop fuel p)
unfolding extract_loop
extract_loop-Fed zero p q ms e h f = absurd (omega arith)
extract_loop-Fed (suc fuel) [] q [] e h f = record {
  taken = [];
  later = [];
  left = [];
  result = refl;
  split = refl;
  stream = e;
  framable = tt;
  waiting = refl;
}
extract_loop-Fed (suc fuel) (x ∷ p) q [] e h f = cc
extract_loop-Fed (suc fuel) p q (m ∷ ms) e h f = elim (extract-front p q m (frames ms) e h.0) [
  | inl none_yet ↦ record {
    taken = [];
    later = m ∷ ms;
    left = p;
    result = rw none_yet;
    split = refl;
    stream = e;
    framable = h;
    waiting = none_yet;
  }
  | inr (r, found, rest, shorter) ↦
      let next = extract_loop-Fed fuel r q ms rest h.1 (omega arith) in
      record {
        taken = m ∷ next.taken;
        later = next.later;
        left = next.left;
        result = rw (found, next.result);
        split = ap (λ t. m ∷ t) next.split;
        stream = next.stream;
        framable = next.framable;
        waiting = next.waiting;
      }
]

on_reads-waiting :
    (buffer : List ℕ) (reads : List (List ℕ)) (ms : List (List ℕ))
    → buffer ++ joined reads ≡ frames ms
    → All IsFramable ms
    → extract_framed_message buffer ≡ ok none
    → on_reads buffer reads ≡ ok (ms, [])
unfolding on_reads on_bytes extract_all
on_reads-waiting buffer [] ms e h w =
    let whole : buffer ≡ frames ms = sym (append-nil buffer) ∙ e in
    let none_left : ms ≡ [] = extract-nil buffer ms whole w h in
    let empty : buffer ≡ [] = whole ∙ ap frames none_left in rw (none_left, empty)
on_reads-waiting buffer (rd ∷ reads) ms e h w =
    let fed =
      extract_loop-Fed (suc (length (buffer ++ rd))) (buffer ++ rd) (joined reads) ms
        (append_assoc buffer rd (joined reads) ∙ e) h (omega arith) in
    let ih = on_reads-waiting fed.left reads fed.later fed.stream fed.framable fed.waiting in
    rw (fed.result, ih) (ap (λ t. ok (t, [])) (sym fed.split))

-- However the stream of framed messages, each of fewer than 2^32 - 4 bytes, is cut into reads, the loops
-- deliver exactly the messages, in order, read nothing out of bounds, end, and leave the buffer empty.
pub on_reads-frames :
    (msgs reads : List (List ℕ))
    → All IsFramable msgs
    → joined reads ≡ frames msgs
    → on_reads [] reads ≡ ok (msgs, [])
on_reads-frames msgs reads h e =
    on_reads-waiting [] reads msgs e h (unfold extract_framed_message in refl)
