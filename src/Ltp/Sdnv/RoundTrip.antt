-- ===== src/Ltp/Sdnv/RoundTrip.antt =====
-- `decode` on what `encode` wrote, whole or cut short.
use qpsk_b.Base.{
  ℕ, zero, suc, ◌+◌, ◌*◌, ◌/◌, ◌%◌, ◌^◌, ◌≤◌, ◌<◌, ◌≡◌, refl, List, [], ◌∷◌, ◌++◌, append-nil,
  append_assoc, ◌≢◌, ◌==◌, Bool-cases, inl, inr, length, length-append, bit_or, arith,
}
use qpsk_b.Base.Bits.{IsU64, top_bit, bit_or_disjoint, shl64, low_bits}
use qpsk_b.Base.Result.{ok, err, Result-cases}
use qpsk_b.Ltp.Sdnv.{
  Cursor, no_data, too_long, truncated, decode_loop, decode_from, decode, encode_into,
}
use qpsk_b.Ltp.Sdnv.Encode.{lead, encoding, encode_into_lem, length-encoding}

-- One group more: the shift does not wrap where the new value fits 64 bits.
shift_in : (a g : ℕ) → g < 128 → a * 128 + g < 2 ^ 64 → bit_or (shl64 a 7) g ≡ a * 128 + g
shift_in a g hg h =
    let fits : shl64 a 7 ≡ a * 2 ^ 7 = omega arith in rw fits (bit_or_disjoint 7 a g hg)

last_byte :
    (g o a n : ℕ) (rest : List ℕ)
    → g < 128
    → n < 10
    → a * 128 + g < 2 ^ 64
    → decode_loop (g ∷ rest) o a n ≡ ok (a * 128 + g, record { offset = o + 1; rest = rest })
unfolding decode_loop
last_byte g o a n rest hg hn fits =
    let low : low_bits g 7 ≡ g = omega arith in ground (arith, top_bit g, shift_in a g, low)

inner_byte :
    (g o a n : ℕ) (rest : List ℕ)
    → g < 128
    → n < 10
    → a * 128 + g < 2 ^ 64
    → decode_loop ((g + 128) ∷ rest) o a n ≡ decode_loop rest (o + 1) (a * 128 + g) (n + 1)
unfolding decode_loop
inner_byte g o a n rest hg hn fits =
    let low : low_bits (g + 128) 7 ≡ g = omega arith in
    ground (arith, top_bit (g + 128), shift_in a g, low)

decode_loop-lead :
    (k w o : ℕ) (rest : List ℕ)
    → k ≤ 9
    → w < 128 ^ k
    → w < 2 ^ 57
    → (decode_loop (lead k w ++ rest) o 0 0
        ≡ decode_loop rest (o + length (lead k w)) w (length (lead k w)))
      × (length (lead k w) ≤ k)
unfolding lead
decode_loop-lead zero w o rest hk h fits = ground arith
decode_loop-lead (suc k) w o rest hk h fits =
    let group : List ℕ = (w % 128 + 128) ∷ [] in
    elim (Bool-cases (w == 0)) [
      | inl e ↦ let z : w ≡ 0 = ground arith in rw (e, z) (ground arith)
      | inr e ↦ rw e (
          ground (
            arith,
            decode_loop-lead k (w / 128) o (group ++ rest),
            inner_byte (w % 128) (o + length (lead k (w / 128))) (w / 128)
                (length (lead k (w / 128))) rest,
            append_assoc (lead k (w / 128)) group rest,
            length-append (lead k (w / 128)) group,
          ))
    ]

decode_from-snoc :
    (o b : ℕ) (front rest : List ℕ)
    → decode_from o (front ++ (b ∷ rest)) ≡ decode_loop (front ++ (b ∷ rest)) o 0 0
unfolding decode_from
decode_from-snoc o b [] rest = refl
decode_from-snoc o b (x ∷ front) rest = refl

pub decode-encoding :
    (v o : ℕ) (rest : List ℕ)
    → IsU64 v
    → decode (record { offset = o; rest = encoding v ++ rest })
      ≡ ok (v, record { offset = o + length (encoding v); rest = rest })
unfolding decode encoding
decode-encoding v o rest h =
    let front : List ℕ = lead 9 (v / 128) in
    ground (
      arith,
      append_assoc front (v % 128 ∷ []) rest,
      decode_from-snoc o (v % 128) front rest,
      decode_loop-lead 9 (v / 128) o (v % 128 ∷ rest),
      last_byte (v % 128) (o + length front) (v / 128) (length front) rest,
      length-append front (v % 128 ∷ []),
    )

-- `decode` at any offset reads back the 64-bit value that `encode_into` appended there, moves the
-- offset by the 1 to 10 bytes of the encoding, and leaves what follows.
pub decode-encode_into :
    (v o : ℕ) (rest : List ℕ)
    → IsU64 v
    → (decode (record { offset = o; rest = encode_into v [] ++ rest })
        ≡ ok (v, record { offset = o + length (encode_into v []); rest = rest }))
      × (1 ≤ length (encode_into v []))
      × (length (encode_into v []) ≤ 10)
decode-encode_into v o rest h =
    let (lo, hi) = length-encoding v in
    rw (encode_into_lem v [] h) (decode-encoding v o rest h, lo, hi)

decode_loop-append :
    (bs more : List ℕ) (o a k v : ℕ) (c : Cursor)
    → decode_loop bs o a k ≡ ok (v, c)
    → decode_loop (bs ++ more) o a k ≡ ok (v, record c { rest = c.rest ++ more })
unfolding decode_loop
decode_loop-append [] more o a k v c e = cc
decode_loop-append (b ∷ bs) more o a k v c e =
    ground
      (arith, decode_loop-append bs more (o + 1) (bit_or (shl64 a 7) (low_bits b 7)) (k + 1) v c)

decode_loop-append_too_long :
    (bs more : List ℕ) (o a k : ℕ)
    → decode_loop bs o a k ≡ err too_long
    → decode_loop (bs ++ more) o a k ≡ err too_long
unfolding decode_loop
decode_loop-append_too_long [] more o a k e = cc
decode_loop-append_too_long (b ∷ bs) more o a k e =
    ground (
      arith,
      decode_loop-append_too_long bs more (o + 1) (bit_or (shl64 a 7) (low_bits b 7)) (k + 1),
    )

decode_loop-ne-no_data : (bs : List ℕ) (o a k : ℕ) → decode_loop bs o a k ≢ err no_data
unfolding decode_loop
decode_loop-ne-no_data [] o a k e = cc
decode_loop-ne-no_data (b ∷ bs) o a k e =
    ground (arith, decode_loop-ne-no_data bs (o + 1) (bit_or (shl64 a 7) (low_bits b 7)) (k + 1))

-- A sequence cut short: a non-empty proper prefix of what `encode_into` appends is refused as
-- truncated.
pub decode_truncated :
    (v o x b : ℕ) (front back : List ℕ)
    → IsU64 v
    → encode_into v [] ≡ (b ∷ front) ++ (x ∷ back)
    → decode (record { offset = o; rest = b ∷ front }) ≡ err truncated
unfolding decode decode_from
decode_truncated v o x b front back h e = elim (Result-cases (decode_loop (b ∷ front) o 0 0)) [
  | inl ((u, c), r) ↦ ground (
    arith,
    whole,
    decode_loop-append (b ∷ front) (x ∷ back) o 0 0 u c r,
    length-append c.rest (x ∷ back),
  )
  | inr (no_data, r) ↦ absurd (decode_loop-ne-no_data (b ∷ front) o 0 0 r)
  | inr (too_long, r) ↦ cc (whole, decode_loop-append_too_long (b ∷ front) (x ∷ back) o 0 0 r)
  | inr (truncated, r) ↦ r
]
  where
    whole :
        decode_loop ((b ∷ front) ++ (x ∷ back)) o 0 0
        ≡ ok (v, record { offset = o + length ((b ∷ front) ++ (x ∷ back)); rest = [] })
    whole = rw (append-nil, e) at (decode-encode_into v o [] h).0
