-- ===== src/Ltp/Sdnv/Bounds.antt =====
-- `decode` on any input, well formed or not.
use qpsk_b.Base.{ℕ, ◌+◌, ◌*◌, ◌%◌, ◌^◌, ◌≤◌, ◌<◌, ◌≡◌, List, [], ◌∷◌, length, bit_or, arith}
use qpsk_b.Base.Bits.{IsU64, bit_or_disjoint, shl64, low_bits}
use qpsk_b.Base.Result.{ok}
use qpsk_b.Ltp.Sdnv.{Cursor, decode_loop, decode_from, decode}

value-IsU64 : (a b : ℕ) → IsU64 (bit_or (shl64 a 7) (low_bits b 7))
value-IsU64 a b =
    let split : shl64 a 7 ≡ a % 2 ^ 57 * 2 ^ 7 = omega arith in
    rw split (
      let joined : bit_or (a % 2 ^ 57 * 2 ^ 7) (low_bits b 7) ≡ a % 2 ^ 57 * 2 ^ 7 + low_bits b 7 =
        bit_or_disjoint 7 (a % 2 ^ 57) (low_bits b 7) (omega arith) in
      omega (arith, joined))

-- What a successful `decode` from `n` bytes at offset `o` returns.
pub record Took (o n : ℕ) (v : ℕ) (c : Cursor) : Type 0 where
  pub value : IsU64 v
  pub shorter : length c.rest < n
  pub kept : c.offset + length c.rest ≡ o + n
  pub bounded : c.offset ≤ o + 10

decode_loop-Took :
    (bytes : List ℕ) (o a k v : ℕ) (c : Cursor)
    → k ≤ 10
    → decode_loop bytes o a k ≡ ok (v, c)
    → IsU64 v
      × (length c.rest < length bytes)
      × (c.offset + length c.rest ≡ o + length bytes)
      × (c.offset + k ≤ o + 10)
unfolding decode_loop
decode_loop-Took [] o a k v c hk e = cc
decode_loop-Took (b ∷ bs) o a k v c hk e = ground (
  arith,
  value-IsU64 a b,
  decode_loop-Took bs (o + 1) (bit_or (shl64 a 7) (low_bits b 7)) (k + 1) v c,
)

decode_from-Took :
    (o : ℕ) (bytes : List ℕ) (v : ℕ) (c : Cursor)
    → decode_from o bytes ≡ ok (v, c)
    → Took o (length bytes) v c
unfolding decode_from
decode_from-Took o [] v c e = cc
decode_from-Took o (b ∷ bs) v c e = ground (arith, decode_loop-Took (b ∷ bs) o 0 0 v c)

-- Whatever the bytes are, a `decode` that succeeds returns a 64-bit value, takes 1 to 10 bytes and
-- keeps the cursor inside the input.
pub decode-Took :
    (c c' : Cursor) (v : ℕ) → decode c ≡ ok (v, c') → Took c.offset (length c.rest) v c'
unfolding decode
decode-Took c c' v e = decode_from-Took c.offset c.rest v c' e
