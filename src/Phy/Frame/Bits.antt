-- ===== src/Phy/Frame/Bits.antt =====
-- Numbers written as bits, the highest first, and read again.
use Prim.Native.Nat.{digits, bit_and-bitwise}
use native.Mathlib.Nat.{div-le_self, div-eq_of_lt, div-div-eq-div-mul, pow-suc}
use qpsk_b.Base.{
  ℕ, zero, suc, ◌+◌, ◌*◌, ◌/◌, ◌%◌, ◌^◌, ◌<◌, ◌≤◌, ◌≡◌, refl, ap, sym, ◌∙◌, List, [], ◌∷◌, ◌++◌,
  bit_and, bit_or, min, arith, All, length, length-append,
}
use qpsk_b.Base.Bits.{IsByte, agree_below, agree_below→eq, bit_or_disjoint}
use qpsk_b.Base.Result.{ok, err, ◌>>=◌}
use qpsk_b.Phy.Frame.{push_bits, extract_loop, byte_loop, payload_loop, payload_bits}

and_digits-zero : (n a : ℕ) → digits (λ b. 0) min n a 0 ≡ 0
and_digits-zero zero a = refl
and_digits-zero (suc n) zero = refl
and_digits-zero (suc n) (suc a) = omega (arith, and_digits-zero n (suc a / 2))

-- `x & 1`.
pub bit_and-one : (a : ℕ) → bit_and a 1 ≡ a % 2
bit_and-one zero = bit_and-bitwise 0 1
bit_and-one (suc a) = omega (arith, bit_and-bitwise (suc a) 1, and_digits-zero a (suc a / 2))

and_digits-le : (n a b : ℕ) → digits (λ b. 0) min n a b ≤ b
and_digits-le zero a b = omega arith
and_digits-le (suc n) zero b = omega arith
and_digits-le (suc n) (suc a) b = omega (arith, and_digits-le n (suc a / 2) (b / 2))

pub bit_and-le : (a b : ℕ) → bit_and a b ≤ b
bit_and-le a b = omega (arith, bit_and-bitwise a b, and_digits-le a a b)

-- A code rate in two bits.
pub rate_bits : (r : ℕ) → r < 2 → bit_and r 3 ≡ r
unfolding agree_below
rate_bits = agree_below→eq _ _ 2 refl

halve : (v n : ℕ) → v / 2 ^ suc n ≡ v / 2 ^ n / 2
halve v n = ap (λ (t : ℕ). v / t) (pow-suc 2 n) ∙ sym (div-div-eq-div-mul v (2 ^ n) 2)

append_bit : (a b : ℕ) → b < 2 → bit_or (a * 2) b ≡ a * 2 + b
append_bit a b h = bit_or_disjoint 1 a b h

-- One round of `extract_bits`.
shift_in : (w : ℕ) → w < 2 ^ 32 → bit_or (w / 2 * 2 % 2 ^ 32) (bit_and (bit_and w 1) 1) ≡ w
shift_in w h =
    let low : bit_and (bit_and w 1) 1 ≡ w % 2 =
      bit_and-one (bit_and w 1) ∙ ap (λ (t : ℕ). t % 2) (bit_and-one w) ∙ omega arith in
    let high : w / 2 * 2 % 2 ^ 32 ≡ w / 2 * 2 = omega arith in
    rw (low, high) (append_bit (w / 2) (w % 2) (omega arith) ∙ omega arith)

-- Reading on from the bits above `n` gives the whole number.
extract_loop-push_bits :
    (n v : ℕ) (rest : List ℕ)
    → v < 2 ^ 32
    → extract_loop n (v / 2 ^ n) (push_bits n v ++ rest) ≡ ok v
unfolding extract_loop push_bits
extract_loop-push_bits zero v rest h = ap ok (omega arith)
extract_loop-push_bits (suc n) v rest h =
    let below : v / 2 ^ n < 2 ^ 32 = omega (arith, div-le_self v (2 ^ n)) in
    let digit =
      ap (λ (t : ℕ). bit_or (t * 2 % 2 ^ 32) (bit_and (bit_and (v / 2 ^ n) 1) 1)) (halve v n)
      ∙ shift_in (v / 2 ^ n) below in
    ap (λ t. extract_loop n t (push_bits n v ++ rest)) digit ∙ extract_loop-push_bits n v rest h

-- A number of `n` bits, written and read.
pub extract-push_bits :
    (n v : ℕ) (rest : List ℕ)
    → v < 2 ^ n
    → v < 2 ^ 32
    → extract_loop n 0 (push_bits n v ++ rest) ≡ ok v
extract-push_bits n v rest h w =
    ap (λ t. extract_loop n t (push_bits n v ++ rest)) (sym (div-eq_of_lt h))
    ∙ extract_loop-push_bits n v rest w

pub length-push_bits : (n v : ℕ) → length (push_bits n v) ≡ n
unfolding push_bits
length-push_bits zero v = refl
length-push_bits (suc n) v = ap suc (length-push_bits n v)

-- What `byte_loop` makes of the eight bits of a byte.
assembled : ℕ → ℕ
assembled v = elim (byte_loop 8 0 (push_bits 8 v)) [ ok p ↦ p.0 | err x ↦ 256 ]

assembled_lem : (v : ℕ) → v < 256 → assembled v ≡ v
unfolding assembled agree_below byte_loop push_bits
assembled_lem = agree_below→eq assembled (λ v. v) 256 refl

byte_loop-push_bits :
    (v : ℕ) (rest : List ℕ) → v < 256 → byte_loop 8 0 (push_bits 8 v ++ rest) ≡ ok (v, rest)
unfolding byte_loop push_bits assembled
byte_loop-push_bits v rest h = ap (λ (t : ℕ). ok (t, rest)) (assembled_lem v h)

pub payload_loop-payload_bits :
    (bytes rest : List ℕ)
    → All IsByte bytes
    → payload_loop (length bytes) (payload_bits bytes ++ rest) ≡ ok (bytes, rest)
unfolding payload_loop payload_bits push_bits
payload_loop-payload_bits [] rest h = refl
payload_loop-payload_bits (byte ∷ bytes) rest h =
    ap
      (λ r. do
        (byte, bits) ← r
        (bytes, bits) ← payload_loop (length bytes) bits
        ok (byte ∷ bytes, bits))
      (byte_loop-push_bits byte (payload_bits bytes ++ rest) h.0)
    ∙ ap (λ r. do (bytes, bits) ← r; ok (byte ∷ bytes, bits))
        (payload_loop-payload_bits bytes rest h.1)

pub length-payload_bits : (bytes : List ℕ) → length (payload_bits bytes) ≡ length bytes * 8
unfolding payload_bits
length-payload_bits [] = refl
length-payload_bits (byte ∷ bytes) = omega (
  arith,
  length-append (push_bits 8 byte) (payload_bits bytes),
  length-push_bits 8 byte,
  length-payload_bits bytes,
)
