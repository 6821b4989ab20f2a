-- ===== src/Phy/FecDecoder/Trellis.antt =====
-- The shift register as the trellis sees it: its range, its newest bit, and what a branch costs.
use qpsk_b.Base.{ℕ, zero, suc, ◌+◌, ◌*◌, ◌^◌, ◌≤◌, ◌<◌, ◌≡◌, refl, bit_and, bit_or, arith}
use qpsk_b.Base.Bits.{shr, agree_below, agree_below→eq}
use qpsk_b.Phy.Frame.Bits.{bit_and-le}
use qpsk_b.Phy.FecEncoder.{parity, shift, gen_0, gen_1}
use qpsk_b.Phy.FecDecoder.{next_state, mismatch, branch_metric, erasure}

abbrev pub IsBit : ℕ → Type 0
IsBit b = b < 2

-- The encoder and the decoder move the register alike.
pub next_state-eq-shift : (s b : ℕ) → next_state s b ≡ shift s b
unfolding next_state shift
next_state-eq-shift s b = refl

pub next_state-lt : (s b : ℕ) → next_state s b < 128
unfolding next_state
next_state-lt s b = omega (arith, bit_and-le (bit_or (shr s 1) (b * 2 ^ 6)) 0x7F)

newest_zero : (s : ℕ) → s < 128 → bit_and (shr (next_state s 0) 6) 1 ≡ 0
unfolding next_state agree_below
newest_zero = agree_below→eq (λ s. bit_and (shr (next_state s 0) 6) 1) (λ s. 0) 128 refl

newest_one : (s : ℕ) → s < 128 → bit_and (shr (next_state s 1) 6) 1 ≡ 1
unfolding next_state agree_below
newest_one = agree_below→eq (λ s. bit_and (shr (next_state s 1) 6) 1) (λ s. 1) 128 refl

-- The bit that was moved in stands at the top.
pub newest_bit : (s b : ℕ) → s < 128 → IsBit b → bit_and (shr (next_state s b) 6) 1 ≡ b
newest_bit s zero h i = newest_zero s h
newest_bit s (suc zero) h i = newest_one s h
newest_bit s (suc (suc b)) h i = absurd (omega arith)

-- The two bits that can come next make different outputs, for either generator.
pub outputs_0 :
    (s : ℕ) → s < 128 → parity (next_state s 0) gen_0 + parity (next_state s 1) gen_0 ≡ 1
unfolding next_state parity agree_below
outputs_0 =
    agree_below→eq (λ s. parity (next_state s 0) gen_0 + parity (next_state s 1) gen_0) (λ s. 1) 128
      refl

pub outputs_1 :
    (s : ℕ) → s < 128 → parity (next_state s 0) gen_1 + parity (next_state s 1) gen_1 ≡ 1
unfolding next_state parity agree_below
outputs_1 =
    agree_below→eq (λ s. parity (next_state s 0) gen_1 + parity (next_state s 1) gen_1) (λ s. 1) 128
      refl

pub mismatch-le : (rx out : ℕ) → mismatch rx out ≤ 1
unfolding mismatch
mismatch-le rx out = ground arith

pub mismatch_self : (x : ℕ) → mismatch x x ≡ 0
unfolding mismatch
mismatch_self x = ground arith

pub mismatch-erasure : (out : ℕ) → mismatch erasure out ≡ 0
unfolding mismatch
mismatch-erasure out = ground arith

pub mismatch-eq-zero : (rx out : ℕ) → rx < 2 → mismatch rx out ≡ 0 → rx ≡ out
unfolding mismatch
mismatch-eq-zero rx out h e = ground arith

pub branch_metric-le : (rx : ℕ × ℕ) (t : ℕ) → branch_metric rx t ≤ 2
unfolding branch_metric
branch_metric-le rx t =
    omega (arith, mismatch-le rx.0 (parity t gen_0), mismatch-le rx.1 (parity t gen_1))
