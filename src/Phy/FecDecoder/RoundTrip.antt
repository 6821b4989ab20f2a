-- ===== src/Phy/FecDecoder/RoundTrip.antt =====
-- The decoder after the encoder, on a channel without errors.
use qpsk_b.Base.{
  ℕ, zero, suc, ◌+◌, ◌*◌, ◌/◌, ◌%◌, ◌^◌, ◌<◌, ◌≡◌, refl, ap, ◌∙◌, sym, List, [], ◌∷◌, ◌++◌, length,
  length-append, take, take-append_length, replicate, get_or, All, All-append, bit_xor, Bool-cases,
  ◌==◌, inl, inr, arith,
}
use qpsk_b.Base.Bits.{shr, IsByte, agree_below, agree_below→eq}
use qpsk_b.Phy.Frame.{push_bits, payload_bits}
use qpsk_b.Phy.Frame.Bits.{length-payload_bits, bit_and-le}
use qpsk_b.Phy.FecEncoder.{
  CodeRate, rate_1_2, rate_3_4, input_bits, rate_half, shift, puncture, puncture_pattern, kept,
  coded_bits, pack, encode,
}
use qpsk_b.Phy.FecEncoder.Length.{length-rate_half, length-punctured}
use qpsk_b.Phy.FecEncoder.Packing.{take-pack, pack-IsByte}
use qpsk_b.Phy.FecDecoder.{
  rate_half_bits, actual_coded_bits, unpack, depuncture, depunctured, pairs, viterbi, pack_bytes,
  ones, errors_between, decoded_bytes, FecDecoder, decode,
}
use qpsk_b.Phy.FecDecoder.Trellis.{IsBit}
use qpsk_b.Phy.FecDecoder.Noiseless.{parity-lt, seen, viterbi-rate_half}

pub push_bits-IsBit : (n v : ℕ) → All IsBit (push_bits n v)
unfolding push_bits
push_bits-IsBit zero v = tt
push_bits-IsBit (suc n) v = (omega (arith, bit_and-le (shr v n) 1), push_bits-IsBit n v)

pub payload_bits-IsBit : (bytes : List ℕ) → All IsBit (payload_bits bytes)
unfolding payload_bits
payload_bits-IsBit [] = tt
payload_bits-IsBit (byte ∷ bytes) =
    All-append IsBit (push_bits 8 byte) (payload_bits bytes) (push_bits-IsBit 8 byte)
      (payload_bits-IsBit bytes)

rate_half-IsBit : (reg : ℕ) (bits : List ℕ) → All IsBit (rate_half reg bits)
unfolding rate_half
rate_half-IsBit reg [] = tt
rate_half-IsBit reg (b ∷ bits) =
    (parity-lt _ _, (parity-lt _ _, rate_half-IsBit (shift reg b) bits))

puncture-IsBit : (i : ℕ) (bits : List ℕ) → All IsBit bits → All IsBit (puncture i bits)
unfolding puncture
puncture-IsBit i [] h = tt
puncture-IsBit i (b ∷ bits) h = elim (Bool-cases (puncture_pattern (i % 6) == 1)) [
  | inl t ↦ rw t (h.0, puncture-IsBit (i + 1) bits h.1)
  | inr t ↦ rw t (puncture-IsBit (i + 1) bits h.1)
]

coded_bits-IsBit : (r : CodeRate) (bits : List ℕ) → All IsBit bits → All IsBit (coded_bits r bits)
unfolding coded_bits
coded_bits-IsBit rate_1_2 bits h = h
coded_bits-IsBit rate_3_4 bits h = puncture-IsBit 0 bits h

length-input_bits : (bytes : List ℕ) → length (input_bits bytes) ≡ length bytes * 8 + 6
unfolding input_bits
length-input_bits bytes =
    omega (arith, length-append {0} (payload_bits bytes) (replicate 6 0), length-payload_bits bytes)

module _ (bytes : List ℕ) (short : length bytes < 2 ^ 16) where
  codeword : List ℕ
  codeword = rate_half 0 (input_bits bytes)

  length-codeword : length codeword ≡ rate_half_bits (length bytes)
  unfolding codeword rate_half_bits
  length-codeword = omega (arith, length-rate_half 0 (input_bits bytes), length-input_bits bytes)

  length-coded :
      (r : CodeRate) → length (coded_bits r codeword) ≡ actual_coded_bits r (length bytes)
  unfolding coded_bits actual_coded_bits
  length-coded rate_1_2 = length-codeword
  length-coded rate_3_4 =
      length-punctured codeword ∙ ap (λ (n : ℕ). n / 6 * 4 + kept (n % 6)) length-codeword

  unpack-encode : (r : CodeRate) → unpack r (encode r bytes) (length bytes) ≡ coded_bits r codeword
  unfolding unpack encode codeword
  unpack-encode r =
      ap (λ n. take n (payload_bits (pack 0 0 (coded_bits r codeword)))) (sym (length-coded r))
      ∙ take-pack (coded_bits r codeword)
          (coded_bits-IsBit r codeword (rate_half-IsBit 0 (input_bits bytes)))

  depunctured-encode :
      (r : CodeRate) → depunctured r (encode r bytes) (length bytes) ≡ seen r codeword
  unfolding depunctured seen coded_bits
  depunctured-encode rate_1_2 = unpack-encode rate_1_2
  depunctured-encode rate_3_4 =
      ap (λ n. depuncture n 0 (unpack rate_3_4 (encode rate_3_4 bytes) (length bytes)))
        (sym length-codeword)
      ∙ ap (depuncture (length codeword) 0) (unpack-encode rate_3_4)

first_byte : ℕ → ℕ
first_byte v = get_or (pack_bytes 0 0 (push_bits 8 v)) 0 256

first_byte_lem : (v : ℕ) → v < 256 → first_byte v ≡ v
unfolding first_byte agree_below pack_bytes push_bits
first_byte_lem = agree_below→eq first_byte (λ v. v) 256 refl

pack_bytes-payload_bits :
    (bytes : List ℕ) → All IsByte bytes → pack_bytes 0 0 (payload_bits bytes) ≡ bytes
unfolding pack_bytes payload_bits push_bits first_byte
pack_bytes-payload_bits [] h = refl
pack_bytes-payload_bits (byte ∷ bytes) h =
    ap (λ (b : ℕ). b ∷ pack_bytes 0 0 (payload_bits bytes)) (first_byte_lem byte h.0)
    ∙ ap (λ l. byte ∷ l) (pack_bytes-payload_bits bytes h.1)

no_ones : (v : ℕ) → v < 256 → ones 8 (bit_xor v v) ≡ 0
unfolding ones agree_below
no_ones = agree_below→eq (λ v. ones 8 (bit_xor v v)) (λ v. 0) 256 refl

pub encode-IsByte : (r : CodeRate) (bytes : List ℕ) → All IsByte (encode r bytes)
unfolding encode
encode-IsByte r bytes = pack-IsByte 0 0 (coded_bits r (rate_half 0 (input_bits bytes)))

errors_between_self : (bytes : List ℕ) → All IsByte bytes → errors_between bytes bytes ≡ 0
unfolding errors_between
errors_between_self [] h = refl
errors_between_self (byte ∷ bytes) h =
    omega (arith, no_ones byte h.0, errors_between_self bytes h.1)

decoded_bytes-encode :
    (r : CodeRate) (bytes : List ℕ)
    → All IsByte bytes
    → length bytes < 2 ^ 16
    → decoded_bytes r (encode r bytes) (length bytes) ≡ bytes
unfolding decoded_bytes codeword input_bits
decoded_bytes-encode r bytes h short =
    let is_bits =
      All-append IsBit (payload_bits bytes) (replicate 6 0) (payload_bits-IsBit bytes)
        (omega arith) in
    let sent =
      ap (λ s. viterbi (pairs s)) (depunctured-encode bytes short r)
      ∙ viterbi-rate_half r (input_bits bytes) is_bits (omega (arith, length-input_bits bytes)) in
    let size : length bytes * 8 % 2 ^ 64 ≡ length (payload_bits bytes) =
      omega (arith, length-payload_bits bytes) in
    ap (λ s. pack_bytes 0 0 (take (length bytes * 8 % 2 ^ 64) s)) sent
    ∙ ap (λ n. pack_bytes 0 0 (take n (payload_bits bytes ++ replicate 6 0))) size
    ∙ ap (pack_bytes 0 0) (take-append_length (payload_bits bytes) (replicate 6 0))
    ∙ pack_bytes-payload_bits bytes h

-- At either code rate, the decoder gives back fewer than 2^16 bytes from what the encoder made of
-- them, and a count of corrected errors within 64 bits stays what it was.
pub decode-fec_encode :
    (d : FecDecoder) (bytes : List ℕ)
    → All IsByte bytes
    → length bytes < 2 ^ 16
    → d.corrected_errors < 2 ^ 64
    → decode d (encode d.code_rate bytes) (length bytes) ≡ (bytes, d)
unfolding decode
decode-fec_encode d bytes h short small =
    let output = decoded_bytes-encode d.code_rate bytes h short in
    let none = errors_between_self (encode d.code_rate bytes) (encode-IsByte d.code_rate bytes) in
    rw (output, none) (ground arith)
