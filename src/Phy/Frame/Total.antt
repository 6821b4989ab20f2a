-- ===== src/Phy/Frame/Total.antt =====
-- The parsers stay inside of the bits that they are given.
use qpsk_b.Base.{
  ℕ, zero, suc, ◌+◌, ◌-◌, ◌*◌, ◌/◌, ◌%◌, ◌^◌, ◌≤◌, ◌≡◌, Bool-cases, inl, inr, List, [], ◌∷◌, some,
  ltb, ltb→le, length, length-drop, drop, bit_or, bit_and, arith,
}
use qpsk_b.Base.Result.{ok, Returns, Returns-bind, Returns-weaken}
use qpsk_b.Phy.Frame.{
  extract_loop, extract_bits, byte_loop, payload_loop, parse_fields, parse_unchecked, parse,
  checked,
}

extract_loop-Returns :
    (count value : ℕ) (bits : List ℕ)
    → count ≤ length bits
    → Returns (λ v. Unit) (extract_loop count value bits)
unfolding extract_loop
extract_loop-Returns zero value bits h = tt
extract_loop-Returns (suc count) value [] h = absurd (omega arith)
extract_loop-Returns (suc count) value (bit ∷ bits) h =
    extract_loop-Returns count (bit_or (value * 2 % 2 ^ 32) (bit_and bit 1)) bits (omega arith)

extract_bits-Returns :
    (bits : List ℕ) (offset count : ℕ)
    → offset + count ≤ length bits
    → Returns (λ v. Unit) (extract_bits bits offset count)
unfolding extract_bits
extract_bits-Returns bits offset count h =
    extract_loop-Returns count 0 (drop offset bits) (omega (arith, length-drop offset bits))

byte_loop-Returns :
    (b byte : ℕ) (bits : List ℕ)
    → b ≤ length bits
    → Returns (λ r. length r.1 + b ≡ length bits) (byte_loop b byte bits)
unfolding byte_loop
byte_loop-Returns zero byte bits h = omega arith
byte_loop-Returns (suc b) byte [] h = absurd (omega arith)
byte_loop-Returns (suc b) byte (bit ∷ bits) h =
    Returns-weaken (λ r. length r.1 + b ≡ length bits) _ _ (λ r e. omega (arith, e))
      (byte_loop-Returns b (bit_or byte (bit_and bit 1 * 2 ^ b % 256)) bits (omega arith))

payload_loop-Returns :
    (n : ℕ) (bits : List ℕ)
    → n * 8 ≤ length bits
    → Returns (λ r. length r.1 + n * 8 ≡ length bits) (payload_loop n bits)
unfolding payload_loop
payload_loop-Returns zero bits h = omega arith
payload_loop-Returns (suc n) bits h =
    Returns-bind (λ r. length r.1 + 8 ≡ length bits) _ (byte_loop 8 0 bits) _
      (byte_loop-Returns 8 0 bits (omega arith))
      (λ r e.
        Returns-bind (λ s. length s.1 + n * 8 ≡ length r.1) _ (payload_loop n r.1) _
          (payload_loop-Returns n r.1 (omega (arith, e))) (λ s f. omega (arith, e, f)))

parse_fields-Returns :
    (bits : List ℕ) → 35 + 32 ≤ length bits → Returns (λ frame. Unit) (parse_fields bits)
unfolding parse_fields
parse_fields-Returns bits h =
    let any = λ (v : ℕ). Unit in
    let count = length bits - 35 - 32 in
    Returns-bind any _ _ _ (extract_bits-Returns bits 0 16 (omega arith)) (λ v u.
      Returns-bind any _ _ _ (extract_bits-Returns bits 16 4 (omega arith)) (λ v u.
        Returns-bind any _ _ _ (extract_bits-Returns bits 20 1 (omega arith)) (λ v u.
          Returns-bind any _ _ _ (extract_bits-Returns bits 21 2 (omega arith)) (λ v u.
            Returns-bind any _ _ _ (extract_bits-Returns bits 23 12 (omega arith)) (λ v u.
              Returns-bind (λ r. length r.1 + count / 8 * 8 ≡ length (drop 35 bits)) _ _ _
                (payload_loop-Returns (count / 8) (drop 35 bits)
                  (omega (arith, length-drop 35 bits)))
                (λ r e.
                  Returns-bind any _ _ _
                    (extract_bits-Returns r.1 (count % 8) 32
                      (omega (arith, e, length-drop 35 bits)))
                    (λ v u. tt)))))))

-- Whatever the bits, neither parser reads past their end.
pub parse-Returns :
    (bits : List ℕ) → Returns (λ o. Unit) (parse bits) × Returns (λ o. Unit) (parse_unchecked bits)
unfolding parse parse_unchecked
parse-Returns bits = elim (Bool-cases (ltb (length bits) (35 + 32))) [
  | inl t ↦ rw (Returns, t) (tt, tt)
  | inr f ↦
      let fields = parse_fields-Returns bits (ltb→le _ _ f) in
      rw (Returns, f)
        (
          Returns-bind (λ o. Unit) (λ o. Unit) (parse_fields bits) (λ frame. ok (checked frame))
              fields (λ frame u. tt),
          Returns-bind (λ o. Unit) (λ o. Unit) (parse_fields bits) (λ frame. ok (some frame)) fields
              (λ frame u. tt),
        )
]
