-- ===== src/Phy/FecEncoder/Packing.antt =====
-- The bytes that `pack` makes, read again as bits.
use native.Mathlib.Nat.{div-div-eq-div-mul, pow-suc, mul_comm, pow-le-pow_right}
use qpsk_b.Base.{
  ℕ, zero, suc, ◌+◌, ◌-◌, ◌*◌, ◌/◌, ◌%◌, ◌^◌, ◌≤◌, ◌<◌, ◌≡◌, refl, ap, ◌∙◌, sym, inl, inr, List, [],
  ◌∷◌, ◌++◌, append-nil, append_assoc, length, take, take-append_length, All, Bool-cases, ◌==◌,
  bit_and, bit_or, ltb, lt→ltb, true, arith,
}
use qpsk_b.Base.Bits.{shr, IsByte, bit_or_disjoint}
use qpsk_b.Phy.Frame.{push_bits, payload_bits}
use qpsk_b.Phy.Frame.Bits.{bit_and-one}
use qpsk_b.Phy.FecEncoder.{pack}

halved : (v b n : ℕ) → b < 2 → (v * 2 + b) / 2 ^ suc n ≡ v / 2 ^ n
halved v b n h =
    ap (λ (t : ℕ). (v * 2 + b) / t) (pow-suc 2 n ∙ mul_comm (2 ^ n) 2)
    ∙ sym (div-div-eq-div-mul (v * 2 + b) 2 (2 ^ n))
    ∙ ap (λ (t : ℕ). t / 2 ^ n) (omega arith)

-- A bit shifted in from below is the last one written.
push_bits-shift : (n v b : ℕ) → b < 2 → push_bits (suc n) (v * 2 + b) ≡ push_bits n v ++ (b ∷ [])
unfolding push_bits
push_bits-shift zero v b h = ap (λ (t : ℕ). t ∷ []) (bit_and-one ((v * 2 + b) / 1) ∙ omega arith)
push_bits-shift (suc n) v b h =
    let first : bit_and (shr (v * 2 + b) (suc n)) 1 ≡ bit_and (shr v n) 1 =
      ap (λ (t : ℕ). bit_and t 1) (halved v b n h) in
    let rest = push_bits-shift n v b h in cc

-- Zeros shifted in from below follow the bits.
push_bits-zeros :
    (k n v : ℕ) → (zeros : List ℕ) × (push_bits (n + k) (v * 2 ^ k) ≡ push_bits n v ++ zeros)
push_bits-zeros zero n v =
    let q : n + 0 ≡ n = omega arith in
    let w : v * 1 ≡ v = omega arith in ([], rw (q, w, append-nil) refl)
push_bits-zeros (suc k) n v =
    let (zeros, e) = push_bits-zeros k n v in
    let q : n + suc k ≡ suc (n + k) = omega arith in
    let w : v * 2 ^ suc k ≡ v * 2 ^ k * 2 + 0 =
      omega (arith, ap (λ (t : ℕ). v * t) (pow-suc 2 k)) in
    (
      zeros ++ (0 ∷ []),
      ap (λ m. push_bits m (v * 2 ^ suc k)) q
          ∙ ap (push_bits (suc (n + k))) w
          ∙ push_bits-shift (n + k) (v * 2 ^ k) 0 (omega arith)
          ∙ ap (λ l. l ++ (0 ∷ [])) e
          ∙ append_assoc (push_bits n v) zeros (0 ∷ []),
    )

lt-shifted : (k n v : ℕ) → v < 2 ^ n → v * 2 ^ k < 2 ^ (n + k)
lt-shifted zero n v h = let q : n + 0 ≡ n = omega arith in rw q (omega arith)
lt-shifted (suc k) n v h =
    let q : n + suc k ≡ suc (n + k) = omega arith in
    rw q (omega (arith, lt-shifted k n v h, pow-suc 2 (n + k), ap (λ (t : ℕ). v * t) (pow-suc 2 k)))

push_bits-zero : (v : ℕ) → push_bits 0 v ≡ []
unfolding push_bits
push_bits-zero v = refl

payload_bits-cons :
    (byte : ℕ) (bytes : List ℕ)
    → payload_bits (byte ∷ bytes) ≡ push_bits 8 byte ++ payload_bits bytes
unfolding payload_bits
payload_bits-cons byte bytes = refl

-- The byte that the bits run out in.
last_byte :
    (n byte : ℕ)
    → n < 8
    → byte < 2 ^ n
    → (zeros : List ℕ) × (payload_bits (byte * 2 ^ (8 - n) % 256 ∷ []) ≡ push_bits n byte ++ zeros)
unfolding payload_bits
last_byte n byte h small =
    let (zeros, e) = push_bits-zeros (8 - n) n byte in
    let q : n + (8 - n) ≡ 8 = omega arith in
    let fits : byte * 2 ^ (8 - n) < 256 =
      omega (arith, lt-shifted (8 - n) n byte small, ap (λ (t : ℕ). 2 ^ t) q) in
    let same : byte * 2 ^ (8 - n) % 256 ≡ byte * 2 ^ (8 - n) = omega arith in
    (
      zeros,
      append-nil (push_bits 8 (byte * 2 ^ (8 - n) % 256))
          ∙ ap (push_bits 8) same
          ∙ ap (λ m. push_bits m (byte * 2 ^ (8 - n))) (sym q)
          ∙ e,
    )

-- A bit enters the current byte.
entered :
    (byte n bit : ℕ) → n < 8 → byte < 2 ^ n → bit < 2 → bit_or (byte * 2) bit % 256 ≡ byte * 2 + bit
entered byte n bit h small i =
    let bound : 2 ^ n ≤ 128 =
      pow-le-pow_right {n = 2} (omega arith) {i = n} {j = 7} (omega arith) in
    omega (arith, bit_or_disjoint 1 byte bit i)

with_bit :
    (byte n bit : ℕ)
    → n < 8
    → byte < 2 ^ n
    → bit < 2
    → push_bits (n + 1) (bit_or (byte * 2) bit % 256) ≡ push_bits n byte ++ (bit ∷ [])
with_bit byte n bit h small i =
    let q : n + 1 ≡ suc n = omega arith in
    ap (λ m. push_bits m (bit_or (byte * 2) bit % 256)) q
    ∙ ap (push_bits (suc n)) (entered byte n bit h small i)
    ∙ push_bits-shift n byte bit i

-- The output of `pack` begins with the bits: those of the current byte, then the others.
payload_bits-pack :
    (byte n : ℕ) (bits : List ℕ)
    → n < 8
    → byte < 2 ^ n
    → All (λ b. b < 2) bits
    → (zeros : List ℕ) × (payload_bits (pack byte n bits) ≡ push_bits n byte ++ (bits ++ zeros))
unfolding pack
payload_bits-pack byte zero [] h small i = ([], unfold payload_bits push_bits in refl)
payload_bits-pack byte (suc n) [] h small i =
    let some_left : ltb 0 (suc n) ≡ true = lt→ltb 0 (suc n) (omega arith) in
    rw some_left (last_byte (suc n) byte h small)
payload_bits-pack byte n (bit ∷ bits) h small i = elim (Bool-cases (n + 1 == 8)) [
  | inl full ↦
      let q : 8 ≡ n + 1 = ground arith in
      let next = bit_or (byte * 2) bit % 256 in
      let (zeros, rest) = payload_bits-pack 0 0 bits (omega arith) (omega arith) i.1 in
      let first = ap (λ m. push_bits m next) q ∙ with_bit byte n bit h small i.0 in
      (
        zeros,
        rw full (
            payload_bits-cons next (pack 0 0 bits)
            ∙ ap (λ l. l ++ payload_bits (pack 0 0 bits)) first
            ∙ append_assoc (push_bits n byte) (bit ∷ []) (payload_bits (pack 0 0 bits))
            ∙ ap (λ l. push_bits n byte ++ (bit ∷ l))
                (rest ∙ ap (λ l. l ++ (bits ++ zeros)) (push_bits-zero 0))),
      )
  | inr more ↦
      let next = bit_or (byte * 2) bit % 256 in
      let power : 2 ^ (n + 1) ≡ 2 ^ n * 2 = ap (λ (t : ℕ). 2 ^ t) (omega arith) ∙ pow-suc 2 n in
      let (zeros, rest) =
        payload_bits-pack next (n + 1) bits (ground arith)
          (omega (arith, entered byte n bit h small i.0, power)) i.1 in
      (
        zeros,
        rw more (
            rest
            ∙ ap (λ l. l ++ (bits ++ zeros)) (with_bit byte n bit h small i.0)
            ∙ append_assoc (push_bits n byte) (bit ∷ []) (bits ++ zeros)),
      )
]

-- The bits that were packed are the first bits of the bytes.
pub take-pack :
    (bits : List ℕ)
    → All (λ b. b < 2) bits
    → take (length bits) (payload_bits (pack 0 0 bits)) ≡ bits
take-pack bits i =
    let (zeros, e) = payload_bits-pack 0 0 bits (omega arith) (omega arith) i in
    ap (take (length bits)) (e ∙ ap (λ l. l ++ (bits ++ zeros)) (push_bits-zero 0))
    ∙ take-append_length bits zeros

pub pack-IsByte : (byte n : ℕ) (bits : List ℕ) → All IsByte (pack byte n bits)
unfolding pack
pack-IsByte byte n [] = elim (Bool-cases (ltb 0 n)) [
  | inl t ↦ rw t (omega arith, tt)
  | inr t ↦ rw t tt
]
pack-IsByte byte n (bit ∷ bits) = elim (Bool-cases (n + 1 == 8)) [
  | inl t ↦ rw t (omega arith, pack-IsByte 0 0 bits)
  | inr t ↦ rw t (pack-IsByte (bit_or (byte * 2) bit % 256) (n + 1) bits)
]
