-- ===== src/Phy/Decoder/Header.antt =====
-- What `try_decode_frame` reads from symbols that are demapped to the bits of a frame.
use qpsk_b.Base.{
  ℕ, zero, suc, ◌+◌, ◌/◌, ◌%◌, ◌^◌, ◌≤◌, ◌<◌, ◌≡◌, refl, ap, ◌∙◌, sym, Bool, true, false, some,
  List, [], ◌∷◌, ◌++◌, if◌then◌else◌, le→ltb, ◌==◌, length, take, take-append_length, drop, arith,
}
use qpsk_b.Base.Result.{ok, ◌>>=◌}
use qpsk_b.Phy.Samples.{Samples}
use qpsk_b.Phy.Frame.{FrameHeader, flag, push_bits, extract_loop, parse, parse_unchecked}
use qpsk_b.Phy.Frame.Bits.{extract-push_bits}
use qpsk_b.Phy.Frame.RoundTrip.{bits_with, fec-extract}
use qpsk_b.Phy.SymbolMapper.{demap}
use qpsk_b.Phy.Decoder.{
  extract_vec_loop, extract_bits_from_vec, payload_bit_count, RxState, take_payload, decode_payload,
  decode_symbols,
}

extract_vec-eq-extract :
    (n v : ℕ) (bits : List ℕ) {r : ℕ} → extract_loop n v bits ≡ ok r → extract_vec_loop n v bits ≡ r
unfolding extract_vec_loop extract_loop
extract_vec-eq-extract zero v bits e = cc
extract_vec-eq-extract (suc n) v [] e = cc
extract_vec-eq-extract (suc n) v (b ∷ bits) e = extract_vec-eq-extract n _ bits e

module _ (h : FrameHeader) (carried : List ℕ) (crc : ℕ) (pad : List ℕ) where
  abbrev pub first_bits : List ℕ
  first_bits = take 36 (bits_with h carried crc ++ pad)

  pub read_length :
      h.payload_length < 2 ^ 16 → extract_bits_from_vec first_bits 0 16 ≡ h.payload_length
  unfolding extract_bits_from_vec bits_with push_bits
  read_length f =
      extract_vec-eq-extract 16 0 first_bits
        (extract-push_bits 16 h.payload_length (drop 16 first_bits) f (omega arith))

  pub read_flag : extract_bits_from_vec first_bits 20 1 ≡ flag h.fec_enabled
  unfolding extract_bits_from_vec bits_with push_bits
  read_flag =
      extract_vec-eq-extract 1 0 (drop 20 first_bits)
        (fec-extract h.fec_enabled (drop 21 first_bits))

  pub read_rate : h.fec_code_rate < 4 → extract_bits_from_vec first_bits 21 2 ≡ h.fec_code_rate
  unfolding extract_bits_from_vec bits_with push_bits
  read_rate f =
      extract_vec-eq-extract 2 0 (drop 21 first_bits)
        (extract-push_bits 2 h.fec_code_rate (drop 23 first_bits) f (omega arith))

flag_test : (fec : Bool) → (if flag fec == 0 then false else true) ≡ fec
flag_test true = refl
flag_test false = refl

module _ (c : Samples) where
  open c use {Sample}

  pub decode_symbols_at :
      (r : RxState) (data_symbols : List Sample) (n : ℕ) (fec : Bool) (rate count : ℕ)
      → 18 ≤ length data_symbols
      → extract_bits_from_vec (demap c (take 18 data_symbols)) 0 16 ≡ n
      → n < 2 ^ 16
      → extract_bits_from_vec (demap c (take 18 data_symbols)) 20 1 ≡ flag fec
      → extract_bits_from_vec (demap c (take 18 data_symbols)) 21 2 ≡ rate
      → rate < 4
      → payload_bit_count n fec rate ≡ some count
      → decode_symbols c r data_symbols ≡ decode_payload c r data_symbols fec count
  unfolding decode_symbols
  decode_symbols_at r data_symbols n fec rate count long e1 small e2 e3 few e4 =
      let w1 : n % 2 ^ 16 ≡ n = omega arith in
      let w3 : rate % 256 ≡ rate = omega arith in
      let l = le→ltb (length data_symbols) 18 long in
      let flags = ap (λ n. if n == 0 then false else true) e2 ∙ flag_test fec in
      rw (l, e1, e2, e3, w1, w3, flag_test fec, e4)
        (ap (λ f. decode_payload c r data_symbols f count) flags)

  pub decode_payload_at :
      (r : RxState) (data_symbols : List Sample) (fec : Bool) (count : ℕ) (bits pad : List ℕ)
      → length bits ≡ 35 + count + 32
      → (35 + count + 32 + 1) / 2 ≤ length data_symbols
      → demap c (take ((35 + count + 32 + 1) / 2) data_symbols) ≡ bits ++ pad
      → decode_payload c r data_symbols fec count ≡ (do
        frame_opt ← if fec then parse_unchecked bits else parse bits
        ok (take_payload r frame_opt))
  unfolding decode_payload
  decode_payload_at r data_symbols fec count bits pad size long e =
      let l = le→ltb (length data_symbols) ((35 + count + 32 + 1) / 2) long in
      let whole = ap (λ n. take n (bits ++ pad)) (sym size) ∙ take-append_length bits pad in
      rw (l, e, whole) refl
