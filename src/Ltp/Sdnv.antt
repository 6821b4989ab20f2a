-- ===== src/Ltp/Sdnv.antt =====
-- src/ltp_cla/sdnv.cpp: self-delimiting numeric values, seven bits a byte, most significant first.
-- A byte is a number below 256; `x >> 7` is `shr x 7` and `x & 0x7F` is `low_bits x 7`.
pub mod Encode
pub mod Bounds
pub mod RoundTrip
use mathlib.Core.Logic.{dite}
use mathlib.Core.WellFounded.{Acc}
use native.Mathlib.Decide.{dec_lt}
use qpsk_b.Base.{
  ℕ, zero, suc, ◌+◌, ◌-◌, ◌*◌, ◌/◌, ◌%◌, ◌^◌, ◌<◌, Bool, true, false, List, [], ◌∷◌, ◌++◌, reverse,
  ltb, ◌==◌, if◌then◌else◌, length, take, replicate, bit_and, bit_or, arith,
}
use qpsk_b.Base.Bits.{shr, low_bits, shl64}
use qpsk_b.Base.Order.{lt_wf}
use qpsk_b.Base.Result.{Result, ok, err}

abbrev pub max_bytes : ℕ
max_bytes = 10

-- `Encoded`: ten bytes on the stack, of which the first `len` count.
pub record Encoded : Type 0 where
  pub bytes : List ℕ
  pub len : ℕ

-- The body of the loop: seven bits, with the continuation bit on all bytes but the first written.
pub encode_byte : ℕ → Bool → ℕ
encode_byte value first = let byte = low_bits value 7 in if first then byte else bit_or byte 0x80

pub shift_shrinks : (v : ℕ) → 0 < v → shr v 7 < v
shift_shrinks v h = omega arith

-- `while (value > 0)`; `tmp` holds the bytes written, least significant group first.
pub encode_loop : (value : ℕ) → Bool → List ℕ → Acc ◌<◌ value → List ℕ
encode_loop value first tmp (Acc.intro _ smaller) =
    dite (dec_lt 0 value)
      (λ more.
        encode_loop (shr value 7) false (tmp ++ encode_byte value first ∷ [])
          (smaller _ (shift_shrinks value more)))
      (λ _. tmp)

-- The bytes of `tmp` in reverse order, in the array of ten bytes.
unfoldable pub reversed_into : List ℕ → Encoded
reversed_into tmp = record {
  bytes = reverse tmp ++ replicate (max_bytes - length tmp) 0;
  len = length tmp;
}

-- The bytes that the loop writes for `value`.
unfoldable pub groups_of : ℕ → List ℕ
unfolding encode_loop encode_byte lt_wf dec_lt
groups_of value = encode_loop value true [] (lt_wf.apply value)

unfoldable pub encode : ℕ → Encoded
encode value =
    if value == 0
    then record { bytes = replicate max_bytes 0; len = 1 }
    else reversed_into (groups_of value)

-- `encode_into(value, out)` appends the bytes that count.
unfoldable pub encode_into : ℕ → List ℕ → List ℕ
unfolding encode
encode_into value out = let enc = encode value in out ++ take enc.len enc.bytes

-- `data`, `length` and `offset` of the decoders: `rest` is what lies between `offset` and `length`,
-- so that `length` is `offset + length rest`, and `offset >= length` says that `rest` is empty.
pub record Cursor : Type 0 where
  pub offset : ℕ
  pub rest : List ℕ

-- What the three `throw` statements report.
pub data SdnvError : Type 0 where
  no_data too_long truncated : SdnvError

unfoldable pub decode_loop : List ℕ → ℕ → ℕ → ℕ → Result SdnvError (ℕ × Cursor)
decode_loop [] offset value consumed = err truncated
decode_loop (byte ∷ rest) offset value consumed =
    let value' = bit_or (shl64 value 7) (low_bits byte 7) in
    let more = decode_loop rest (offset + 1) value' (consumed + 1) in
    if ltb max_bytes (consumed + 1)
    then err too_long
    else if bit_and byte 0x80 == 0
    then ok (value', record { offset = offset + 1; rest = rest })
    else more

unfoldable pub decode_from : ℕ → List ℕ → Result SdnvError (ℕ × Cursor)
unfolding decode_loop
decode_from offset [] = err no_data
decode_from offset (byte ∷ rest) = decode_loop (byte ∷ rest) offset 0 0

unfoldable pub decode : Cursor → Result SdnvError (ℕ × Cursor)
unfolding decode_from
decode c = decode_from c.offset c.rest
