-- ===== src/Ltp/Sdnv/Encode.antt =====
-- What `encode` writes, in plain arithmetic.
use mathlib.Core.List.{reverse-append}
use mathlib.Core.WellFounded.{Acc}
use qpsk_b.Base.{
  ℕ, zero, suc, ◌+◌, ◌-◌, ◌/◌, ◌%◌, ◌^◌, ◌≤◌, ◌<◌, ◌≡◌, refl, ap, ◌∙◌, true, false, List, [], ◌∷◌,
  ◌++◌, reverse, append_assoc, ◌==◌, if◌then◌else◌, length, take, replicate, All, All-append,
  length-append, length-reverse, Bool-cases, inl, inr, take-append_length, arith,
}
use qpsk_b.Base.Bits.{IsByte, IsU64, set_top_bit}
use qpsk_b.Base.Order.{lt_wf}
use qpsk_b.Ltp.Sdnv.{encode_byte, encode_loop, reversed_into, groups_of, encode, encode_into}

-- The leading groups of `w`, most significant first, each with its continuation bit.
unfoldable pub lead : ℕ → ℕ → List ℕ
lead zero w = []
lead (suc k) w = let rest = lead k (w / 128) in if w == 0 then [] else rest ++ (w % 128 + 128) ∷ []

-- The number `v`: its leading groups, and the last seven bits in a byte of their own.
unfoldable pub encoding : ℕ → List ℕ
unfolding lead
encoding v = lead 9 (v / 128) ++ v % 128 ∷ []

byte_inner : (v : ℕ) → encode_byte v false ≡ v % 128 + 128
unfolding encode_byte
byte_inner v = set_top_bit (v % 128) (omega arith)

encode_loop-lead :
    (k v : ℕ) (tmp : List ℕ) (w : Acc ◌<◌ v)
    → v < 128 ^ k
    → reverse (encode_loop v false tmp w) ≡ lead k v ++ reverse tmp
unfolding encode_loop lead
encode_loop-lead zero v tmp (Acc.intro _ smaller) h = ground arith
encode_loop-lead (suc k) v tmp (Acc.intro _ smaller) h =
    let head : List ℕ = (v % 128 + 128) ∷ [] in
    grind (
      arith,
      byte_inner v,
      λ (w : Acc ◌<◌ (v / 128)). encode_loop-lead k (v / 128) (tmp ++ head) w (omega arith),
      reverse-append tmp head,
      append_assoc (lead k (v / 128)) head (reverse tmp),
    )

encode_loop-first :
    (v : ℕ) (w : Acc ◌<◌ v) → IsU64 v → 0 < v → reverse (encode_loop v true [] w) ≡ encoding v
unfolding encode_loop encode_byte encoding
encode_loop-first v (Acc.intro _ smaller) h pos =
    grind (
      arith,
      λ (w : Acc ◌<◌ (v / 128)). encode_loop-lead 9 (v / 128) (v % 128 ∷ []) w (omega arith),
    )

take-reversed_into :
    (tmp : List ℕ) → take (reversed_into tmp).len (reversed_into tmp).bytes ≡ reverse tmp
unfolding reversed_into
take-reversed_into tmp =
    rw (← length-reverse tmp)
      (take-append_length (reverse tmp) (replicate (10 - length (reverse tmp)) 0))

reverse-groups_of : (v : ℕ) → IsU64 v → 0 < v → reverse (groups_of v) ≡ encoding v
unfolding groups_of
reverse-groups_of v h pos = encode_loop-first v (lt_wf.apply v) h pos

-- The bytes of `encode` that count are the encoding, on every 64-bit value.
pub encode_lem : (v : ℕ) → IsU64 v → take (encode v).len (encode v).bytes ≡ encoding v
unfolding encode
encode_lem v h = elim (Bool-cases (v == 0)) [
  | inl e ↦ let z : v ≡ 0 = ground arith in rw (e, z) (unfold encoding in refl)
  | inr e ↦ rw e (take-reversed_into (groups_of v) ∙ reverse-groups_of v h (ground arith))
]

pub encode_into_lem : (v : ℕ) (out : List ℕ) → IsU64 v → encode_into v out ≡ out ++ encoding v
unfolding encode_into
encode_into_lem v out h = ap (λ t. out ++ t) (encode_lem v h)

lead-length : (k v : ℕ) → length (lead k v) ≤ k
unfolding lead
lead-length zero v = omega arith
lead-length (suc k) v =
    ground (arith, lead-length k (v / 128), length-append (lead k (v / 128)) ((v % 128 + 128) ∷ []))

lead-IsByte : (k v : ℕ) → All IsByte (lead k v)
unfolding lead
lead-IsByte zero v = tt
lead-IsByte (suc k) v = ground (
  arith,
  All-append IsByte (lead k (v / 128)) ((v % 128 + 128) ∷ []) (lead-IsByte k (v / 128))
      (omega arith),
)

pub length-encoding : (v : ℕ) → (1 ≤ length (encoding v)) × (length (encoding v) ≤ 10)
unfolding encoding
length-encoding v =
    omega (arith, lead-length 9 (v / 128), length-append (lead 9 (v / 128)) (v % 128 ∷ []))

pub encoding-IsByte : (v : ℕ) → All IsByte (encoding v)
unfolding encoding
encoding-IsByte v = All-append IsByte (lead 9 (v / 128)) _ (lead-IsByte 9 (v / 128)) (omega arith)
