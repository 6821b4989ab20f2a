-- ===== src/Ltp/Engine/Transfer/Members.antt =====
-- Segments among others: what holds of all of them, and the bytes that they touch.
use mathlib.Core.Path.{subst}
use mathlib.Core.List.{Memᴰ}
use qpsk_b.Base.{ℕ, ◌≡◌, ap, sym, ◌∙◌, true, List, [], ◌∷◌, inl, inr, Bool-cases, arith, All}
use qpsk_b.Ltp.Segment.{LtpSegment}
use qpsk_b.Ltp.SegType.{has_eob}
use qpsk_b.Ltp.Engine.Reassembly.{touches, any_touches, any_ends}

All-Mem {ℓ κ} : {A : Type ℓ} (P : A → Type κ) (xs : List A) (x : A) → All P xs → Memᴰ x xs → P x
All-Mem P [] x a m = elim m [ ]
All-Mem P (y ∷ xs) x a (Memᴰ.head q) = subst P (sym q) a.0
All-Mem P (y ∷ xs) x a (Memᴰ.tail m) = All-Mem P xs x a.1 m

pub All-Mems {ℓ κ} :
    {A : Type ℓ} (P : A → Type κ) (xs ys : List A) → All P xs → All (λ y. Memᴰ y xs) ys → All P ys
All-Mems P xs [] a m = tt
All-Mems P xs (y ∷ ys) a m = (All-Mem P xs y a m.0, All-Mems P xs ys a m.1)

Mem-touches :
    (segs : List LtpSegment) (seg : LtpSegment) (i : ℕ)
    → Memᴰ seg segs
    → touches seg i ≡ true
    → any_touches segs i ≡ true
Mem-touches [] seg i m h = elim m [ ]
Mem-touches (t ∷ segs) seg i (Memᴰ.head q) h =
    let here : touches t i ≡ true = ap (λ s. touches s i) (sym q) ∙ h in ground arith
Mem-touches (t ∷ segs) seg i (Memᴰ.tail m) h =
    let there = Mem-touches segs seg i m h in ground arith

pub Mems-touches :
    (made arrived : List LtpSegment) (i : ℕ)
    → All (λ seg. Memᴰ seg arrived) made
    → any_touches made i ≡ true
    → any_touches arrived i ≡ true
Mems-touches [] arrived i m h = absurd (ground arith)
Mems-touches (seg ∷ made) arrived i m h = elim (Bool-cases (touches seg i)) [
  | inl q ↦ Mem-touches arrived seg i m.0 q
  | inr q ↦ Mems-touches made arrived i m.1 (rw q at h)
]

Mem-ends :
    (segs : List LtpSegment) (seg : LtpSegment)
    → Memᴰ seg segs
    → has_eob seg.segment_type ≡ true
    → any_ends segs ≡ true
Mem-ends [] seg m h = elim m [ ]
Mem-ends (t ∷ segs) seg (Memᴰ.head q) h =
    let here : has_eob t.segment_type ≡ true = ap (λ s. has_eob s.segment_type) (sym q) ∙ h in
    ground arith
Mem-ends (t ∷ segs) seg (Memᴰ.tail m) h = let there = Mem-ends segs seg m h in ground arith

pub Mems-ends :
    (made arrived : List LtpSegment)
    → All (λ seg. Memᴰ seg arrived) made
    → any_ends made ≡ true
    → any_ends arrived ≡ true
Mems-ends [] arrived m h = absurd (ground arith)
Mems-ends (seg ∷ made) arrived m h = elim (Bool-cases (has_eob seg.segment_type)) [
  | inl q ↦ Mem-ends arrived seg m.0 q
  | inr q ↦ Mems-ends made arrived m.1 (rw q at h)
]
