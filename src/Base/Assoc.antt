-- ===== src/Base/Assoc.antt =====
-- `std::unordered_map` as an association list: what a key holds, and what each operation changes.
use Prim.Native.Nat.{ℕ, suc, ◌≤◌, ◌+◌}
use mathlib.Core.Path.{◌≡◌, refl, ap, sym, subst}
use mathlib.Core.Logic.{◌↔◌, inl, inr}
use mathlib.Core.Bool.{Bool, true}
use mathlib.Core.Option.{Option, none, some}
use mathlib.Core.List.{List, [], ◌∷◌}
use native.Mathlib.Omega.{arith}
use qpsk_b.Base.Tests.{if◌then◌else◌, ==_iff, Bool-cases}
use qpsk_b.Base.Tests
use qpsk_b.Base.Lists.{length}

-- `operator==` of a key type.
pub record Eq {ℓ} (K : Type ℓ) : Type ℓ where
  pub beq : K → K → Bool
  pub beq_iff : (a b : K) → (beq a b ≡ true) ↔ (a ≡ b)

instance abbrev pub nat_eq : Eq ℕ
nat_eq = record { beq = Tests.◌==◌; beq_iff = ==_iff }

pub beq_refl {ℓ} : {K : Type ℓ} ⦃e : Eq K⦄ (k : K) → e.beq k k ≡ true
beq_refl ⦃e⦄ k = (e.beq_iff k k).1 refl

module _ {ℓ κ} {K : Type ℓ} {V : Type κ} ⦃e : Eq K⦄ where
  -- `find`
  unfoldable pub lookup : K → List (K × V) → Option V
  lookup k [] = none
  lookup k ((j, v) ∷ m) = if e.beq j k then some v else lookup k m

  -- `m[k] = v`
  unfoldable pub insert : K → V → List (K × V) → List (K × V)
  insert k v [] = (k, v) ∷ []
  insert k v ((j, w) ∷ m) = if e.beq j k then (j, v) ∷ m else (j, w) ∷ insert k v m

  -- `emplace`: a key that is there keeps its value.
  unfoldable pub emplace : K → V → List (K × V) → List (K × V)
  emplace k v [] = (k, v) ∷ []
  emplace k v ((j, w) ∷ m) = if e.beq j k then (j, w) ∷ m else (j, w) ∷ emplace k v m

  unfoldable pub erase : K → List (K × V) → List (K × V)
  erase k [] = []
  erase k ((j, w) ∷ m) = if e.beq j k then m else (j, w) ∷ erase k m

  pub lookup-insert_self : (k : K) (v : V) (m : List (K × V)) → lookup k (insert k v m) ≡ some v
  unfolding lookup insert
  lookup-insert_self k v [] = rw (beq_refl k)
  lookup-insert_self k v ((j, w) ∷ m) = elim (Bool-cases (e.beq j k)) [
    | inl h ↦ rw (h, h)
    | inr h ↦ rw (h, h) (lookup-insert_self k v m)
  ]

  pub erase-insert : (k : K) (v : V) (m : List (K × V)) → erase k (insert k v m) ≡ erase k m
  unfolding erase insert
  erase-insert k v [] = rw (beq_refl k)
  erase-insert k v ((j, w) ∷ m) = elim (Bool-cases (e.beq j k)) [
    | inl h ↦ rw (h, h) refl
    | inr h ↦ rw (h, h) (ap (λ rest. (j, w) ∷ rest) (erase-insert k v m))
  ]

  pub lookup-emplace_new :
      (k : K) (v : V) (m : List (K × V)) → lookup k m ≡ none → lookup k (emplace k v m) ≡ some v
  unfolding lookup emplace
  lookup-emplace_new k v [] h = rw (beq_refl k)
  lookup-emplace_new k v ((j, w) ∷ m) h = elim (Bool-cases (e.beq j k)) [
    | inl t ↦ cc (rw t at h)
    | inr t ↦ rw (t, t) (lookup-emplace_new k v m (rw t at h))
  ]

  pub lookup-emplace :
      (k : K) (v : V) (m : List (K × V)) → (w : V) × (lookup k (emplace k v m) ≡ some w)
  unfolding lookup emplace
  lookup-emplace k v [] = (v, rw (beq_refl k))
  lookup-emplace k v ((j, w) ∷ m) = elim (Bool-cases (e.beq j k)) [
    | inl t ↦ (w, rw (t, t))
    | inr t ↦ let rest = lookup-emplace k v m in (rest.0, rw (t, t) rest.1)
  ]

  pub length-insert :
      (k : K) (v w : V) (m : List (K × V)) → lookup k m ≡ some w → length (insert k v m) ≡ length m
  unfolding lookup insert
  length-insert k v w [] h = cc
  length-insert k v w ((j, u) ∷ m) h = elim (Bool-cases (e.beq j k)) [
    | inl t ↦ rw t
    | inr t ↦ rw t (ap suc (length-insert k v w m (rw t at h)))
  ]

  pub length-emplace : (k : K) (v : V) (m : List (K × V)) → length (emplace k v m) ≤ length m + 1
  unfolding emplace
  length-emplace k v [] = omega arith
  length-emplace k v ((j, w) ∷ m) = elim (Bool-cases (e.beq j k)) [
    | inl t ↦ rw t (omega arith)
    | inr t ↦ rw t (omega (arith, length-emplace k v m))
  ]

  pub length-erase : (k : K) (m : List (K × V)) → length (erase k m) ≤ length m
  unfolding erase
  length-erase k [] = omega arith
  length-erase k ((j, w) ∷ m) = elim (Bool-cases (e.beq j k)) [
    | inl t ↦ rw t (omega arith)
    | inr t ↦ rw t (omega (arith, length-erase k m))
  ]

  -- Every value satisfies `P` at its key.
  abbrev pub AllEntries {μ} : (K → V → Type μ) → List (K × V) → Type μ
  AllEntries P [] = Unit {μ}
  AllEntries P ((k, v) ∷ m) = P k v × AllEntries P m

  module _ {μ} (P : K → V → Type μ) where
    -- The key is the one asked for.
    pub lookup-AllEntries :
        (k : K) (v : V) (m : List (K × V)) → AllEntries P m → lookup k m ≡ some v → P k v
    unfolding lookup
    lookup-AllEntries k v [] h q = cc
    lookup-AllEntries k v ((j, w) ∷ m) h q = elim (Bool-cases (e.beq j k)) [
      | inl t ↦
          let same : w ≡ v = cc (rw t at q) in
          subst (λ i. P i v) ((e.beq_iff j k).0 t) (subst (P j) same h.0)
      | inr t ↦ lookup-AllEntries k v m h.1 (rw t at q)
    ]

    pub insert-AllEntries :
        (k : K) (v : V) (m : List (K × V)) → AllEntries P m → P k v → AllEntries P (insert k v m)
    unfolding insert
    insert-AllEntries k v [] h q = (q, tt)
    insert-AllEntries k v ((j, w) ∷ m) h q = elim (Bool-cases (e.beq j k)) [
      | inl t ↦ rw t (subst (λ i. P i v) (sym ((e.beq_iff j k).0 t)) q, h.1)
      | inr t ↦ rw t (h.0, insert-AllEntries k v m h.1 q)
    ]

    pub emplace-AllEntries :
        (k : K) (v : V) (m : List (K × V)) → AllEntries P m → P k v → AllEntries P (emplace k v m)
    unfolding emplace
    emplace-AllEntries k v [] h q = (q, tt)
    emplace-AllEntries k v ((j, w) ∷ m) h q = elim (Bool-cases (e.beq j k)) [
      | inl t ↦ rw t h
      | inr t ↦ rw t (h.0, emplace-AllEntries k v m h.1 q)
    ]

    pub erase-AllEntries : (k : K) (m : List (K × V)) → AllEntries P m → AllEntries P (erase k m)
    unfolding erase
    erase-AllEntries k [] h = tt
    erase-AllEntries k ((j, w) ∷ m) h = elim (Bool-cases (e.beq j k)) [
      | inl t ↦ rw t h.1
      | inr t ↦ rw t (h.0, erase-AllEntries k m h.1)
    ]
