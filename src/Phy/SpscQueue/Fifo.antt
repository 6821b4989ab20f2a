-- ===== src/Phy/SpscQueue/Fifo.antt =====
-- The ring buffer as a bounded first-in first-out queue.
use mathlib.Core.Option
use mathlib.Core.Path.{subst}
use native.Mathlib.Nat.{mod-eq_of_lt, mod_self}
use qpsk_b.Base.{
  ℕ, zero, suc, ◌+◌, ◌-◌, ◌%◌, ◌<◌, ◌≤◌, ◌≡◌, refl, ap, sym, ◌∙◌, true, false, Option, none, some,
  List, [], ◌∷◌, ◌++◌, inl, inr, Bool-cases, leb, ◌==◌, if◌then◌else◌, length, arith,
}
use qpsk_b.Phy.SpscQueue.{SpscQueue, write, try_push, try_pop, size}

-- The indices are those of slots.
abbrev pub IsValid : {A : Type 0} → SpscQueue A → Type 0
IsValid q = (q.head < q.capacity) × (q.tail < q.capacity)

-- `n` slots from `i` on, around the end.
unfoldable pub read_slots : {A : Type 0} → (ℕ → A) → ℕ → ℕ → ℕ → List A
read_slots slots capacity zero i = []
read_slots slots capacity (suc n) i = slots i ∷ read_slots slots capacity n ((i + 1) % capacity)

-- The items in the queue, the oldest first.
unfoldable pub items : {A : Type 0} → SpscQueue A → List A
items q = read_slots q.slots q.capacity (size q) q.tail

-- The index after `i`.
pub next_index :
    (i capacity : ℕ) → i < capacity → (i + 1) % capacity ≡ (if i + 1 == capacity then 0 else i + 1)
next_index i capacity h = elim (Bool-cases (i + 1 == capacity)) [
  | inl e ↦ let q : i + 1 ≡ capacity = ground arith in rw (e, q) (mod_self capacity)
  | inr e ↦ let below : i + 1 < capacity = ground arith in rw e (mod-eq_of_lt below)
]

-- The number of slots from `i` up to `h`, around the end.
abbrev pub distance : ℕ → ℕ → ℕ → ℕ
distance capacity i h = if leb i h then h - i else capacity - i + h

pub next_index-below : (i capacity : ℕ) → i < capacity → (i + 1) % capacity < capacity
next_index-below i capacity h = rw (next_index i capacity h) (ground arith)

pub distance-next :
    (capacity i h n : ℕ)
    → i < capacity
    → h < capacity
    → distance capacity i h ≡ suc n
    → distance capacity ((i + 1) % capacity) h ≡ n
distance-next capacity i h n li lh d = rw (next_index i capacity li) (ground arith)

-- Filling the slot behind the last one read adds it at the end.
read_slots-write :
    {A : Type 0} (slots : ℕ → A) (capacity n i h : ℕ) (a : A)
    → i < capacity
    → h < capacity
    → suc n ≤ capacity
    → distance capacity i h ≡ n
    → read_slots (write h a slots) capacity (suc n) i ≡ read_slots slots capacity n i ++ a ∷ []
unfolding read_slots
read_slots-write slots capacity zero i h a li lh s d =
    let here : (h == i) ≡ true = ground arith in rw here refl
read_slots-write slots capacity (suc n) i h a li lh s d =
    let other : (h == i) ≡ false = ground arith in
    let rest =
      read_slots-write slots capacity n ((i + 1) % capacity) h a (next_index-below i capacity li) lh
        (omega arith) (distance-next capacity i h n li lh d) in
    rw other (ap (λ t. slots i ∷ t) rest)

pub size_bound : {A : Type 0} (q : SpscQueue A) → IsValid q → size q < q.capacity
unfolding size
size_bound q v = ground arith

pub length-read_slots :
    {A : Type 0} (slots : ℕ → A) (capacity n i : ℕ) → length (read_slots slots capacity n i) ≡ n
unfolding read_slots
length-read_slots slots capacity zero i = refl
length-read_slots slots capacity (suc n) i =
    ap suc (length-read_slots slots capacity n ((i + 1) % capacity))

pub full_test :
    {A : Type 0} (q : SpscQueue A)
    → IsValid q
    → ((q.head + 1) % q.capacity == q.tail) ≡ (size q + 1 == q.capacity)
unfolding size
full_test q v = rw (next_index q.head q.capacity v.0) (ground arith)

pub distance-push :
    {A : Type 0} (q : SpscQueue A)
    → IsValid q
    → (size q + 1 == q.capacity) ≡ false
    → distance q.capacity q.tail ((q.head + 1) % q.capacity) ≡ suc (size q)
unfolding size
distance-push q v f = rw (next_index q.head q.capacity v.0) (ground arith)

-- The queue with the item in the slot at `head`.
abbrev pub pushed : {A : Type 0} → A → SpscQueue A → SpscQueue A
pushed item q = record q { slots = write q.head item q.slots; head = (q.head + 1) % q.capacity }

items-pushed :
    {A : Type 0} (item : A) (q : SpscQueue A)
    → IsValid q
    → (size q + 1 == q.capacity) ≡ false
    → items (pushed item q) ≡ items q ++ item ∷ []
unfolding items size
items-pushed item q v f =
    let bound = size_bound q v in
    ap (λ n. read_slots (write q.head item q.slots) q.capacity n q.tail) (distance-push q v f)
    ∙ read_slots-write q.slots q.capacity (size q) q.tail q.head item v.1 v.0 (omega arith) refl

items-try_push :
    {A : Type 0} (item : A) (q : SpscQueue A)
    → IsValid q
    → Option.map items (try_push item q)
      ≡ (if length (items q) + 1 == q.capacity then none else some (items q ++ item ∷ []))
unfolding items try_push
items-try_push item q v =
    let test = full_test q v in
    let count = length-read_slots q.slots q.capacity (size q) q.tail in
    let bound = size_bound q v in
    elim (Bool-cases (size q + 1 == q.capacity)) [
      | inl e ↦ rw (count, test, e) refl
      | inr e ↦ rw (count, test, e) (ap some (items-pushed item q v e))
    ]

try_push-IsValid :
    {A : Type 0} (item : A) (q q' : SpscQueue A)
    → IsValid q
    → try_push item q ≡ some q'
    → IsValid q' × (q'.capacity ≡ q.capacity)
unfolding try_push
try_push-IsValid item q q' v h = elim (Bool-cases ((q.head + 1) % q.capacity == q.tail)) [
  | inl e ↦ absurd (ground (arith, rw e at h))
  | inr e ↦
      let same : pushed item q ≡ q' = cc (rw e at h) in
      subst (λ r. IsValid r × (r.capacity ≡ q.capacity)) same
        ((next_index-below q.head q.capacity v.0, v.1), refl)
]

try_pop-IsValid :
    {A : Type 0} (q q' : SpscQueue A) (a : A)
    → IsValid q
    → try_pop q ≡ some (a, q')
    → IsValid q' × (q'.capacity ≡ q.capacity)
unfolding try_pop
try_pop-IsValid q q' a v h = elim (Bool-cases (q.tail == q.head)) [
  | inl e ↦ absurd (ground (arith, rw e at h))
  | inr e ↦
      let same : record q { tail = (q.tail + 1) % q.capacity } ≡ q' = cc (rw e at h) in
      subst (λ r. IsValid r × (r.capacity ≡ q.capacity)) same
        ((v.0, next_index-below q.tail q.capacity v.1), refl)
]

-- What a first-in first-out queue gives.
abbrev pub take_first : {A : Type 0} → List A → Option (A × List A)
take_first [] = none
take_first (x ∷ xs) = some (x, xs)

items-none : {A : Type 0} (q : SpscQueue A) → IsValid q → (q.tail == q.head) ≡ true → items q ≡ []
unfolding items size read_slots
items-none q v e =
    let none_in : size q ≡ 0 = ground arith in
    ap (λ n. read_slots q.slots q.capacity n q.tail) none_in

pub items-some :
    {A : Type 0} (q : SpscQueue A)
    → IsValid q
    → (q.tail == q.head) ≡ false
    → items q ≡ q.slots q.tail ∷ items (record q { tail = (q.tail + 1) % q.capacity })
unfolding items size read_slots
items-some q v e =
    let n = size (record q { tail = (q.tail + 1) % q.capacity }) in
    let one_more : size q ≡ suc (size q - 1) = ground arith in
    let rest : n ≡ size q - 1 =
      distance-next q.capacity q.tail q.head (size q - 1) v.1 v.0 one_more in
    ap (λ n. read_slots q.slots q.capacity n q.tail) one_more
    ∙ ap (λ n. q.slots q.tail ∷ read_slots q.slots q.capacity n ((q.tail + 1) % q.capacity))
        (sym rest)

items-try_pop :
    {A : Type 0} (q : SpscQueue A)
    → IsValid q
    → Option.map (λ (popped : A × SpscQueue A). (popped.0, items popped.1)) (try_pop q)
      ≡ take_first (items q)
unfolding try_pop
items-try_pop q v = elim (Bool-cases (q.tail == q.head)) [
  | inl e ↦ rw e (ap take_first (sym (items-none q v e)))
  | inr e ↦ rw e (ap take_first (sym (items-some q v e)))
]

-- The calls on a queue with indices in range are those of a bounded first-in first-out queue: `try_push` is
-- refused exactly where `capacity - 1` items are in, and puts the item behind the others otherwise; `try_pop`
-- gives the oldest item and leaves the others, and is refused exactly where there is none.
pub items-try_push_pop :
    {A : Type 0} (item : A) (q : SpscQueue A)
    → IsValid q
    → (Option.map items (try_push item q)
        ≡ (if length (items q) + 1 == q.capacity then none else some (items q ++ item ∷ [])))
      × (Option.map (λ (popped : A × SpscQueue A). (popped.0, items popped.1)) (try_pop q)
          ≡ take_first (items q))
items-try_push_pop item q v = (items-try_push item q v, items-try_pop q v)
