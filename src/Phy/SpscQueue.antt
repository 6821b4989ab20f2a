-- ===== src/Phy/SpscQueue.antt =====
-- include/qpsk_b200/spsc_queue.h: the ring buffer between one producer and one consumer. Each call is
-- one step: the atomic indices are read and stored by one thread each. `slots` is the vector by
-- position; the positions used are below its size, the capacity.
pub mod Fifo
pub mod Threads
use qpsk_b.Base.{
  ℕ, ◌+◌, ◌-◌, ◌%◌, ◌<◌, Bool, true, false, Option, none, some, List, [], ◌∷◌, leb, ◌==◌,
  if◌then◌else◌,
}

pub record SpscQueue (A : Type 0) : Type 0 where
  pub capacity : ℕ
  pub slots : ℕ → A
  pub head : ℕ
  pub tail : ℕ

-- The constructor: `buffer_(capacity)` holds default elements.
abbrev pub new_queue : {A : Type 0} → A → ℕ → SpscQueue A
new_queue default capacity = record {
  capacity = capacity;
  slots = λ i. default;
  head = 0;
  tail = 0;
}

-- `buffer_[i] = item`.
abbrev pub write : {A : Type 0} → ℕ → A → (ℕ → A) → ℕ → A
write i item slots j = if i == j then item else slots j

-- The queue after the call, or `none` where it is full.
unfoldable pub try_push : {A : Type 0} → A → SpscQueue A → Option (SpscQueue A)
try_push item q =
    let next_head = (q.head + 1) % q.capacity in
    if next_head == q.tail
    then none
    else some (record q { slots = write q.head item q.slots; head = next_head })

-- The item and the queue after the call, or `none` where it is empty.
unfoldable pub try_pop : {A : Type 0} → SpscQueue A → Option (A × SpscQueue A)
try_pop q =
    if q.tail == q.head
    then none
    else some (q.slots q.tail, record q { tail = (q.tail + 1) % q.capacity })

unfoldable pub size : {A : Type 0} → SpscQueue A → ℕ
size q = if leb q.tail q.head then q.head - q.tail else q.capacity - q.tail + q.head

unfoldable pub empty : {A : Type 0} → SpscQueue A → Bool
empty q = q.head == q.tail

unfoldable pub full : {A : Type 0} → SpscQueue A → Bool
full q = (q.head + 1) % q.capacity == q.tail

-- The producer's calls while the consumer waits.
unfoldable pub push_all : {A : Type 0} → List A → SpscQueue A → SpscQueue A
push_all [] q = q
push_all (item ∷ items) q = elim (try_push item q) [
  | none ↦ push_all items q
  | some q' ↦ push_all items q'
]

-- `pop_wait`, where the producer pushes `meanwhile` before the wait ends: `none` where the time runs
-- out.
unfoldable pub pop_wait : {A : Type 0} → List A → SpscQueue A → Option (A × SpscQueue A)
pop_wait meanwhile q = elim (try_pop q) [
  | some popped ↦ some popped
  | none ↦ let q' = push_all meanwhile q in if empty q' then none else try_pop q'
]
