-- ===== src/Phy/SpscQueue/Threads/Invariant.antt =====
-- What holds between the two threads and the indices, and that each step keeps it.
use qpsk_b.Base.{
  ℕ, zero, suc, ◌+◌, ◌%◌, ◌<◌, ◌≡◌, refl, ap, sym, ◌∙◌, false, [], ◌∷◌, ◌++◌, ◌==◌, arith,
}
use qpsk_b.Phy.SpscQueue.{SpscQueue, write, size}
use qpsk_b.Phy.SpscQueue.Fifo
use qpsk_b.Phy.SpscQueue.Fifo.{
  read_slots, items, distance, next_index, next_index-below, distance-next, distance-push,
  full_test, size_bound, items-some,
}
use qpsk_b.Phy.SpscQueue.Threads.{
  Producer, got_head, has_room, stored_item, Consumer, got_tail, has_item, took_item, Threads,
}

module _ {A : Type 0} where
  abbrev pub HasRoom : SpscQueue A → Type 0
  HasRoom q = ((q.head + 1) % q.capacity == q.tail) ≡ false

  abbrev pub HasItem : SpscQueue A → Type 0
  HasItem q = (q.tail == q.head) ≡ false

  -- What a thread has learnt stays true while it is in the call.
  abbrev pub ProducerKnows : SpscQueue A → Producer A → Type 0
  ProducerKnows q Producer.outside = Unit
  ProducerKnows q (got_head item cur) = cur ≡ q.head
  ProducerKnows q (has_room item cur) = (cur ≡ q.head) × HasRoom q
  ProducerKnows q (stored_item item cur) = (cur ≡ q.head) × HasRoom q × (q.slots q.head ≡ item)

  abbrev pub ConsumerKnows : SpscQueue A → Consumer A → Type 0
  ConsumerKnows q Consumer.outside = Unit
  ConsumerKnows q (got_tail cur) = cur ≡ q.tail
  ConsumerKnows q (has_item cur) = (cur ≡ q.tail) × HasItem q
  ConsumerKnows q (took_item item cur) = (cur ≡ q.tail) × HasItem q × (q.slots q.tail ≡ item)

pub record IsConsistent {A : Type 0} (s : Threads A) : Type 0 where
  pub in_range : Fifo.IsValid s.queue
  pub fifo : s.pushed ≡ s.popped ++ items s.queue
  pub producer_knows : ProducerKnows s.queue s.producer
  pub consumer_knows : ConsumerKnows s.queue s.consumer

-- A slot that is not read may be written.
read_slots-elsewhere :
    {A : Type 0} (slots : ℕ → A) (capacity n i h : ℕ) (a : A)
    → i < capacity
    → h < capacity
    → n < capacity
    → distance capacity i h ≡ n
    → read_slots (write h a slots) capacity n i ≡ read_slots slots capacity n i
unfolding read_slots
read_slots-elsewhere slots capacity zero i h a li lh s d = refl
read_slots-elsewhere slots capacity (suc n) i h a li lh s d =
    let other : (h == i) ≡ false = ground arith in
    let rest =
      read_slots-elsewhere slots capacity n ((i + 1) % capacity) h a
        (next_index-below i capacity li) lh (omega arith) (distance-next capacity i h n li lh d) in
    rw other (ap (λ t. slots i ∷ t) rest)

-- One slot more at the end.
read_slots-last :
    {A : Type 0} (slots : ℕ → A) (capacity n i h : ℕ)
    → i < capacity
    → h < capacity
    → distance capacity i h ≡ n
    → read_slots slots capacity (suc n) i ≡ read_slots slots capacity n i ++ (slots h ∷ [])
unfolding read_slots
read_slots-last slots capacity zero i h li lh d =
    let here : i ≡ h = ground arith in ap (λ j. slots j ∷ []) here
read_slots-last slots capacity (suc n) i h li lh d =
    ap (λ t. slots i ∷ t)
      (read_slots-last slots capacity n ((i + 1) % capacity) h (next_index-below i capacity li) lh
        (distance-next capacity i h n li lh d))

module _ {A : Type 0} (q : SpscQueue A) (v : Fifo.IsValid q) where
  pub items-write : (item : A) → items (record q { slots = write q.head item q.slots }) ≡ items q
  unfolding items size
  items-write item =
      read_slots-elsewhere q.slots q.capacity (size q) q.tail q.head item v.1 v.0 (size_bound q v)
        refl

  not_full : HasRoom q → (size q + 1 == q.capacity) ≡ false
  not_full room = sym (full_test q v) ∙ room

  pub items-head :
      HasRoom q
      → items (record q { head = (q.head + 1) % q.capacity }) ≡ items q ++ (q.slots q.head ∷ [])
  unfolding items size
  items-head room =
      ap (λ n. read_slots q.slots q.capacity n q.tail) (distance-push q v (not_full room))
      ∙ read_slots-last q.slots q.capacity (size q) q.tail q.head v.1 v.0 refl

  -- Room stays when the consumer moves on, and items stay when the producer does.
  HasRoom-tail : HasItem q → HasRoom (record q { tail = (q.tail + 1) % q.capacity })
  HasRoom-tail item =
      rw (next_index q.head q.capacity v.0, next_index q.tail q.capacity v.1) (ground arith)

  HasItem-head : HasRoom q → HasItem (record q { head = (q.head + 1) % q.capacity })
  HasItem-head room = ground arith

  pub ProducerKnows-tail :
      (p : Producer A)
      → HasItem q
      → ProducerKnows q p
      → ProducerKnows (record q { tail = (q.tail + 1) % q.capacity }) p
  ProducerKnows-tail Producer.outside i k = tt
  ProducerKnows-tail (got_head item cur) i k = k
  ProducerKnows-tail (has_room item cur) i k = (k.0, HasRoom-tail i)
  ProducerKnows-tail (stored_item item cur) i k = (k.0, HasRoom-tail i, k.2)

  pub ConsumerKnows-head :
      (c : Consumer A)
      → HasRoom q
      → ConsumerKnows q c
      → ConsumerKnows (record q { head = (q.head + 1) % q.capacity }) c
  ConsumerKnows-head Consumer.outside r k = tt
  ConsumerKnows-head (got_tail cur) r k = k
  ConsumerKnows-head (has_item cur) r k = (k.0, HasItem-head r)
  ConsumerKnows-head (took_item item cur) r k = (k.0, HasItem-head r, k.2)

  pub ConsumerKnows-write :
      (c : Consumer A) (item : A)
      → ConsumerKnows q c
      → ConsumerKnows (record q { slots = write q.head item q.slots }) c
  ConsumerKnows-write Consumer.outside item k = tt
  ConsumerKnows-write (got_tail cur) item k = k
  ConsumerKnows-write (has_item cur) item k = k
  ConsumerKnows-write (took_item old cur) item k =
      let other : (q.head == q.tail) ≡ false = ground arith in (k.0, k.1, rw other k.2)
