-- ===== src/Phy/SpscQueue/Threads.antt =====
-- include/qpsk_b200/spsc_queue.h: one producer and one consumer at once. A step is one load or store of
-- an atomic index, or one access to the buffer, of `try_push` or `try_pop`; the steps of the two threads
-- are interleaved in any way. `pushed` and `popped` are the items of the calls that have returned true.
pub mod Invariant
pub mod Safety
use qpsk_b.Base.{ℕ, ◌+◌, ◌%◌, ◌≡◌, true, false, List, [], ◌∷◌, ◌++◌, ◌==◌}
use qpsk_b.Phy.SpscQueue.{SpscQueue, new_queue, write}

-- Where the producer is in `try_push`; `cur` is its `cur_head`.
pub data Producer (A : Type 0) : Type 0 where
  outside : Producer A
  got_head : A → ℕ → Producer A
  has_room : A → ℕ → Producer A
  stored_item : A → ℕ → Producer A

-- Where the consumer is in `try_pop`; `cur` is its `cur_tail`.
pub data Consumer (A : Type 0) : Type 0 where
  outside : Consumer A
  got_tail : ℕ → Consumer A
  has_item : ℕ → Consumer A
  took_item : A → ℕ → Consumer A

pub record Threads (A : Type 0) : Type 0 where
  pub queue : SpscQueue A
  pub producer : Producer A
  pub consumer : Consumer A
  pub pushed : List A
  pub popped : List A

pub data Step {A : Type 0} : Threads A → Threads A → Type 0 where
  load_head :
      (s : Threads A) (item : A)
      → s.producer ≡ Producer.outside
      → Step s (record s { producer = got_head item s.queue.head })
  find_full :
      (s : Threads A) (item : A) (cur : ℕ)
      → s.producer ≡ got_head item cur
      → ((cur + 1) % s.queue.capacity == s.queue.tail) ≡ true
      → Step s (record s { producer = Producer.outside })
  find_room :
      (s : Threads A) (item : A) (cur : ℕ)
      → s.producer ≡ got_head item cur
      → ((cur + 1) % s.queue.capacity == s.queue.tail) ≡ false
      → Step s (record s { producer = has_room item cur })
  store_item :
      (s : Threads A) (item : A) (cur : ℕ)
      → s.producer ≡ has_room item cur
      → Step s (record s {
        queue = record s.queue { slots = write cur item s.queue.slots };
        producer = stored_item item cur;
      })
  store_head :
      (s : Threads A) (item : A) (cur : ℕ)
      → s.producer ≡ stored_item item cur
      → Step s (record s {
        queue = record s.queue { head = (cur + 1) % s.queue.capacity };
        producer = Producer.outside;
        pushed = s.pushed ++ (item ∷ []);
      })
  load_tail :
      (s : Threads A)
      → s.consumer ≡ Consumer.outside
      → Step s (record s { consumer = got_tail s.queue.tail })
  find_empty :
      (s : Threads A) (cur : ℕ)
      → s.consumer ≡ got_tail cur
      → (cur == s.queue.head) ≡ true
      → Step s (record s { consumer = Consumer.outside })
  find_item :
      (s : Threads A) (cur : ℕ)
      → s.consumer ≡ got_tail cur
      → (cur == s.queue.head) ≡ false
      → Step s (record s { consumer = has_item cur })
  take_item :
      (s : Threads A) (cur : ℕ)
      → s.consumer ≡ has_item cur
      → Step s (record s { consumer = took_item (s.queue.slots cur) cur })
  store_tail :
      (s : Threads A) (item : A) (cur : ℕ)
      → s.consumer ≡ took_item item cur
      → Step s (record s {
        queue = record s.queue { tail = (cur + 1) % s.queue.capacity };
        consumer = Consumer.outside;
        popped = s.popped ++ (item ∷ []);
      })

abbrev pub start : {A : Type 0} → A → ℕ → Threads A
start default capacity = record {
  queue = new_queue default capacity;
  producer = Producer.outside;
  consumer = Consumer.outside;
  pushed = [];
  popped = [];
}

pub data Reach {A : Type 0} (s : Threads A) : Threads A → Type 0 where
  here : Reach s s
  next : {t u : Threads A} → Reach s t → Step t u → Reach s u
