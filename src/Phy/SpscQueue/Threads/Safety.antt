-- ===== src/Phy/SpscQueue/Threads/Safety.antt =====
-- What the invariant of the two threads gives in every state that they can reach.
use mathlib.Core.Path.{subst}
use qpsk_b.Base.{
  ℕ, ◌+◌, ◌%◌, ◌<◌, ◌≡◌, ◌≢◌, refl, ap, sym, ◌∙◌, true, false, List, [], ◌∷◌, ◌++◌, append_assoc,
  ◌==◌, length, arith,
}
use qpsk_b.Phy.SpscQueue.{SpscQueue, write, size}
use qpsk_b.Phy.SpscQueue.Fifo.{
  items, read_slots, items-some, size_bound, length-read_slots, next_index-below,
}
use qpsk_b.Phy.SpscQueue.Threads.{
  Producer, got_head, has_room, stored_item, Consumer, got_tail, has_item, took_item, Threads, Step,
  load_head, find_full, find_room, store_item, store_head, load_tail, find_empty, find_item,
  take_item, store_tail, start, Reach, here, next,
}
use qpsk_b.Phy.SpscQueue.Threads.Invariant.{
  ProducerKnows, ConsumerKnows, IsConsistent, items-write, items-head, ProducerKnows-tail,
  ConsumerKnows-head, ConsumerKnows-write,
}

module _ {A : Type 0} where
  -- What a thread knows at a place where it is.
  producer_at :
      (s : Threads A) (p : Producer A) → s.producer ≡ p → IsConsistent s → ProducerKnows s.queue p
  producer_at s p e i = subst (ProducerKnows s.queue) e i.producer_knows

  consumer_at :
      (s : Threads A) (c : Consumer A) → s.consumer ≡ c → IsConsistent s → ConsumerKnows s.queue c
  consumer_at s c e i = subst (ConsumerKnows s.queue) e i.consumer_knows

  Step-IsConsistent : {s t : Threads A} → Step s t → IsConsistent s → IsConsistent t
  Step-IsConsistent (load_head s item e) i = record {
    in_range = i.in_range;
    fifo = i.fifo;
    producer_knows = refl;
    consumer_knows = i.consumer_knows;
  }
  Step-IsConsistent (find_full s item cur e full) i = record {
    in_range = i.in_range;
    fifo = i.fifo;
    producer_knows = tt;
    consumer_knows = i.consumer_knows;
  }
  Step-IsConsistent (find_room s item cur e room) i =
      let at = producer_at s (got_head item cur) e i in
      record {
        in_range = i.in_range;
        fifo = i.fifo;
        producer_knows =
            (at, subst (λ n. ((n + 1) % s.queue.capacity == s.queue.tail) ≡ false) at room);
        consumer_knows = i.consumer_knows;
      }
  Step-IsConsistent (store_item s item cur e) i =
      let at = producer_at s (has_room item cur) e i in
      let q = s.queue in
      let here : (q.head == q.head) ≡ true = ground arith in
      subst
        (λ n. IsConsistent (record s {
          queue = record q { slots = write n item q.slots };
          producer = stored_item item n;
        }))
        (sym at.0)
        (record {
          in_range = i.in_range;
          fifo = i.fifo ∙ ap (λ l. s.popped ++ l) (sym (items-write q i.in_range item));
          producer_knows = (refl, at.1, rw here refl);
          consumer_knows = ConsumerKnows-write q i.in_range s.consumer item i.consumer_knows;
        })
  Step-IsConsistent (store_head s item cur e) i =
      let at = producer_at s (stored_item item cur) e i in
      let q = s.queue in
      let grown = items-head q i.in_range at.1 ∙ ap (λ a. items q ++ (a ∷ [])) at.2 in
      subst
        (λ n. IsConsistent (record s {
          queue = record q { head = (n + 1) % q.capacity };
          producer = Producer.outside;
          pushed = s.pushed ++ (item ∷ []);
        }))
        (sym at.0)
        (record {
          in_range = (next_index-below q.head q.capacity i.in_range.0, i.in_range.1);
          fifo =
              ap (λ l. l ++ (item ∷ [])) i.fifo
              ∙ append_assoc s.popped (items q) (item ∷ [])
              ∙ ap (λ l. s.popped ++ l) (sym grown);
          producer_knows = tt;
          consumer_knows = ConsumerKnows-head q i.in_range s.consumer at.1 i.consumer_knows;
        })
  Step-IsConsistent (load_tail s e) i = record {
    in_range = i.in_range;
    fifo = i.fifo;
    producer_knows = i.producer_knows;
    consumer_knows = refl;
  }
  Step-IsConsistent (find_empty s cur e none_in) i = record {
    in_range = i.in_range;
    fifo = i.fifo;
    producer_knows = i.producer_knows;
    consumer_knows = tt;
  }
  Step-IsConsistent (find_item s cur e some_in) i =
      let at = consumer_at s (got_tail cur) e i in
      record {
        in_range = i.in_range;
        fifo = i.fifo;
        producer_knows = i.producer_knows;
        consumer_knows = (at, subst (λ n. (n == s.queue.head) ≡ false) at some_in);
      }
  Step-IsConsistent (take_item s cur e) i =
      let at = consumer_at s (has_item cur) e i in
      record {
        in_range = i.in_range;
        fifo = i.fifo;
        producer_knows = i.producer_knows;
        consumer_knows = (at.0, at.1, ap s.queue.slots (sym at.0));
      }
  Step-IsConsistent (store_tail s item cur e) i =
      let at = consumer_at s (took_item item cur) e i in
      let q = s.queue in
      let rest : List A = items (record q { tail = (q.tail + 1) % q.capacity }) in
      let first = items-some q i.in_range at.1 ∙ ap (λ a. a ∷ rest) at.2 in
      subst
        (λ n. IsConsistent (record s {
          queue = record q { tail = (n + 1) % q.capacity };
          consumer = Consumer.outside;
          popped = s.popped ++ (item ∷ []);
        }))
        (sym at.0)
        (record {
          in_range = (i.in_range.0, next_index-below q.tail q.capacity i.in_range.1);
          fifo =
              i.fifo ∙ ap (λ l. s.popped ++ l) first ∙ sym (append_assoc s.popped (item ∷ []) rest);
          producer_knows = ProducerKnows-tail q i.in_range s.producer at.1 i.producer_knows;
          consumer_knows = tt;
        })

  start-IsConsistent :
      (default : A) (capacity : ℕ) → 0 < capacity → IsConsistent (start default capacity)
  unfolding items size read_slots
  start-IsConsistent default capacity positive = record {
    in_range = (positive, positive);
    fifo = refl;
    producer_knows = tt;
    consumer_knows = tt;
  }

  Reach-IsConsistent : {s t : Threads A} → IsConsistent s → Reach s t → IsConsistent t
  Reach-IsConsistent i here = i
  Reach-IsConsistent i (next r st) = Step-IsConsistent st (Reach-IsConsistent i r)

  -- The slot that the producer is about to write is not the one that the consumer is about to read.
  abbrev pub AreApart : Producer A → Consumer A → Type 0
  AreApart Producer.outside c = Unit
  AreApart (got_head item p) c = Unit
  AreApart (stored_item item p) c = Unit
  AreApart (has_room item p) Consumer.outside = Unit
  AreApart (has_room item p) (got_tail c) = Unit
  AreApart (has_room item p) (took_item old c) = Unit
  AreApart (has_room item p) (has_item c) = p ≢ c

  apart :
      (q : SpscQueue A) (p : Producer A) (c : Consumer A)
      → ProducerKnows q p
      → ConsumerKnows q c
      → AreApart p c
  apart q Producer.outside c k l = tt
  apart q (got_head item p) c k l = tt
  apart q (stored_item item p) c k l = tt
  apart q (has_room item p) Consumer.outside k l = tt
  apart q (has_room item p) (got_tail c) k l = tt
  apart q (has_room item p) (took_item old c) k l = tt
  apart q (has_room item p) (has_item c) k l = λ e. ground (arith, k, l, e)

  Step-capacity : {s t : Threads A} → Step s t → t.queue.capacity ≡ s.queue.capacity
  Step-capacity (load_head s item e) = refl
  Step-capacity (find_full s item cur e full) = refl
  Step-capacity (find_room s item cur e room) = refl
  Step-capacity (store_item s item cur e) = refl
  Step-capacity (store_head s item cur e) = refl
  Step-capacity (load_tail s e) = refl
  Step-capacity (find_empty s cur e none_in) = refl
  Step-capacity (find_item s cur e some_in) = refl
  Step-capacity (take_item s cur e) = refl
  Step-capacity (store_tail s item cur e) = refl

  Reach-capacity : {s t : Threads A} → Reach s t → t.queue.capacity ≡ s.queue.capacity
  Reach-capacity here = refl
  Reach-capacity (next r st) = Step-capacity st ∙ Reach-capacity r

-- However the accesses of the two threads are interleaved, from an empty queue with a positive capacity:
-- the items that have been pushed are those that have been popped and then those in the queue, in their
-- order; fewer items than the capacity are in; and the producer never writes the slot that the consumer
-- is about to read.
pub Reach-fifo :
    {A : Type 0} (default : A) (capacity : ℕ) (t : Threads A)
    → 0 < capacity
    → Reach (start default capacity) t
    → (t.pushed ≡ t.popped ++ items t.queue)
      × (length (items t.queue) < capacity)
      × AreApart t.producer t.consumer
unfolding items
Reach-fifo default capacity t positive r =
    let i = Reach-IsConsistent (start-IsConsistent default capacity positive) r in
    let q = t.queue in
    (
      i.fifo,
      omega (
        arith,
        size_bound q i.in_range,
        length-read_slots q.slots q.capacity (size q) q.tail,
        Reach-capacity r,
      ),
      apart q t.producer t.consumer i.producer_knows i.consumer_knows,
    )
