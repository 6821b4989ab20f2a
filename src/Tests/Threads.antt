-- ===== src/Tests/Threads.antt =====
-- A run of the producer and the consumer of the ring buffer.
use qpsk_b.Base.{ℕ, ◌<◌, ◌≡◌, refl, [], ◌∷◌, ◌++◌, length, arith}
use qpsk_b.Phy.SpscQueue.{write}
use qpsk_b.Phy.SpscQueue.Fifo.{items}
use qpsk_b.Phy.SpscQueue.Threads.{
  Producer, got_head, has_room, stored_item, got_tail, has_item, Threads, load_head, find_room,
  store_item, store_head, load_tail, find_item, start, Reach, here, next,
}
use qpsk_b.Phy.SpscQueue.Threads.Safety.{AreApart, Reach-fifo}

-- 7 is pushed; then the consumer has found it, and the producer room for 9.
abbrev asked : Threads ℕ
asked = record (start 0 3) { producer = got_head 7 0 }

abbrev granted : Threads ℕ
granted = record asked { producer = has_room 7 0 }

abbrev written : Threads ℕ
written = record granted {
  queue = record granted.queue { slots = write 0 7 granted.queue.slots };
  producer = stored_item 7 0;
}

abbrev published : Threads ℕ
published = record written {
  queue = record written.queue { head = 1 };
  producer = Producer.outside;
  pushed = 7 ∷ [];
}

abbrev read : Threads ℕ
read = record published { consumer = got_tail 0 }

abbrev found : Threads ℕ
found = record read { consumer = has_item 0 }

abbrev asked_again : Threads ℕ
asked_again = record found { producer = got_head 9 1 }

abbrev granted_again : Threads ℕ
granted_again = record asked_again { producer = has_room 9 1 }

abbrev run : Reach (start 0 3) granted_again
run =
    next {t = asked_again}
      (next {t = found}
        (next {t = read}
          (next {t = published}
            (next {t = written}
              (next {t = granted}
                (next {t = asked} (next here (load_head (start 0 3) 7 refl))
                  (find_room asked 7 0 refl refl))
                (store_item granted 7 0 refl))
              (store_head written 7 0 refl))
            (load_tail published refl))
          (find_item read 0 refl refl))
        (load_head found 9 refl))
      (find_room asked_again 9 1 refl refl)

Reach-fifo_example :
    (granted_again.pushed ≡ granted_again.popped ++ items granted_again.queue)
    × (length (items granted_again.queue) < 3)
    × AreApart granted_again.producer granted_again.consumer
Reach-fifo_example = Reach-fifo 0 3 granted_again (omega arith) run
