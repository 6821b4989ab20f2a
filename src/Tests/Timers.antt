-- ===== src/Tests/Timers.antt =====
-- Three timers, of which one is cancelled and one has not expired.
use qpsk_b.Base.{ℕ, ◌≤◌, ◌≡◌, ◌≢◌, refl, true, some, [], ◌∷◌}
use qpsk_b.Ltp.Timer.{
  TimerEntry, TimerEvent, TimerManager, checkpoint, new_timers, start_timer, cancel_timer, advance,
  run, thread_round, round_from, contains, push_entry,
}
use qpsk_b.Ltp.Timer.Order.{IsRound, thread_round-fires}

abbrev event : ℕ → TimerEvent
event serial = record {
  type = checkpoint;
  engine_id = 1;
  session_number = 2;
  serial_number = serial;
}

abbrev entry : ℕ → ℕ → TimerEntry
entry id expiry = record { timer_id = id; expiry = expiry; event = event id }

abbrev timers : TimerManager
timers = record {
  now = 20;
  running = true;
  next_id = 3;
  heap = entry 2 10 ∷ entry 1 15 ∷ entry 3 30 ∷ [];
  cancelled = [];
}

abbrev early : TimerManager
early = record timers { now = 5 }

-- The timers as they are started, one after another.
started :
    advance 20
      (start_timer 30
        (event 3)
        (start_timer 10 (event 2) (start_timer 15 (event 1) (run new_timers)).1).1).1
    ≡ timers
unfolding advance start_timer push_entry run
started = refl

abbrev after_cancel : TimerManager
after_cancel = record timers { heap = entry 1 15 ∷ entry 3 30 ∷ []; cancelled = 1 ∷ [] }

fired_beside_cancelled : thread_round (cancel_timer 1 timers) ≡ some (some (event 2), after_cancel)
unfolding thread_round round_from contains cancel_timer
fired_beside_cancelled = refl

thread_round-fires_example :
    (r : IsRound (cancel_timer 1 timers) after_cancel (some (event 2))) × (r.top.event ≡ event 2)
    × (r.top.expiry ≤ 20)
    × (r.top.timer_id ≢ 1)
thread_round-fires_example =
    thread_round-fires timers after_cancel 1 (event 2) fired_beside_cancelled
