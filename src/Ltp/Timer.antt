-- ===== src/Ltp/Timer.antt =====
-- src/ltp_cla/timer_manager.cpp. `heap_` is its entries in the order in which the priority queue gives
-- them out, soonest first; `now` is the reading of the steady clock, which only `advance` changes.
-- The mutex makes each call, and each round of the timer thread up to its callback, one step.
pub mod Order
use qpsk_b.Base.{
  ℕ, ◌+◌, ◌-◌, ◌%◌, ◌^◌, Bool, true, false, Option, none, some, List, [], ◌∷◌, ltb, leb, ◌==◌,
  if◌then◌else◌, length,
}
use qpsk_b.Base.Bits.{add64}

pub data TimerType : Type 0 where
  checkpoint report_segment cancel_segment : TimerType

pub record TimerEvent : Type 0 where
  pub type : TimerType
  pub engine_id : ℕ
  pub session_number : ℕ
  pub serial_number : ℕ

pub record TimerEntry : Type 0 where
  pub timer_id : ℕ
  pub expiry : ℕ
  pub event : TimerEvent

pub record TimerManager : Type 0 where
  pub now : ℕ
  pub running : Bool
  pub next_id : ℕ
  pub heap : List TimerEntry
  pub cancelled : List ℕ

abbrev pub new_timers : TimerManager
new_timers = record { now = 0; running = false; next_id = 0; heap = []; cancelled = [] }

-- `run`, and the flag of `stop`.
unfoldable pub run : TimerManager → TimerManager
run t = record t { running = true }

unfoldable pub stop : TimerManager → TimerManager
stop t = record t { running = false }

unfoldable pub advance : ℕ → TimerManager → TimerManager
advance ticks t = record t { now = t.now + ticks }

-- `heap_.push`: `operator>` compares the expiry times.
unfoldable pub push_entry : TimerEntry → List TimerEntry → List TimerEntry
push_entry entry [] = entry ∷ []
push_entry entry (top ∷ heap) =
    if ltb entry.expiry top.expiry then entry ∷ top ∷ heap else top ∷ push_entry entry heap

-- The identifier of the timer, and the manager with it.
unfoldable pub start_timer : ℕ → TimerEvent → TimerManager → ℕ × TimerManager
start_timer timeout event t =
    let id = add64 t.next_id 1 in
    let entry : TimerEntry = record { timer_id = id; expiry = t.now + timeout; event = event } in
    (id, record t { next_id = id; heap = push_entry entry t.heap })

unfoldable pub contains : ℕ → List ℕ → Bool
contains id [] = false
contains id (x ∷ xs) = if x == id then true else contains id xs

-- `cancelled_.insert`, a set.
unfoldable pub cancel_timer : ℕ → TimerManager → TimerManager
cancel_timer id t = if contains id t.cancelled then t else record t { cancelled = id ∷ t.cancelled }

unfoldable pub remove_id : ℕ → List ℕ → List ℕ
remove_id id [] = []
remove_id id (x ∷ xs) = if x == id then xs else x ∷ remove_id id xs

unfoldable pub pending_count : TimerManager → ℕ
pending_count t =
    if leb (length t.heap) (length t.cancelled) then 0 else length t.heap - length t.cancelled

-- One round of the thread's loop over the heap: `none` where it waits, and otherwise the manager
-- without the entry that expired, with its event unless it was cancelled.
unfoldable pub round_from :
    List TimerEntry → TimerManager → Option (Option TimerEvent × TimerManager)
round_from [] t = none
round_from (top ∷ heap) t =
    if leb top.expiry t.now
    then (if contains top.timer_id t.cancelled
        then some (none, record t { heap = heap; cancelled = remove_id top.timer_id t.cancelled })
        else some (some top.event, record t { heap = heap }))
    else none

unfoldable pub thread_round : TimerManager → Option (Option TimerEvent × TimerManager)
thread_round t = if t.running then round_from t.heap t else none
