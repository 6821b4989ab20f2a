-- ===== src/Ltp/Timer/Order.antt =====
-- The order in which the timer thread gives timers out, and which ones it leaves out.
use mathlib.Core.Path.{subst}
use qpsk_b.Base.{
  ℕ, suc, ◌≤◌, ◌<◌, ◌≡◌, ◌≢◌, refl, ap, sym, ◌∙◌, true, false, Option, none, some, List, [], ◌∷◌,
  inl, inr, Bool-cases, All, ltb, leb, ==_refl, arith, if◌then◌else◌,
}
use qpsk_b.Ltp.Timer.{
  TimerEntry, TimerEvent, TimerManager, push_entry, start_timer, cancel_timer, contains, remove_id,
  round_from, thread_round,
}

-- The soonest entry first.
abbrev pub IsSorted : List TimerEntry → Type 0
IsSorted [] = Unit {0}
IsSorted (x ∷ xs) = All (λ (y : TimerEntry). x.expiry ≤ y.expiry) xs × IsSorted xs

push_entry-All :
    (P : TimerEntry → Type 0) (x : TimerEntry) (xs : List TimerEntry)
    → P x
    → All P xs
    → All P (push_entry x xs)
unfolding push_entry
push_entry-All P x [] h a = (h, tt)
push_entry-All P x (y ∷ ys) h a = elim (Bool-cases (ltb x.expiry y.expiry)) [
  | inl t ↦ rw t (h, a)
  | inr t ↦ rw t (a.0, push_entry-All P x ys h a.1)
]

All-mono :
    (lo hi : ℕ) (xs : List TimerEntry)
    → lo ≤ hi
    → All (λ (y : TimerEntry). hi ≤ y.expiry) xs
    → All (λ (y : TimerEntry). lo ≤ y.expiry) xs
All-mono lo hi [] h a = tt
All-mono lo hi (x ∷ xs) h a = (let b = a.0 in omega arith, All-mono lo hi xs h a.1)

push_entry-IsSorted :
    (x : TimerEntry) (xs : List TimerEntry) → IsSorted xs → IsSorted (push_entry x xs)
unfolding push_entry
push_entry-IsSorted x [] s = (tt, tt)
push_entry-IsSorted x (y ∷ ys) s = elim (Bool-cases (ltb x.expiry y.expiry)) [
  | inl t ↦ rw t ((ground arith, All-mono x.expiry y.expiry ys (ground arith) s.0), s)
  | inr t ↦ rw t (
    push_entry-All (λ z. y.expiry ≤ z.expiry) x ys (ground arith) s.0,
    push_entry-IsSorted x ys s.1,
  )
]

-- A round takes the first entry, which has expired, and tells of it unless it was cancelled.
pub record IsRound (t t' : TimerManager) (fired : Option TimerEvent) : Type 0 where
  pub top : TimerEntry
  pub rest : List TimerEntry
  pub first : t.heap ≡ top ∷ rest
  pub expired : top.expiry ≤ t.now
  pub removed : t'.heap ≡ rest
  pub told : fired ≡ (if contains top.timer_id t.cancelled then none else some top.event)

round_from-IsRound :
    (heap : List TimerEntry) (t t' : TimerManager) (fired : Option TimerEvent)
    → t.heap ≡ heap
    → round_from heap t ≡ some (fired, t')
    → IsRound t t' fired
unfolding round_from
round_from-IsRound [] t t' fired q h = absurd (ground arith)
round_from-IsRound (x ∷ xs) t t' fired q h = elim (Bool-cases (leb x.expiry t.now)) [
  | inr e ↦ absurd (ground (arith, simp e at h))
  | inl e ↦ elim (Bool-cases (contains x.timer_id t.cancelled)) [
    | inl c ↦
        let found = simp (e, c) at h in
        let told : none ≡ fired = cc in
        let after : record t { heap = xs; cancelled = remove_id x.timer_id t.cancelled } ≡ t' =
          cc in
        record {
          top = x;
          rest = xs;
          first = q;
          expired = ground arith;
          removed = ap (λ s. s.heap) (sym after);
          told = rw c (sym told);
        }
    | inr c ↦
        let found = simp (e, c) at h in
        let told : some x.event ≡ fired = cc in
        let after : record t { heap = xs } ≡ t' = cc in
        record {
          top = x;
          rest = xs;
          first = q;
          expired = ground arith;
          removed = ap (λ s. s.heap) (sym after);
          told = rw c (sym told);
        }
  ]
]

pub thread_round-IsRound :
    (t t' : TimerManager) (fired : Option TimerEvent)
    → thread_round t ≡ some (fired, t')
    → IsRound t t' fired
unfolding thread_round
thread_round-IsRound t t' fired h = elim (Bool-cases t.running) [
  | inl r ↦ round_from-IsRound t.heap t t' fired refl (simp r at h)
  | inr r ↦ absurd (ground (arith, simp r at h))
]

-- Starting a timer, cancelling one, and a round of the thread that takes an entry keep a heap that is in
-- the order of expiry in that order.
heap-IsSorted :
    (t t' : TimerManager) (timeout id : ℕ) (event : TimerEvent) (fired : Option TimerEvent)
    → IsSorted t.heap
    → thread_round t ≡ some (fired, t')
    → IsSorted (start_timer timeout event t).1.heap
      × IsSorted (cancel_timer id t).heap
      × IsSorted t'.heap
unfolding start_timer cancel_timer
heap-IsSorted t t' timeout id event fired s h =
    let r = thread_round-IsRound t t' fired h in
    let whole : IsSorted (r.top ∷ r.rest) = subst IsSorted r.first s in
    (
      push_entry-IsSorted _ t.heap s,
      elim (Bool-cases (contains id t.cancelled)) [ inl c ↦ simp c s | inr c ↦ simp c s ],
      subst IsSorted (sym r.removed) whole.1,
    )

-- A running timer thread whose heap is in the order of expiry waits only where no timer has expired.
thread_round-waits :
    (t : TimerManager)
    → t.running ≡ true
    → IsSorted t.heap
    → thread_round t ≡ none
    → All (λ (y : TimerEntry). t.now < y.expiry) t.heap
unfolding thread_round round_from
thread_round-waits t r s h = go t.heap s (simp r at h)
  where
    later :
        (lo : ℕ) (xs : List TimerEntry)
        → t.now < lo
        → All (λ (y : TimerEntry). lo ≤ y.expiry) xs
        → All (λ (y : TimerEntry). t.now < y.expiry) xs
    later lo xs l a = All-mono (suc t.now) lo xs (omega arith) a

    go :
        (heap : List TimerEntry)
        → IsSorted heap
        → round_from heap t ≡ none
        → All (λ (y : TimerEntry). t.now < y.expiry) heap
    go [] s h = tt
    go (x ∷ xs) s h = elim (Bool-cases (leb x.expiry t.now)) [
      | inr e ↦ (ground arith, later x.expiry xs (ground arith) s.0)
      | inl e ↦ elim (Bool-cases (contains x.timer_id t.cancelled)) [
        | inl c ↦ absurd (ground (arith, simp (e, c) at h))
        | inr c ↦ absurd (ground (arith, simp (e, c) at h))
      ]
    ]

cancelled_id : (id : ℕ) (t : TimerManager) → contains id (cancel_timer id t).cancelled ≡ true
unfolding cancel_timer contains
cancelled_id id t = elim (Bool-cases (contains id t.cancelled)) [
  | inl c ↦ simp (c, c) refl
  | inr c ↦ simp (c, ==_refl id) refl
]

cancel_timer-now : (id : ℕ) (t : TimerManager) → (cancel_timer id t).now ≡ t.now
unfolding cancel_timer
cancel_timer-now id t = elim (Bool-cases (contains id t.cancelled)) [
  | inl c ↦ simp c refl
  | inr c ↦ simp c refl
]

-- An event that the thread tells of is that of the first entry: it has expired, and its timer has not
-- been cancelled, which a timer is after `cancel_timer`.
pub thread_round-fires :
    (t t' : TimerManager) (id : ℕ) (event : TimerEvent)
    → thread_round (cancel_timer id t) ≡ some (some event, t')
    → (r : IsRound (cancel_timer id t) t' (some event)) × (r.top.event ≡ event)
      × (r.top.expiry ≤ t.now)
      × (r.top.timer_id ≢ id)
thread_round-fires t t' id event h =
    let r = thread_round-IsRound (cancel_timer id t) t' (some event) h in
    let same_now = cancel_timer-now id t in
    let soon = r.expired in
    elim (Bool-cases (contains r.top.timer_id (cancel_timer id t).cancelled)) [
      | inl c ↦ absurd (ground (arith, simp c at r.told))
      | inr c ↦
          let said = simp c at r.told in
          let known = cancelled_id id t in
          (
            r,
            cc,
            omega arith,
            λ q.
                let both : contains id (cancel_timer id t).cancelled ≡ false =
                  ap (λ i. contains i (cancel_timer id t).cancelled) (sym q) ∙ c in
                absurd (ground (arith, sym known ∙ both)),
          )
    ]
