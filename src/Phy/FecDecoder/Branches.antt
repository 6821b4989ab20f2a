-- ===== src/Phy/FecDecoder/Branches.antt =====
-- One step of the Viterbi loop: what each new metric attains, and that no branch is better.
use qpsk_b.Base.{
  ℕ, zero, suc, true, false, ◌+◌, ◌≤◌, ◌<◌, ◌≡◌, ◌≢◌, refl, ap, ◌∙◌, sym, inl, inr, List, length,
  get_or, set, ltb, leb, Bool-cases, ltb→lt, ltb→le, ==_iff, ◌==◌, arith,
}
use qpsk_b.Base.Elements.{length-set, get_or-set_self, get_or-set_ne, get_or-replicate}
use qpsk_b.Phy.FecDecoder.{
  inf_metric, full_states, next_state, branch_metric, Column, relax, visit, visit_states,
  empty_column, column,
}
use qpsk_b.Phy.FecDecoder.Trellis.{IsBit, next_state-lt}

abbrev pub metric : List ℕ → ℕ → ℕ
metric metrics s = get_or metrics s inf_metric

module _ (rx : ℕ × ℕ) (prev_metrics : List ℕ) where
  abbrev pub cost : ℕ → ℕ → ℕ
  cost s b = metric prev_metrics s + branch_metric rx (next_state s b)

  -- `t` is entered from `p`, which has been reached, at the metric `m`.
  pub record Enters (t p m : ℕ) : Type 0 where
    pub bit : ℕ
    pub is_bit : IsBit bit
    pub arrives : next_state p bit ≡ t
    pub is_reached : metric prev_metrics p < inf_metric
    pub costs : m ≡ cost p bit

  pub record IsSound (c : Column) : Type 0 where
    pub width : length c.curr_metrics ≡ full_states
    pub depth : length c.survivor ≡ full_states
    pub entered :
        (t : ℕ)
        → metric c.curr_metrics t < inf_metric
        → Enters t (get_or c.survivor t 0) (metric c.curr_metrics t)

  -- No metric grows.
  abbrev NoWorse : Column → Column → Type 0
  NoWorse c d = (t : ℕ) → metric d.curr_metrics t ≤ metric c.curr_metrics t

  taken :
      (s b : ℕ) (c : Column)
      → ltb (cost s b) (metric c.curr_metrics (next_state s b)) ≡ true
      → relax rx prev_metrics s b c ≡ record {
        curr_metrics = set c.curr_metrics (next_state s b) (cost s b);
        survivor = set c.survivor (next_state s b) s;
      }
  unfolding relax
  taken s b c h = rw h

  left :
      (s b : ℕ) (c : Column)
      → ltb (cost s b) (metric c.curr_metrics (next_state s b)) ≡ false
      → relax rx prev_metrics s b c ≡ c
  unfolding relax
  left s b c h = rw h

  module _ (s b : ℕ) (c : Column) (i : IsBit b) (reached : metric prev_metrics s < inf_metric)
      (sound : IsSound c) where
    here_metric : (v : ℕ) → metric (set c.curr_metrics (next_state s b) v) (next_state s b) ≡ v
    here_metric v =
        get_or-set_self c.curr_metrics (next_state s b) v inf_metric
          (omega (arith, next_state-lt s b, sound.width))

    here_survivor : (v : ℕ) → get_or (set c.survivor (next_state s b) v) (next_state s b) 0 ≡ v
    here_survivor v =
        get_or-set_self c.survivor (next_state s b) v 0
          (omega (arith, next_state-lt s b, sound.depth))

    taken-Enters : (t p m : ℕ) → next_state s b ≡ t → p ≡ s → m ≡ cost s b → Enters t p m
    taken-Enters t p m e ep em = record {
      bit = b;
      is_bit = i;
      arrives = ap (λ p. next_state p b) ep ∙ e;
      is_reached = rw ep reached;
      costs = em ∙ sym (ap (λ p. cost p b) ep);
    }

    taken_entered :
        (t : ℕ)
        → metric (set c.curr_metrics (next_state s b) (cost s b)) t < inf_metric
        → Enters t
            (get_or (set c.survivor (next_state s b) s) t 0)
            (metric (set c.curr_metrics (next_state s b) (cost s b)) t)
    taken_entered t h = elim (Bool-cases (next_state s b == t)) [
      | inl q ↦
          let e : next_state s b ≡ t = (==_iff _ t).0 q in
          taken-Enters t _ _ e (rw (← e) (here_survivor s)) (rw (← e) (here_metric (cost s b)))
      | inr q ↦
          let ne : t ≢ next_state s b = λ e. ground arith in
          let em = get_or-set_ne c.curr_metrics (next_state s b) t (cost s b) inf_metric ne in
          let es = get_or-set_ne c.survivor (next_state s b) t s 0 ne in
          rw (em, es) (sound.entered t (omega (arith, em)))
    ]

    relax-IsSound : IsSound (relax rx prev_metrics s b c)
    relax-IsSound = elim (Bool-cases (ltb (cost s b) (metric c.curr_metrics (next_state s b)))) [
      | inl lt ↦ rw (taken s b c lt) (record {
        width = length-set c.curr_metrics (next_state s b) (cost s b) ∙ sound.width;
        depth = length-set c.survivor (next_state s b) s ∙ sound.depth;
        entered = taken_entered;
      })
      | inr ge ↦ rw (left s b c ge) sound
    ]

    taken_le :
        (t : ℕ)
        → cost s b < metric c.curr_metrics (next_state s b)
        → metric (set c.curr_metrics (next_state s b) (cost s b)) t ≤ metric c.curr_metrics t
    taken_le t lt = elim (Bool-cases (next_state s b == t)) [
      | inl q ↦
          let e : next_state s b ≡ t = (==_iff _ t).0 q in
          rw (← e) (omega (arith, here_metric (cost s b)))
      | inr q ↦
          let ne : t ≢ next_state s b = λ e. ground arith in
          omega (arith, get_or-set_ne c.curr_metrics (next_state s b) t (cost s b) inf_metric ne)
    ]

    relax-NoWorse : NoWorse c (relax rx prev_metrics s b c)
    relax-NoWorse t = elim (Bool-cases (ltb (cost s b) (metric c.curr_metrics (next_state s b)))) [
      | inl lt ↦ rw (taken s b c lt) (taken_le t (ltb→lt _ _ lt))
      | inr ge ↦ rw (left s b c ge) (omega arith)
    ]

    relax_best : metric (relax rx prev_metrics s b c).curr_metrics (next_state s b) ≤ cost s b
    relax_best = elim (Bool-cases (ltb (cost s b) (metric c.curr_metrics (next_state s b)))) [
      | inl lt ↦ rw (taken s b c lt) (omega (arith, here_metric (cost s b)))
      | inr ge ↦ rw (left s b c ge) (ltb→le _ _ ge)
    ]

  -- What the visits of the states below `k` have done.
  record IsVisited (k : ℕ) (c : Column) : Type 0 where
    sound : IsSound c
    best :
        (s b : ℕ)
        → s < k
        → IsBit b
        → metric prev_metrics s < inf_metric
        → metric c.curr_metrics (next_state s b) ≤ cost s b

  module _ (s : ℕ) (c : Column) (v : IsVisited s c) where
    visit-reached :
        metric prev_metrics s < inf_metric → IsVisited (s + 1) (visit rx prev_metrics s c)
    unfolding visit
    visit-reached reached =
        let test : leb inf_metric (metric prev_metrics s) ≡ false = ground arith in
        let d = relax rx prev_metrics s 0 c in
        let d_sound = relax-IsSound s 0 c (omega arith) reached v.sound in
        let le_0 = relax-NoWorse s 0 c (omega arith) reached v.sound in
        let le_1 = relax-NoWorse s 1 d (omega arith) reached d_sound in
        let best_0 = relax_best s 0 c (omega arith) reached v.sound in
        let best_1 = relax_best s 1 d (omega arith) reached d_sound in
        let latest : (b : ℕ)
            → IsBit b
            → metric (relax rx prev_metrics s 1 d).curr_metrics (next_state s b) ≤ cost s b =
          elim [
            | zero ↦ λ i. omega (arith, le_1 (next_state s 0))
            | suc zero ↦ λ i. best_1
            | suc (suc b) ↦ λ i. absurd (omega arith)
          ] in
        rw test (record {
          sound = relax-IsSound s 1 d (omega arith) reached d_sound;
          best = λ p b below i r. elim (Bool-cases (p == s)) [
            | inl q ↦ let e : p ≡ s = (==_iff p s).0 q in rw e (latest b i)
            | inr q ↦
                let earlier : p < s = ground arith in
                omega (arith, le_1 (next_state p b), le_0 (next_state p b), v.best p b earlier i r)
          ];
        })

    visit-unreached :
        inf_metric ≤ metric prev_metrics s → IsVisited (s + 1) (visit rx prev_metrics s c)
    unfolding visit
    visit-unreached far =
        let test : leb inf_metric (metric prev_metrics s) ≡ true = ground arith in
        rw test (record {
          sound = v.sound;
          best = λ p b below i r. elim (Bool-cases (p == s)) [
            | inl q ↦
                absurd
                  (let e : p ≡ s = (==_iff p s).0 q in omega (arith, ap (metric prev_metrics) e))
            | inr q ↦ v.best p b (ground arith) i r
          ];
        })

  visit-IsVisited :
      (s : ℕ) (c : Column) → IsVisited s c → IsVisited (s + 1) (visit rx prev_metrics s c)
  visit-IsVisited s c v = elim (Bool-cases (ltb (metric prev_metrics s) inf_metric)) [
    | inl lt ↦ visit-reached s c v (ltb→lt _ _ lt)
    | inr ge ↦ visit-unreached s c v (ltb→le _ _ ge)
  ]

  visit_states-IsVisited :
      (n s : ℕ) (c : Column)
      → IsVisited s c
      → IsVisited (s + n) (visit_states rx prev_metrics n s c)
  unfolding visit_states
  visit_states-IsVisited zero s c v = let q : s + 0 ≡ s = omega arith in rw q v
  visit_states-IsVisited (suc n) s c v =
      let q : s + suc n ≡ s + 1 + n = omega arith in
      rw q (visit_states-IsVisited n (s + 1) (visit rx prev_metrics s c) (visit-IsVisited s c v))

  empty_column-IsVisited : IsVisited 0 empty_column
  unfolding empty_column
  empty_column-IsVisited = record {
    sound = record {
      width = refl;
      depth = refl;
      entered = λ t h. absurd (omega (arith, get_or-replicate full_states t inf_metric));
    };
    best = λ s b below i r. absurd (omega arith);
  }

  column-IsVisited : IsVisited 128 (column rx prev_metrics)
  unfolding column
  column-IsVisited = visit_states-IsVisited full_states 0 empty_column empty_column-IsVisited

  -- Every metric of the new column that is finite is the cost of the branch from its survivor.
  pub column-IsSound : IsSound (column rx prev_metrics)
  column-IsSound = column-IsVisited.sound

  -- No branch from a reached state costs less than the new metric of the state it leads to.
  pub column_best :
      (s b : ℕ)
      → s < full_states
      → IsBit b
      → metric prev_metrics s < inf_metric
      → metric (column rx prev_metrics).curr_metrics (next_state s b) ≤ cost s b
  column_best s b = column-IsVisited.best s b
