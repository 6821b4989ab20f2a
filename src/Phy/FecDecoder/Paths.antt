-- ===== src/Phy/FecDecoder/Paths.antt =====
-- Paths through the trellis: how far a sequence of bits is from what was received, and what the
-- metrics and survivors of the Viterbi loop say about all sequences.
use qpsk_b.Base.{
  ℕ, zero, suc, ◌+◌, ◌≤◌, ◌<◌, ◌≡◌, refl, ap, ◌∙◌, sym, List, [], ◌∷◌, ◌++◌, append-nil,
  append_assoc, length, length-append, get_or, bit_and, All, All-append, arith,
}
use qpsk_b.Base.Bits.{shr}
use qpsk_b.Base.Elements.{get_or-replicate}
use qpsk_b.Phy.FecDecoder.{
  inf_metric, next_state, branch_metric, column, forward, initial_metrics, trace_back,
}
use qpsk_b.Phy.FecDecoder.Trellis.{IsBit, next_state-lt, newest_bit}
use qpsk_b.Phy.FecDecoder.Branches.{metric, column-IsSound, column_best}

-- What the bits cost, sent from the register `reg`, against the received pairs.
unfoldable pub distance : ℕ → List (ℕ × ℕ) → List ℕ → ℕ
distance reg [] bits = 0
distance reg (rx ∷ rxs) [] = 0
distance reg (rx ∷ rxs) (b ∷ bits) =
    branch_metric rx (next_state reg b) + distance (next_state reg b) rxs bits

unfoldable pub ends : ℕ → List ℕ → ℕ
ends reg [] = reg
ends reg (b ∷ bits) = ends (next_state reg b) bits

pub ends-lt : (reg : ℕ) (bits : List ℕ) → reg < 128 → ends reg bits < 128
unfolding ends
ends-lt reg [] h = h
ends-lt reg (b ∷ bits) h = ends-lt (next_state reg b) bits (next_state-lt reg b)

ends-snoc :
    (reg : ℕ) (bits : List ℕ) (b : ℕ) → ends reg (bits ++ (b ∷ [])) ≡ next_state (ends reg bits) b
unfolding ends
ends-snoc reg [] b = refl
ends-snoc reg (c ∷ bits) b = ends-snoc (next_state reg c) bits b

distance-snoc :
    (reg : ℕ) (rxs : List (ℕ × ℕ)) (rx : ℕ × ℕ) (bits : List ℕ) (b : ℕ)
    → length bits ≡ length rxs
    → distance reg (rxs ++ (rx ∷ [])) (bits ++ (b ∷ []))
      ≡ distance reg rxs bits + branch_metric rx (next_state (ends reg bits) b)
unfolding distance ends
distance-snoc reg [] rx [] b h = omega arith
distance-snoc reg [] rx (c ∷ bits) b h = absurd (omega arith)
distance-snoc reg (r ∷ rxs) rx [] b h = absurd (omega arith)
distance-snoc reg (r ∷ rxs) rx (c ∷ bits) b h =
    omega (arith, distance-snoc (next_state reg c) rxs rx bits b (omega arith))

trace_back_onto :
    (rows : List (List ℕ)) (t : ℕ) (bits : List ℕ)
    → trace_back rows t bits ≡ trace_back rows t [] ++ bits
unfolding trace_back
trace_back_onto [] t bits = refl
trace_back_onto (row ∷ rows) t bits =
    let p = get_or row t 0 in
    let b = bit_and (shr t 6) 1 in
    trace_back_onto rows p (b ∷ bits)
    ∙ sym (append_assoc (trace_back rows p []) (b ∷ []) bits)
    ∙ ap (λ front. front ++ bits) (sym (trace_back_onto rows p (b ∷ [])))

-- A non-empty list has a last element.
last_of :
    (bits : List ℕ) (n : ℕ)
    → length bits ≡ n + 1
    → (front : List ℕ) × (b : ℕ) × (bits ≡ front ++ (b ∷ []))
last_of [] n h = absurd (omega arith)
last_of (b ∷ []) n h = ([], b, refl)
last_of (b ∷ c ∷ bits) n h =
    let (front, d, e) = last_of (c ∷ bits) (length bits) (omega arith) in
    (b ∷ front, d, ap (λ t. b ∷ t) e)

All-front : (front : List ℕ) (b : ℕ) → All IsBit (front ++ (b ∷ [])) → All IsBit front × IsBit b
All-front [] b h = (tt, h.0)
All-front (c ∷ front) b h = let rest = All-front front b h.1 in ((h.0, rest.0), rest.1)

-- The bits are as many as the pairs, end in `t` and cost `m`.
pub record IsPath (rxs : List (ℕ × ℕ)) (t m : ℕ) (bits : List ℕ) : Type 0 where
  pub is_bits : All IsBit bits
  pub as_long : length bits ≡ length rxs
  pub arrives : ends 0 bits ≡ t
  pub costs : distance 0 rxs bits ≡ m

-- After the pairs `rxs`: a finite metric is the cost of the path that the survivors lead back along,
-- and no path costs less than the metric of its end.
pub record IsSurveyed (rxs : List (ℕ × ℕ)) (metrics : List ℕ) (rows : List (List ℕ)) : Type 0 where
  pub attained :
      (t : ℕ)
      → metric metrics t < inf_metric
      → IsPath rxs t (metric metrics t) (trace_back rows t [])
  pub least :
      (bits : List ℕ)
      → All IsBit bits
      → length bits ≡ length rxs
      → distance 0 rxs bits < inf_metric
      → metric metrics (ends 0 bits) ≤ distance 0 rxs bits

initial-IsSurveyed : IsSurveyed [] initial_metrics []
unfolding initial_metrics trace_back ends distance
initial-IsSurveyed = record {
  attained = elim [
    | zero ↦ λ h. record { is_bits = tt; as_long = refl; arrives = refl; costs = refl }
    | suc t ↦ λ h. absurd (omega (arith, get_or-replicate 127 t inf_metric))
  ];
  least = elim [ [] ↦ λ i l d. omega arith | b ∷ bits ↦ λ i l d. absurd (omega arith) ];
}

module _ (rxs : List (ℕ × ℕ)) (rx : ℕ × ℕ) where
  -- A path, and a bit more.
  snoc-IsPath :
      (p m b : ℕ) (bits : List ℕ)
      → IsPath rxs p m bits
      → IsBit b
      → IsPath
          (rxs ++ (rx ∷ []))
          (next_state p b)
          (m + branch_metric rx (next_state p b))
          (bits ++ (b ∷ []))
  snoc-IsPath p m b bits path i = record {
    is_bits = All-append IsBit bits (b ∷ []) path.is_bits (i, tt);
    as_long =
        omega
          (arith, path.as_long, length-append {0} bits (b ∷ []), length-append {0} rxs (rx ∷ []));
    arrives = ends-snoc 0 bits b ∙ ap (λ p. next_state p b) path.arrives;
    costs =
        distance-snoc 0 rxs rx bits b path.as_long
        ∙ omega (arith, path.costs, ap (λ p. branch_metric rx (next_state p b)) path.arrives);
  }

  module _ (metrics : List ℕ) (rows : List (List ℕ)) (s : IsSurveyed rxs metrics rows) where
    entered-IsPath :
        (t p m b : ℕ)
        → IsBit b
        → next_state p b ≡ t
        → metric metrics p < inf_metric
        → m ≡ metric metrics p + branch_metric rx (next_state p b)
        → IsPath (rxs ++ (rx ∷ [])) t m (trace_back rows p (bit_and (shr t 6) 1 ∷ []))
    entered-IsPath t p m b i e reached costs =
        let path = s.attained p reached in
        let small : p < 128 =
          omega (arith, path.arrives, ends-lt 0 (trace_back rows p []) (omega arith)) in
        let newest : bit_and (shr t 6) 1 ≡ b =
          ap (λ t. bit_and (shr t 6) 1) (sym e) ∙ newest_bit p b small i in
        let longer = snoc-IsPath p (metric metrics p) b (trace_back rows p []) path i in
        rw (trace_back_onto rows p (bit_and (shr t 6) 1 ∷ []), newest, costs, ← e) longer

    step_attained :
        (t : ℕ)
        → metric (column rx metrics).curr_metrics t < inf_metric
        → IsPath
            (rxs ++ (rx ∷ []))
            t
            (metric (column rx metrics).curr_metrics t)
            (trace_back ((column rx metrics).survivor ∷ rows) t [])
    unfolding trace_back
    step_attained t h =
        let e = (column-IsSound rx metrics).entered t h in
        entered-IsPath t (get_or (column rx metrics).survivor t 0) _ e.bit e.is_bit e.arrives
          e.is_reached e.costs

    step_least :
        (bits : List ℕ)
        → All IsBit bits
        → length bits ≡ length (rxs ++ (rx ∷ []))
        → distance 0 (rxs ++ (rx ∷ [])) bits < inf_metric
        → metric (column rx metrics).curr_metrics (ends 0 bits) ≤ distance 0 (rxs ++ (rx ∷ [])) bits
    step_least bits i l d =
        let (front, b, e) =
          last_of bits (length rxs) (omega (arith, l, length-append {0} rxs (rx ∷ []))) in
        let is_bits = All-front front b (rw (← e) i) in
        let as_long : length front ≡ length rxs = omega (
          arith,
          l,
          ap length e,
          length-append {0} front (b ∷ []),
          length-append {0} rxs (rx ∷ []),
        ) in
        let total = ap (distance 0 (rxs ++ (rx ∷ []))) e ∙ distance-snoc 0 rxs rx front b as_long in
        let before = s.least front is_bits.0 as_long (omega (arith, total)) in
        let here =
          column_best rx metrics (ends 0 front) b (ends-lt 0 front (omega arith)) is_bits.1
            (omega (arith, total)) in
        let last = ap (ends 0) e ∙ ends-snoc 0 front b in
        omega (arith, total, ap (metric (column rx metrics).curr_metrics) last)

    step-IsSurveyed :
        IsSurveyed
          (rxs ++ (rx ∷ []))
          (column rx metrics).curr_metrics
          ((column rx metrics).survivor ∷ rows)
    step-IsSurveyed = record { attained = step_attained; least = step_least }

forward-IsSurveyed :
    (rest rxs : List (ℕ × ℕ)) (metrics : List ℕ) (rows : List (List ℕ))
    → IsSurveyed rxs metrics rows
    → IsSurveyed (rxs ++ rest) (forward rest metrics rows).0 (forward rest metrics rows).1
unfolding forward
forward-IsSurveyed [] rxs metrics rows s = rw append-nil s
forward-IsSurveyed (rx ∷ rest) rxs metrics rows s =
    let q = append_assoc rxs (rx ∷ []) rest in
    rw (← q) (
      forward-IsSurveyed rest (rxs ++ (rx ∷ [])) (column rx metrics).curr_metrics
        ((column rx metrics).survivor ∷ rows) (step-IsSurveyed rxs rx metrics rows s))

-- The whole loop.
pub survey :
    (rxs : List (ℕ × ℕ))
    → IsSurveyed rxs (forward rxs initial_metrics []).0 (forward rxs initial_metrics []).1
survey rxs = forward-IsSurveyed rxs [] initial_metrics [] initial-IsSurveyed
