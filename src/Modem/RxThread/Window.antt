-- ===== src/Modem/RxThread/Window.antt =====
-- What the buffer of the receiver holds.
use mathlib.Core.Path.{subst}
use qpsk_b.Base.{
  ℕ, ◌+◌, ◌-◌, ◌≤◌, ◌<◌, ◌≡◌, ◌⊎◌, inl, inr, refl, sym, ap, ◌∙◌, Option, none, some, List, [], ◌∷◌,
  ◌++◌, ltb, append_assoc, length, take, drop, length-append, length-drop, drop-of_append,
  take-append-drop, Bool-cases, arith,
}
use qpsk_b.Base.Result.{ok, Returns, Returns-bind, Returns-weaken}
use qpsk_b.Phy.Samples.{Samples}
use qpsk_b.Phy.Decoder.Chain.{Recovery, Decoder, decode, reset}
use qpsk_b.Phy.Decoder.Chain.Counts.{IsCounted, decode-IsCounted}
use qpsk_b.Modem.RxThread.{
  RxThread, new_thread, Recv, failed, batch, trim, take_payload, try_decode, append_samples,
  rx_round, rx_rounds,
}

module _ (c : Samples) (recovery : Recovery c) where
  open c use {Sample}

  -- The buffer is the end of what has been heard since it was cleared: all of it, or the 131072 samples
  -- before the last attempt to decode and those since. It holds no more than 262144 samples beside the
  -- fewer than 16384 that have not been tried.
  pub record IsWindow (t : RxThread c recovery) : Type 0 where
    pub forgotten : List Sample
    pub suffix : t.heard ≡ forgotten ++ t.rx_buffer
    pub reach : (forgotten ≡ []) ⊎ (131072 + t.samples_since_last_decode ≤ length t.rx_buffer)
    pub size : length t.rx_buffer ≤ 262144 + t.samples_since_last_decode
    pub untried : t.samples_since_last_decode < 16384

  trim-IsWindow :
      (t : RxThread c recovery) (forgotten : List Sample)
      → t.heard ≡ forgotten ++ t.rx_buffer
      → (forgotten ≡ []) ⊎ (131072 ≤ length t.rx_buffer)
      → t.samples_since_last_decode ≡ 0
      → IsWindow (trim c recovery t)
  unfolding trim
  trim-IsWindow t forgotten e r z =
      let size = length t.rx_buffer in
      let cut = size - 131072 in
      elim (Bool-cases (ltb 262144 size)) [
        | inl h ↦
            let left = length-drop cut t.rx_buffer in
            rw h (record {
              forgotten = forgotten ++ take cut t.rx_buffer;
              suffix =
                  e
                  ∙ ap (λ l. forgotten ++ l) (sym (take-append-drop cut t.rx_buffer))
                  ∙ sym (append_assoc forgotten (take cut t.rx_buffer) (drop cut t.rx_buffer));
              reach = inr (ground arith);
              size = ground arith;
              untried = omega arith;
            })
        | inr h ↦ rw h (record {
          forgotten = forgotten;
          suffix = e;
          reach = ground arith;
          size = ground arith;
          untried = omega arith;
        })
      ]

  decode-Returns :
      (d : Decoder c recovery) (samples : List Sample)
      → Returns (λ r. Unit) (decode c recovery d samples)
  decode-Returns d [] = unfold decode in tt
  decode-Returns d (s ∷ samples) =
      Returns-weaken (IsCounted c recovery d.rx.diag) (λ r. Unit)
        (decode c recovery d (s ∷ samples)) (λ r h. tt) (decode-IsCounted c recovery d s samples)

  take_payload-IsWindow :
      (decoded : Option (List ℕ)) (t : RxThread c recovery) (forgotten : List Sample)
      → t.heard ≡ forgotten ++ t.rx_buffer
      → (forgotten ≡ []) ⊎ (131072 ≤ length t.rx_buffer)
      → t.samples_since_last_decode ≡ 0
      → IsWindow (take_payload c recovery decoded t)
  unfolding take_payload
  take_payload-IsWindow none t forgotten e r z = trim-IsWindow t forgotten e r z
  take_payload-IsWindow (some []) t forgotten e r z = trim-IsWindow t forgotten e r z
  take_payload-IsWindow (some (byte ∷ bytes)) t forgotten e r z = record {
    forgotten = [];
    suffix = refl;
    reach = inl refl;
    size = omega arith;
    untried = omega arith;
  }

  try_decode-IsWindow :
      (t : RxThread c recovery) (forgotten : List Sample)
      → t.heard ≡ forgotten ++ t.rx_buffer
      → (forgotten ≡ []) ⊎ (131072 ≤ length t.rx_buffer)
      → Returns IsWindow (try_decode c recovery t)
  unfolding try_decode
  try_decode-IsWindow t forgotten e r =
      Returns-bind (λ r. Unit) IsWindow (decode c recovery (reset c recovery t.decoder) t.rx_buffer)
        _ (decode-Returns (reset c recovery t.decoder) t.rx_buffer)
        (λ result h.
          take_payload-IsWindow result.0
            (record t { decoder = result.1; samples_since_last_decode = 0 }) forgotten e r refl)

  rx_round-IsWindow :
      (r : Recv c recovery) (t : RxThread c recovery)
      → IsWindow t
      → Returns IsWindow (rx_round c recovery r t)
  unfolding rx_round append_samples
  rx_round-IsWindow failed t i = i
  rx_round-IsWindow (batch []) t i = i
  rx_round-IsWindow (batch (s ∷ samples)) t i =
      let grown = length-append t.rx_buffer (s ∷ samples) in
      let suffix =
        ap (λ l. l ++ (s ∷ samples)) i.suffix
        ∙ append_assoc i.forgotten t.rx_buffer (s ∷ samples) in
      let since = t.samples_since_last_decode + length (s ∷ samples) in
      let reach : (i.forgotten ≡ []) ⊎ (131072 + since ≤ length (t.rx_buffer ++ (s ∷ samples))) =
        elim i.reach [ inl e ↦ inl e | inr h ↦ inr (omega arith) ] in
      elim (Bool-cases (ltb since 16384)) [
        | inl h ↦ rw h (record {
          forgotten = i.forgotten;
          suffix = suffix;
          reach = reach;
          size = omega (arith, i.size);
          untried = ground arith;
        })
        | inr h ↦ rw h (
            try_decode-IsWindow (append_samples c recovery (s ∷ samples) t) i.forgotten suffix
              (elim reach [ inl e ↦ inl e | inr h ↦ inr (omega arith) ]))
      ]

  rounds-IsWindow :
      (rounds : List (Recv c recovery)) (t : RxThread c recovery)
      → IsWindow t
      → Returns IsWindow (rx_rounds c recovery rounds t)
  unfolding rx_rounds
  rounds-IsWindow [] t i = i
  rounds-IsWindow (r ∷ rounds) t i =
      Returns-bind IsWindow IsWindow (rx_round c recovery r t) _ (rx_round-IsWindow r t i)
        (rounds-IsWindow rounds)

  -- Whatever the radio gives, no fault ends the loop, and its buffer is a window as `IsWindow` describes it.
  pub rx_rounds-IsWindow :
      (rounds : List (Recv c recovery)) (decoder : Decoder c recovery)
      → Returns IsWindow (rx_rounds c recovery rounds (new_thread c recovery decoder))
  unfolding new_thread
  rx_rounds-IsWindow rounds decoder = rounds-IsWindow rounds _ (record {
    forgotten = [];
    suffix = refl;
    reach = inl refl;
    size = omega arith;
    untried = omega arith;
  })

  -- A burst of at most 131072 samples, heard since the buffer was last cleared, of which the last sample has
  -- come after the last attempt to decode: it is in the buffer as a whole, for the next attempt.
  pub rx_rounds-whole_burst :
      (rounds : List (Recv c recovery)) (decoder : Decoder c recovery) (t : RxThread c recovery)
      (before burst after : List Sample)
      → rx_rounds c recovery rounds (new_thread c recovery decoder) ≡ ok t
      → t.heard ≡ before ++ (burst ++ after)
      → length burst ≤ 131072
      → length after < t.samples_since_last_decode
      → (older : List Sample) × (t.rx_buffer ≡ older ++ (burst ++ after))
  rx_rounds-whole_burst rounds decoder t before burst after e heard small late =
      let i : IsWindow t = subst (Returns IsWindow) e (rx_rounds-IsWindow rounds decoder) in
      let total = ap length (sym heard ∙ i.suffix) in
      let bound : length i.forgotten ≤ length before = elim i.reach [
        | inl none_lost ↦ omega (arith, ap length none_lost)
        | inr h ↦ omega (
          arith,
          total,
          length-append before (burst ++ after),
          length-append burst after,
          length-append i.forgotten t.rx_buffer,
        )
      ] in
      (
        drop (length i.forgotten) before,
        sym (
            drop-of_append before (burst ++ after) i.forgotten t.rx_buffer (sym heard ∙ i.suffix)
              bound),
      )
