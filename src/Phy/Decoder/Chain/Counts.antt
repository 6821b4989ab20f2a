-- ===== src/Phy/Decoder/Chain/Counts.antt =====
-- What the counters of the diagnostics say about the calls of `decode`.
use mathlib.Core.Path.{subst}
use qpsk_b.Base.{
  ℕ, ◌+◌, ◌%◌, ◌^◌, ◌≡◌, refl, ap, ◌∙◌, Bool, true, false, Option, none, some, List, ◌∷◌, ltb, ◌==◌,
  if◌then◌else◌, Bool-cases, Option-cases, inl, inr, ◌/◌, length, take,
}
use qpsk_b.Base.Bits.{add64}
use qpsk_b.Base.Result.{Result, ok, err, ◌>>=◌, Returns, Returns-bind}
use qpsk_b.Phy.Samples.{Samples}
use qpsk_b.Phy.Frame.{Frame, ReadFault, parse, parse_unchecked, verify_crc}
use qpsk_b.Phy.Frame.Total.{parse-Returns}
use qpsk_b.Phy.FecDecoder
use qpsk_b.Phy.SymbolMapper.{demap}
use qpsk_b.Phy.FrameSync.{FrameSynchronizer, detect}
use qpsk_b.Phy.PulseShaper.{matched_filter}
use qpsk_b.Phy.Encoder.{make_doubled_preamble}
use qpsk_b.Phy.Decoder.{
  RxState, RxDiagnostics, count_frame, take_coded, take_plain, take_payload, payload_bit_count,
  decode_payload, decode_symbols, corrected_symbols, extract_bits_from_vec, try_decode_frame,
}
use qpsk_b.Phy.Decoder.Chain.{
  Recovery, Decoder, decimate, synchronized, retimed, try_stream, or_next, full_chain,
  without_timing, count_failure, decode,
}

either_branch :
    {A : Type 0} (P : A → Type 0) (b : Bool) (x y : A) → P x → P y → P (if b then x else y)
either_branch P true x y h k = h
either_branch P false x y h k = k

-- A payload is counted as one frame more; without one, the counter of frames stays.
abbrev pub Frames : Option (List ℕ) → ℕ → ℕ → Type 0
Frames (some payload) before after = after ≡ add64 before 1
Frames none before after = after ≡ before

-- Without a payload an error is counted.
abbrev pub Errors : Option (List ℕ) → ℕ → ℕ → Type 0
Errors (some payload) before after = after ≡ before
Errors none before after = after ≡ add64 before 1

record Tried (before : RxDiagnostics) (result : Option (List ℕ) × RxState) : Type 0 where
  frames : Frames result.0 before.frames_received result.1.diag.frames_received
  no_error : result.1.diag.crc_errors ≡ before.crc_errors

nothing-Tried : (r : RxState) → Tried r.diag (none, r)
nothing-Tried r = record { frames = refl; no_error = refl }

take_coded-Tried : (r : RxState) (frame : Frame) → Tried r.diag (take_coded r frame)
unfolding take_coded count_frame
take_coded-Tried r frame =
    let decoded = (FecDecoder.decode r.fec_decoder frame.payload frame.header.payload_length).0 in
    elim (Bool-cases (verify_crc (record frame { payload = decoded }))) [
      | inl t ↦ rw t (record { frames = refl; no_error = refl })
      | inr f ↦ rw f (record { frames = refl; no_error = refl })
    ]

take_plain-Tried : (r : RxState) (frame : Frame) → Tried r.diag (take_plain r frame)
unfolding take_plain count_frame
take_plain-Tried r frame =
    either_branch (Tried r.diag) frame.crc_valid _ _ (record { frames = refl; no_error = refl })
      (nothing-Tried r)

take_payload-Tried :
    (r : RxState) (frame_opt : Option Frame) → Tried r.diag (take_payload r frame_opt)
unfolding take_payload
take_payload-Tried r none = nothing-Tried r
take_payload-Tried r (some frame) =
    either_branch (Tried r.diag) frame.header.fec_enabled _ _ (take_coded-Tried r frame)
      (take_plain-Tried r frame)

parsed :
    (fec : Bool) (bits : List ℕ)
    → Returns (λ o. Unit) (if fec then parse_unchecked bits else parse bits)
parsed fec bits =
    either_branch (Returns (λ o. Unit)) fec _ _ (parse-Returns bits).1 (parse-Returns bits).0

module _ (c : Samples) where
  open c use {Sample}

  decode_payload-Tried :
      (r : RxState) (data_symbols : List Sample) (fec : Bool) (count : ℕ)
      → Returns (Tried r.diag) (decode_payload c r data_symbols fec count)
  unfolding decode_payload
  decode_payload-Tried r data_symbols fec count =
      let symbols = (35 + count + 32 + 1) / 2 in
      let bits = take (35 + count + 32) (demap c (take symbols data_symbols)) in
      elim (Bool-cases (ltb (length data_symbols) symbols)) [
        | inl t ↦ rw t (nothing-Tried r)
        | inr f ↦ rw f (
            Returns-bind (λ o. Unit) (Tried r.diag)
              (if fec then parse_unchecked bits else parse bits) (λ o. ok (take_payload r o))
              (parsed fec bits) (λ o u. take_payload-Tried r o))
      ]

  decode_symbols-Tried :
      (r : RxState) (data_symbols : List Sample)
      → Returns (Tried r.diag) (decode_symbols c r data_symbols)
  unfolding decode_symbols
  decode_symbols-Tried r data_symbols =
      let bits = demap c (take 18 data_symbols) in
      let fec = if extract_bits_from_vec bits 20 1 == 0 then false else true in
      let count =
        payload_bit_count (extract_bits_from_vec bits 0 16 % 2 ^ 16) fec
          (extract_bits_from_vec bits 21 2 % 256) in
      either_branch (Returns (Tried r.diag)) (ltb (length data_symbols) 18) _ _ (nothing-Tried r)
        (elim (Option-cases count) [
          | inl e ↦ rw (Returns, e) (nothing-Tried r)
          | inr (n, e) ↦ rw (Returns, e) (decode_payload-Tried r data_symbols fec n)
        ])

  try_decode_frame-Tried :
      (recovered : List Sample) (preamble : List ℕ) (sync : FrameSynchronizer c) (r : RxState)
      → Returns (Tried r.diag) (try_decode_frame c recovered preamble sync r)
  unfolding try_decode_frame
  try_decode_frame-Tried recovered preamble sync r = elim (Option-cases (detect c sync recovered)) [
    | inl e ↦ rw (Returns, e) (nothing-Tried r)
    | inr (start, e) ↦
        rw (Returns, e) (decode_symbols-Tried r (corrected_symbols c preamble recovered start))
  ]

module _ (c : Samples) (recovery : Recovery c) where
  open c use {Sample}

  -- One stream has been tried since the counters were as in `before`, and all streams before it in vain.
  abbrev StreamTried : RxDiagnostics → Option (List ℕ) × Decoder c recovery → Type 0
  StreamTried before result = Tried before (result.0, result.1.rx)

  -- A call counts one frame, or one error.
  pub record IsCounted (before : RxDiagnostics) (result : Option (List ℕ) × Decoder c recovery)
      : Type 0 where
    pub frames : Frames result.0 before.frames_received result.1.rx.diag.frames_received
    pub errors : Errors result.0 before.crc_errors result.1.rx.diag.crc_errors

  later :
      (before : RxDiagnostics) (d : Decoder c recovery)
      (result : Option (List ℕ) × Decoder c recovery)
      → StreamTried before (none, d)
      → StreamTried d.rx.diag result
      → StreamTried before result
  later before d result h k = record {
    frames = subst (λ n. Frames result.0 n result.1.rx.diag.frames_received) h.frames k.frames;
    no_error = k.no_error ∙ h.no_error;
  }

  try_stream-tried :
      (before : RxDiagnostics) (recovered : List Sample) (d : Decoder c recovery)
      → StreamTried before (none, d)
      → Returns (StreamTried before) (try_stream c recovery recovered d)
  unfolding try_stream
  try_stream-tried before recovered d h =
      let preamble = make_doubled_preamble d.preamble in
      Returns-bind (Tried d.rx.diag) (StreamTried before)
        (try_decode_frame c recovered preamble d.frame_sync d.rx) _
        (try_decode_frame-Tried c recovered preamble d.frame_sync d.rx)
        (λ r t. later before d (r.0, record d { rx = r.1 }) h t)

  or_next-IsCounted :
      (before : RxDiagnostics) (stream : Result ReadFault (Option (List ℕ) × Decoder c recovery))
      (next : Decoder c recovery → Result ReadFault (Option (List ℕ) × Decoder c recovery))
      → Returns (StreamTried before) stream
      → ((d : Decoder c recovery)
          → StreamTried before (none, d)
          → Returns (IsCounted before) (next d))
      → Returns (IsCounted before) (stream >>= (λ r. or_next c recovery r next))
  unfolding or_next
  or_next-IsCounted before (err e) next h k = absurd h
  or_next-IsCounted before (ok (some payload, d)) next h k = record {
    frames = h.frames;
    errors = h.no_error;
  }
  or_next-IsCounted before (ok (none, d)) next h k = k d h

  -- A call of `decode` on some samples returns; a payload is counted as one frame more and no payload as
  -- one error more, whichever of the three streams it came from and whatever the loops make of them.
  pub decode-IsCounted :
      (d : Decoder c recovery) (s : Sample) (samples : List Sample)
      → Returns (IsCounted d.rx.diag) (decode c recovery d (s ∷ samples))
  unfolding decode full_chain without_timing synchronized retimed count_failure
  decode-IsCounted d s samples =
      let filtered = matched_filter c d.shaper (s ∷ samples) in
      let before = d.rx.diag in
      or_next-IsCounted before (full_chain c recovery filtered d) _
        (try_stream-tried before _ _ (record { frames = refl; no_error = refl }))
        (λ d h.
          or_next-IsCounted before (try_stream c recovery (decimate c recovery d filtered) d) _
            (try_stream-tried before _ d h)
            (λ d h.
              or_next-IsCounted before (without_timing c recovery filtered d) _
                (try_stream-tried before _ _ (record { frames = h.frames; no_error = h.no_error }))
                (λ d h. record { frames = h.frames; errors = ap (λ n. add64 n 1) h.no_error })))
