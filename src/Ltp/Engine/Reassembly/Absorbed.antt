-- ===== src/Ltp/Engine/Reassembly/Absorbed.antt =====
-- What `absorb` makes of a session that holds a part of a block.
use qpsk_b.Base.{
  ℕ, ◌+◌, ◌^◌, ◌<◌, ◌≡◌, refl, sym, ◌∙◌, Bool, true, ◌||◌, List, ◌∷◌, ◌⊎◌, inl, inr, Bool-cases,
  arith, length,
}
use qpsk_b.Base.Result.{ok}
use qpsk_b.Base.Bits.{add64}
use qpsk_b.Ltp.Engine.Reassembly.Buffer.{IsStored}
use qpsk_b.Ltp.Segment.{LtpSegment, DataSegContent}
use qpsk_b.Ltp.SegType.{has_eob}
use qpsk_b.Ltp.Session.{LtpSession, session_key_eq}
use qpsk_b.Ltp.Tracker.Invariant.{add_range-IsValid}
use qpsk_b.Ltp.Tracker.Coverage.{covers, between, covers-add_range}
use qpsk_b.Ltp.Engine.Receive.{absorb, receiver_session}
use qpsk_b.Ltp.Engine.Reassembly.{CarriesPiece, IsPartOf, absorbed, any_ends}

pub total-absorbed :
    (block : List ℕ) (seg : LtpSegment) (ds : DataSegContent) (s : LtpSession) (buffer : List ℕ)
    → length block < 2 ^ 63
    → CarriesPiece block seg ds
    → (s.total_data_length ≡ 0) ⊎ (s.total_data_length ≡ length block)
    → ((absorbed seg ds s buffer).total_data_length ≡ 0)
      ⊎ ((absorbed seg ds s buffer).total_data_length ≡ length block)
total-absorbed block seg ds s buffer hb c t = elim (Bool-cases (has_eob seg.segment_type)) [
  | inl e ↦
      let at_end = c.2 e in
      let wide : add64 ds.offset ds.length ≡ length block = ground arith in rw e (inr wide)
  | inr e ↦ rw e t
]

pub absorbed-IsPartOf :
    (block : List ℕ) (seg : LtpSegment) (ds : DataSegContent) (s : LtpSession) (buffer : List ℕ)
    → length block < 2 ^ 63
    → CarriesPiece block seg ds
    → IsStored block ds s.client_data buffer
    → IsPartOf block s
    → IsPartOf block (absorbed seg ds s buffer)
absorbed-IsPartOf block seg ds s buffer hb c b p =
    let wide : ds.offset + ds.length < 2 ^ 64 = omega (arith, c.1) in
    let old = p.valid in
    let cov = λ (i : ℕ). covers-add_range i ds.offset ds.length s.reception_tracker wide old in
    let long = b.longer in
    record {
      valid = add_range-IsValid ds.offset ds.length s.reception_tracker wide old;
      held = λ i hi. let before = p.held i in let now = sym (cov i) ∙ hi in ground arith;
      agrees = λ i hi.
          let now = sym (cov i) ∙ hi in
          elim (Bool-cases (between ds.offset (ds.offset + ds.length) i)) [
            | inl q ↦ b.inside i q
            | inr q ↦
                let known : covers s.reception_tracker i ≡ true = ground arith in
                b.outside i (p.held i known) q ∙ p.agrees i known
          ];
      short = let small = p.short in omega (arith, c.1);
      total = total-absorbed block seg ds s buffer hb c p.total;
    }

pub absorb-absorbed :
    (block : List ℕ) (seg : LtpSegment) (ds : DataSegContent) (s : LtpSession) (buffer : List ℕ)
    → IsStored block ds s.client_data buffer
    → absorb seg ds s ≡ ok (absorbed seg ds s buffer)
unfolding absorb
absorb-absorbed block seg ds s buffer b = rw b.stored refl

pub or_shift : (t a b c n : Bool) → t ≡ b → n ≡ (b || c) → ((t || a) || c) ≡ true → (a || n) ≡ true
or_shift t a b c n p q h = ground arith

pub ended-absorbed :
    (block : List ℕ) (seg : LtpSegment) (segs : List LtpSegment) (ds : DataSegContent)
    (s : LtpSession) (buffer : List ℕ)
    → length block < 2 ^ 63
    → CarriesPiece block seg ds
    → any_ends (seg ∷ segs) ≡ true ⊎ s.total_data_length ≡ length block
    → any_ends segs ≡ true ⊎ (absorbed seg ds s buffer).total_data_length ≡ length block
ended-absorbed block seg segs ds s buffer hb c h = elim (Bool-cases (has_eob seg.segment_type)) [
  | inl e ↦
      let at_end = c.2 e in
      let wide : add64 ds.offset ds.length ≡ length block = ground arith in rw e (inr wide)
  | inr e ↦ rw e (rw e at h)
]

-- The session with its count of reports changed holds the same.
pub counted-IsPartOf :
    (block : List ℕ) (s : LtpSession) (n : ℕ)
    → IsPartOf block s
    → IsPartOf block (record s { report_serial_counter = n })
counted-IsPartOf block s n p = record {
  valid = p.valid;
  held = p.held;
  agrees = p.agrees;
  short = p.short;
  total = p.total;
}

pub new-IsPartOf : (block : List ℕ) (seg : LtpSegment) → IsPartOf block (receiver_session seg)
unfolding covers
new-IsPartOf block seg = record {
  valid = tt;
  held = λ i h. absurd (ground arith);
  agrees = λ i h. absurd (ground arith);
  short = omega arith;
  total = inl refl;
}
