-- ===== src/Tests/Link.antt =====
-- A frame of two bytes over an ideal channel, and the error corrector by itself.
use qpsk_b.Base.{
  ℕ, ◌≡◌, refl, Bool, true, false, Option, some, List, [], ◌∷◌, ◌++◌, ◌≤◌, ◌<◌, All, length, take,
  arith,
}
use qpsk_b.Base.Result.{Result, ok, err}
use qpsk_b.Phy.Samples.{Samples}
use qpsk_b.Phy.Frame
use qpsk_b.Phy.Frame.{
  FrameBuilder, build_frame, next_header, push_bits, payload_bits, compute_crc32, crc_loop,
  crc32_table, crc_rounds,
}
use qpsk_b.Phy.FecEncoder
use qpsk_b.Phy.FecEncoder.{
  rate_1_2, rate_3_4, parity, input_bits, rate_half, shift, puncture, coded_bits, pack,
}
use qpsk_b.Phy.FecDecoder
use qpsk_b.Phy.FecDecoder.{FecDecoder, pairs, viterbi}
use qpsk_b.Phy.FecDecoder.Optimal.{mismatches, viterbi-nearest}
use qpsk_b.Phy.FecDecoder.RoundTrip.{decode-fec_encode}
use qpsk_b.Phy.SymbolMapper
use qpsk_b.Phy.SymbolMapper.{SymbolFault, map_loop, constellation, demap}
use qpsk_b.Phy.SymbolMapper.RoundTrip.{demap-map}
use qpsk_b.Phy.FrameSync.{
  FrameSynchronizer, bpsk_map_preamble, detect, search_loop, is_found, correlate, energy,
}
use qpsk_b.Phy.FrameSync.Bounds.{IsFirst, detect-IsFirst}
use qpsk_b.Phy.Encoder.{Config, make_doubled_preamble, rate_value, splice, frame_bits, data_bits}
use qpsk_b.Phy.Decoder.{RxState, corrected_symbols, phase_correction, try_decode_frame}
use qpsk_b.Phy.Link.{try_decode_frame-delivers}
use qpsk_b.Phy.Link.Received.{Delivers}

-- Five numbers are enough for the points of the constellation and of the preamble.
pub data Level : Type 0 where
  low minus nought plus high : Level

abbrev is_above : Level → Bool
is_above plus = true
is_above high = true
is_above l = false

abbrev is_below : Level → Bool
is_below low = true
is_below minus = true
is_below l = false

abbrev is_not : Bool → Bool
is_not true = false
is_not false = true

abbrev pub ideal : Samples
ideal = record {
  Real = Level;
  Sample = Level × Level;
  zero_real = nought;
  one = high;
  minus_one = low;
  sqrt1_2 = plus;
  minus_sqrt1_2 = minus;
  sync_floor = nought;
  phase_floor = nought;
  point = λ x y. (x, y);
  real = λ s. s.0;
  imag = λ s. s.1;
  is_positive = is_above;
  is_not_negative = λ x. is_not (is_below x);
  is_not_positive = λ x. is_not (is_above x);
  is_less = λ x y. false;
  is_at_least = λ x y. true;
  add_real = λ x y. x;
  times_real = λ x y. x;
  divide_real = λ x y. x;
  sqrt = λ x. x;
  add = λ s p. s;
  times = λ s p. s;
  conj = λ s. s;
  norm = λ s. s.0;
  abs = λ s. s.0;
  scale = λ s x. s;
  divide = λ s x. s;
  real-point = λ x y. refl;
  imag-point = λ x y. refl;
  is_positive-sqrt1_2 = refl;
  is_not_negative-sqrt1_2 = refl;
  is_not_positive-sqrt1_2 = refl;
  is_positive-minus = refl;
  is_not_negative-minus = refl;
  is_not_positive-minus = refl;
}

abbrev config : Config
config = record {
  preamble = 1 ∷ 0 ∷ [];
  fec_enabled = true;
  fec_code_rate = rate_3_4;
  acquisition_symbols = 2;
}

abbrev builder : FrameBuilder
builder = record { preamble = 1 ∷ 0 ∷ 1 ∷ 0 ∷ []; seq_num = 7 }

abbrev payload : List ℕ
payload = 0xA7 ∷ 0x05 ∷ []

symbols_of : Result SymbolFault (List (Level × Level) × ℕ) → List (Level × Level)
symbols_of (ok p) = p.0
symbols_of (err e) = []

sent : List (Level × Level)
sent = symbols_of (SymbolMapper.map ideal (data_bits config builder payload))

recovered : List (Level × Level)
unfolding sent
recovered = bpsk_map_preamble ideal (1 ∷ 0 ∷ 1 ∷ 0 ∷ []) ++ sent

abbrev pub sync : FrameSynchronizer ideal
sync = record {
  preamble_symbols = (low, nought) ∷ (high, nought) ∷ (low, nought) ∷ (high, nought) ∷ [];
  threshold = plus;
}

abbrev fec : FecDecoder
fec = record { code_rate = rate_3_4; corrected_errors = 5 }

abbrev pub state : RxState
state = record {
  fec_decoder = fec;
  diag = record { frames_received = 0; crc_errors = 0; fec_errors_corrected = 0 };
}

sent_lem : SymbolMapper.map ideal (data_bits config builder payload) ≡ ok (sent, 1)
unfolding sent symbols_of data_bits frame_bits splice build_frame next_header Frame.frame_bits
    Frame.header_bytes push_bits payload_bits compute_crc32 crc_loop crc32_table crc_rounds
    rate_value FecEncoder.encode parity input_bits rate_half shift puncture coded_bits pack
    SymbolMapper.map map_loop constellation
sent_lem = refl

found : detect ideal sync recovered ≡ some 4
unfolding recovered detect search_loop is_found correlate energy bpsk_map_preamble sent symbols_of
    data_bits frame_bits splice build_frame next_header Frame.frame_bits Frame.header_bytes
    push_bits payload_bits compute_crc32 crc_loop crc32_table crc_rounds rate_value
    FecEncoder.encode parity input_bits rate_half shift puncture coded_bits pack SymbolMapper.map
    map_loop constellation
found = refl

heard :
    demap ideal (take (length sent) (corrected_symbols ideal (1 ∷ 0 ∷ 1 ∷ 0 ∷ []) recovered 4))
    ≡ demap ideal sent
unfolding recovered corrected_symbols phase_correction bpsk_map_preamble sent symbols_of data_bits
    frame_bits splice build_frame next_header Frame.frame_bits Frame.header_bytes push_bits
    payload_bits compute_crc32 crc_loop crc32_table crc_rounds rate_value FecEncoder.encode parity
    input_bits rate_half shift puncture coded_bits pack SymbolMapper.map map_loop constellation
heard = refl

try_decode_frame-delivers_example :
    (result : Option (List ℕ) × RxState) × (try_decode_frame ideal recovered
        (1 ∷ 0 ∷ 1 ∷ 0 ∷ [])
        sync
        state
      ≡ ok result)
    × Delivers state payload result
unfolding make_doubled_preamble
try_decode_frame-delivers_example =
    try_decode_frame-delivers ideal config builder payload 1 sent recovered sync 4 state refl
      (omega arith) (omega arith) refl (omega arith) sent_lem found heard

decode-fec_encode_example :
    FecDecoder.decode fec (FecEncoder.encode rate_3_4 payload) 2 ≡ (payload, fec)
decode-fec_encode_example = decode-fec_encode fec payload (omega arith) (omega arith) (omega arith)

-- The codeword of 1 0 1 with its third bit changed and its last bit lost.
viterbi-nearest_example :
    All (λ b. b < 2) (viterbi (pairs (1 ∷ 1 ∷ 0 ∷ 1 ∷ 0 ∷ 2 ∷ [])))
    × (length (viterbi (pairs (1 ∷ 1 ∷ 0 ∷ 1 ∷ 0 ∷ 2 ∷ []))) ≡ 3)
    × (mismatches
          (1 ∷ 1 ∷ 0 ∷ 1 ∷ 0 ∷ 2 ∷ [])
          (rate_half 0 (viterbi (pairs (1 ∷ 1 ∷ 0 ∷ 1 ∷ 0 ∷ 2 ∷ []))))
        ≤ mismatches (1 ∷ 1 ∷ 0 ∷ 1 ∷ 0 ∷ 2 ∷ []) (rate_half 0 (1 ∷ 0 ∷ 1 ∷ [])))
viterbi-nearest_example =
    viterbi-nearest (1 ∷ 1 ∷ 0 ∷ 1 ∷ 0 ∷ 2 ∷ []) (1 ∷ 0 ∷ 1 ∷ []) (omega arith) refl (omega arith)

demap-map_example :
    (symbols : List (Level × Level)) × (SymbolMapper.map ideal (1 ∷ 0 ∷ 1 ∷ []) ≡ ok (symbols, 1))
    × (demap ideal symbols ≡ 1 ∷ 0 ∷ 1 ∷ 0 ∷ [])
demap-map_example = demap-map ideal (1 ∷ 0 ∷ 1 ∷ []) (omega arith)

detect-IsFirst_example : IsFirst ideal sync recovered 4
detect-IsFirst_example = detect-IsFirst ideal sync recovered 4 found
