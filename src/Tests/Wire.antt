-- ===== src/Tests/Wire.antt =====
-- Numbers, segments and framed messages as bytes.
use qpsk_b.Base.{
  joined, ℕ, ◌+◌, ◌-◌, ◌^◌, ◌≤◌, ◌<◌, ◌≡◌, refl, some, List, [], ◌∷◌, ◌++◌, length, arith,
}
use qpsk_b.Base.Result.{ok, err}
use qpsk_b.Ltp.Sdnv.{Cursor, encode_into, decode, decode_from, decode_loop}
use qpsk_b.Ltp.Sdnv.Bounds.{Took, decode-Took}
use qpsk_b.Ltp.Sdnv.Encode.{lead, encoding, encode_into_lem}
use qpsk_b.Ltp.Sdnv.RoundTrip.{decode-encode_into}
use qpsk_b.Ltp.Segment.{LtpSegment, data_seg, out_of_bounds}
use qpsk_b.Ltp.Segment.Bytes.{IsWellFormed, segment_bytes}
use qpsk_b.Ltp.Segment.Encoder
use qpsk_b.Ltp.Segment.Decoder
use qpsk_b.Ltp.Segment.Format.{encode-bytes}
use qpsk_b.Ltp.Segment.RoundTrip.{decode-encode}
use qpsk_b.Ltp.Engine.Originate.{data_content}
use qpsk_b.Ltp.Framing.{frame_message, extract_framed_message, length_prefix, on_reads}
use qpsk_b.Ltp.Framing.RoundTrip.{extract_wraps}
use qpsk_b.Ltp.Framing.Stream.{frames, on_reads-frames}

-- 300 takes two bytes.
decode-encode_into_example :
    (decode (record { offset = 7; rest = encode_into 300 [] ++ 9 ∷ [] })
      ≡ ok (300, record { offset = 7 + length (encode_into 300 []); rest = 9 ∷ [] }))
    × (1 ≤ length (encode_into 300 []))
    × (length (encode_into 300 []) ≤ 10)
decode-encode_into_example = decode-encode_into 300 7 (9 ∷ []) (omega arith)

encoded_300 : encode_into 300 [] ≡ 130 ∷ 44 ∷ []
unfolding encoding lead
encoded_300 = encode_into_lem 300 [] (omega arith)

abbrev two_bytes : Cursor
two_bytes = record { offset = 0; rest = 130 ∷ 44 ∷ 9 ∷ [] }

decoded_300 : decode two_bytes ≡ ok (300, record { offset = 2; rest = 9 ∷ [] })
unfolding decode decode_from decode_loop
decoded_300 = refl

decode-Took_example : Took 0 3 300 (record { offset = 2; rest = 9 ∷ [] })
decode-Took_example = decode-Took two_bytes (record { offset = 2; rest = 9 ∷ [] }) 300 decoded_300

-- A checkpoint of red data with an extension.
abbrev sample : LtpSegment
sample = record {
  version = 0;
  segment_type = 3;
  engine_id = 300;
  session_number = 2;
  header_ext_count = 1;
  trailer_ext_count = 0;
  header_extensions = record { tag = 5; value = 1 ∷ 2 ∷ [] } ∷ [];
  trailer_extensions = [];
  content = data_seg (data_content 128 2 (some 1) (some 0) (7 ∷ 8 ∷ []));
}

sample-IsWellFormed : IsWellFormed sample
sample-IsWellFormed = record {
  version = refl;
  engine_id = omega arith;
  session_number = omega arith;
  header_count = refl;
  trailer_count = refl;
  header = (omega arith, tt);
  trailer = tt;
  content = (omega arith, omega arith, omega arith, omega arith, refl, (omega arith, omega arith));
}

sample_small : length (segment_bytes sample) < 2 ^ 63
unfolding encoding lead
sample_small = omega arith

decode-encode_example :
    (out : List ℕ) × (Encoder.encode sample ≡ ok out) × (Decoder.decode out ≡ ok sample)
decode-encode_example = decode-encode sample sample-IsWellFormed sample_small

encode-bytes_example : Encoder.encode sample ≡ ok (segment_bytes sample)
encode-bytes_example = encode-bytes sample sample-IsWellFormed

extract_wraps_example :
    extract_framed_message (length_prefix (2 ^ 32 - 1) ++ 1 ∷ []) ≡ err out_of_bounds
extract_wraps_example =
    extract_wraps (2 ^ 32 - 1) (1 ∷ []) (omega arith) (omega arith) (omega arith)

abbrev messages : List (List ℕ)
messages = (1 ∷ 2 ∷ []) ∷ [] ∷ (3 ∷ []) ∷ []

-- Two messages and a part of the third come with the first read.
abbrev reads : List (List ℕ)
reads = (0 ∷ 0 ∷ 0 ∷ 2 ∷ 1 ∷ 2 ∷ 0 ∷ 0 ∷ 0 ∷ 0 ∷ 0 ∷ 0 ∷ []) ∷ (0 ∷ []) ∷ (1 ∷ 3 ∷ []) ∷ []

whole_stream : joined reads ≡ frames messages
unfolding frame_message length_prefix
whole_stream = refl

on_reads-frames_example : on_reads [] reads ≡ ok (messages, [])
on_reads-frames_example =
    on_reads-frames messages reads (omega arith, (omega arith, (omega arith, tt))) whole_stream
