-- ===== src/Tests/Transfers.antt =====
-- A block of five bytes in three segments, which arrive out of order and one of them twice.
use mathlib.Core.List.{Memᴰ}
use qpsk_b.Base.{ℕ, ◌≡◌, ◌⊎◌, refl, true, false, none, some, List, [], ◌∷◌, map, All, arith}
use qpsk_b.Base.Result.{ok}
use qpsk_b.Ltp.Segment.{LtpSegment, data_seg, rpt_ack}
use qpsk_b.Ltp.SegType.{red_data, red_data_cp_eorp_eob, report_ack}
use qpsk_b.Ltp.Session.{LtpSession, key, session_key_eq}
use qpsk_b.Base.Assoc.{lookup}
use qpsk_b.Ltp.Engine.State.{Engine, new_engine, slice, segment}
use qpsk_b.Ltp.Engine.Originate.{
  data_content, originator_session, segment_data_impl, segment_loop, chunk_segment,
}
use qpsk_b.Ltp.Engine.Originate.Chunks.{AreChunks, EndsAlone, segment_data_impl-AreChunks}
use qpsk_b.Ltp.Engine.Dispatch.{receive, receive_segment, run}
use qpsk_b.Ltp.Engine.Reassembly.{Carries, any_ends}
use qpsk_b.Ltp.Engine.Reassembly.Reporting.{deliveries}
use qpsk_b.Ltp.Engine.Reassembly.Acknowledged.{IsAckFor, IsHandedOver}
use qpsk_b.Ltp.Engine.Reassembly.Taken.{IsRedFor}
use qpsk_b.Ltp.Engine.Reassembly.Delivery.{deliver_lem, complete_lem}
use qpsk_b.Ltp.Engine.Transfer.{transfer}

abbrev block : List ℕ
block = 10 ∷ 20 ∷ 30 ∷ 40 ∷ 50 ∷ []

abbrev sender : LtpSession
sender = originator_session 1 1 block true

abbrev first_segment : LtpSegment
first_segment = segment red_data 1 1 (data_seg (data_content 0 2 none none (10 ∷ 20 ∷ [])))

abbrev second_segment : LtpSegment
second_segment = segment red_data 1 1 (data_seg (data_content 2 2 none none (30 ∷ 40 ∷ [])))

abbrev last_segment : LtpSegment
last_segment =
    segment red_data_cp_eorp_eob 1 1 (data_seg (data_content 4 1 (some 1) (some 0) (50 ∷ [])))

abbrev made : List LtpSegment
made = first_segment ∷ second_segment ∷ last_segment ∷ []

abbrev arrived : List LtpSegment
arrived = last_segment ∷ first_segment ∷ second_segment ∷ first_segment ∷ []

made_segments : segment_data_impl sender 2 0 ≡ ok (made, 1)
unfolding segment_data_impl segment_loop chunk_segment slice
made_segments = refl

abbrev engine : Engine
engine =
    new_engine
      (record {
        local_engine_id = 2;
        remote_engine_id = 1;
        max_segment_size = 2;
        retransmission_timeout_ms = 1000;
        max_retransmissions = 10;
        max_concurrent_sessions = 1;
      })
      (record {
        data_arrival = true;
        session_complete = false;
        session_failure = false;
        send_segment = true;
      })
      none

-- The acknowledgement of the report on the checkpoint.
abbrev ack : LtpSegment
ack = segment report_ack 1 1 (rpt_ack (record { report_serial = 1 }))

acknowledges : IsAckFor (key 1 1) ack
acknowledges = (refl, refl, _, refl)

no_session : lookup (key 1 1) engine.sessions ≡ none
unfolding lookup
no_session = refl

transfer_example :
    (e1 : Engine) × (e2 : Engine) × (run (map receive arrived) engine ≡ ok e1)
    × (deliveries e1.effects ≡ deliveries engine.effects)
    × (receive_segment ack e1 ≡ ok e2)
    × IsHandedOver (key 1 1) block e1 e2
transfer_example =
    transfer sender 2 0 (made, 1) arrived ack engine refl (omega arith) (omega arith) (omega arith)
      made_segments
      (
        Memᴰ.tail (Memᴰ.tail (Memᴰ.head refl)),
        (Memᴰ.head refl, (Memᴰ.tail (Memᴰ.head refl), (Memᴰ.head refl, tt))),
      )
      (Memᴰ.tail (Memᴰ.head refl), (Memᴰ.tail (Memᴰ.tail (Memᴰ.head refl)), (Memᴰ.head refl, tt)))
      acknowledges no_session (omega arith) refl

Carries-first : Carries block first_segment
Carries-first = (_, refl, (refl, omega arith, λ e. absurd (ground arith)))

Carries-second : Carries block second_segment
Carries-second = (_, refl, (refl, omega arith, λ e. absurd (ground arith)))

Carries-last : Carries block last_segment
Carries-last = (_, refl, (refl, omega arith, λ e. refl))

all_red : All (IsRedFor (key 1 1)) arrived
all_red = ((refl, refl), ((refl, refl), ((refl, refl), ((refl, refl), tt))))

deliver_lem_example :
    (e1 : Engine) × (e2 : Engine) × (run (map receive arrived) engine ≡ ok e1)
    × (deliveries e1.effects ≡ deliveries engine.effects)
    × (receive_segment ack e1 ≡ ok e2)
    × IsHandedOver (key 1 1) block e1 e2
deliver_lem_example =
    deliver_lem block (key 1 1) arrived ack engine (omega arith) (omega arith) all_red
      (Carries-last, (Carries-first, (Carries-second, (Carries-first, tt)))) acknowledges no_session
      (omega arith) refl (λ i h. ground arith) refl

-- The last segment and the first: the middle of the block is missing.
complete_lem_example :
    (e1 : Engine) × (e2 : Engine) × (run (map receive (last_segment ∷ first_segment ∷ [])) engine
      ≡ ok e1)
    × (deliveries e1.effects ≡ deliveries engine.effects)
    × (receive_segment ack e1 ≡ ok e2)
    × ((deliveries e2.effects ≡ deliveries e1.effects)
        ⊎ (IsHandedOver (key 1 1) block e1 e2
            ⊎ ((any_ends (last_segment ∷ first_segment ∷ []) ≡ false)
                × IsHandedOver (key 1 1) [] e1 e2)))
complete_lem_example =
    complete_lem block (key 1 1) (last_segment ∷ first_segment ∷ []) ack engine (omega arith)
      (omega arith) ((refl, refl), ((refl, refl), tt)) (Carries-last, (Carries-first, tt))
      acknowledges no_session (omega arith) refl (omega arith)

segment_data_impl-AreChunks_example :
    (r : List LtpSegment × ℕ) × (segment_data_impl sender 2 0 ≡ ok r)
    × AreChunks sender 2 0 r.0
    × EndsAlone r.0
segment_data_impl-AreChunks_example = segment_data_impl-AreChunks sender 2 0 (omega arith)
