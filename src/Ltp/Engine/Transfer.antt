-- ===== src/Ltp/Engine/Transfer.antt =====
-- From the segments that the originator makes of a block to the block that the receiver hands over.
pub mod Pieces
pub mod Members
use mathlib.Core.Path.{subst}
use mathlib.Core.List.{Memᴰ}
use qpsk_b.Base.{
  ℕ, zero, suc, ◌+◌, ◌-◌, ◌^◌, ◌≤◌, ◌<◌, ◌≡◌, refl, ap, sym, ◌∙◌, Bool, true, false, ◌&&◌, ◌||◌,
  none, some, List, [], ◌∷◌, ◌++◌, inl, inr, Bool-cases, leb, ltb, ◌==◌, arith, length, take, drop,
  All, take-append-drop, map,
}
use qpsk_b.Base.Elements.{drop-drop, drop_all}
use qpsk_b.Base.Result.{Result, ok, err, ◌>>=◌}
use qpsk_b.Ltp.Segment.{DataSegContent, data_seg, LtpSegment, Fault, get_data}
use qpsk_b.Ltp.SegType.{has_eob}
use qpsk_b.Ltp.Session.{LtpSession, key, session_key_eq}
use qpsk_b.Ltp.Tracker.{is_complete}
use qpsk_b.Ltp.Tracker.Coverage.{between}
use qpsk_b.Ltp.Engine.State.{slice, Engine}
use qpsk_b.Ltp.Engine.Originate.{segment_data_impl}
use qpsk_b.Ltp.Engine.Originate.Chunks.{IsChunk, AreChunks, EndsAlone, segment_data_impl-AreChunks}
use qpsk_b.Ltp.Engine.Receive.{receiver_session}
use qpsk_b.Ltp.Engine.Reassembly.{CarriesPiece, Carries, touches, any_touches, any_ends}
use qpsk_b.Base.Assoc.{lookup}
use qpsk_b.Ltp.Engine.Dispatch.{receive, receive_segment, run}
use qpsk_b.Ltp.Engine.Reassembly.Reporting.{deliveries}
use qpsk_b.Ltp.Engine.Reassembly.Acknowledged.{IsAckFor, IsHandedOver}
use qpsk_b.Ltp.Engine.Reassembly.Taken.{IsRedFor}
use qpsk_b.Ltp.Engine.Reassembly.Delivery.{deliver_lem}
use qpsk_b.Ltp.Engine.Transfer.Pieces.{
  AreChunks-Carries, AreChunks-touches, EndsAlone-ends, AreChunks-IsRedFor,
}
use qpsk_b.Ltp.Engine.Transfer.Members.{All-Mems, Mems-touches, Mems-ends}

-- The data of the segments, one after another.
unfoldable pub payload : List LtpSegment → List ℕ
payload [] = []
payload (seg ∷ segs) = elim (get_data seg.content) [ ok ds ↦ ds.bytes | err x ↦ [] ] ++ payload segs

payload-AreChunks :
    (s : LtpSession) (max_seg offset : ℕ) (segs : List LtpSegment)
    → AreChunks s max_seg offset segs
    → payload segs ≡ drop offset s.client_data
unfolding payload
payload-AreChunks s max_seg offset [] c = sym (drop_all offset s.client_data (omega arith))
payload-AreChunks s max_seg offset (seg ∷ segs) c =
    let (ds, p, rest) = c in
    rw (p.content, p.bytes, payload-AreChunks s max_seg (offset + ds.length) segs rest)
      (ap (λ t. take ds.length (drop offset s.client_data) ++ t)
          (sym (drop-drop offset ds.length s.client_data))
        ∙ take-append-drop ds.length (drop offset s.client_data))

-- The segments that `segment_data` makes of a red block that is not empty, with a positive limit on their
-- size, arrive in any order and with any repetitions, each at least once, at an engine that has no such
-- session and room for one: nothing is handed over until the acknowledgement of a report for the session
-- arrives, which hands over exactly the block, once, and the session is forgotten.
pub transfer :
    (s : LtpSession) (max_seg cp : ℕ) (made : List LtpSegment × ℕ) (arrived : List LtpSegment)
    (ack : LtpSegment) (e : Engine)
    → s.is_red ≡ true
    → 0 < max_seg
    → 0 < length s.client_data
    → length s.client_data < 2 ^ 63
    → segment_data_impl s max_seg cp ≡ ok made
    → All (λ seg. Memᴰ seg made.0) arrived
    → All (λ seg. Memᴰ seg arrived) made.0
    → IsAckFor (key s.engine_id s.session_number) ack
    → lookup (key s.engine_id s.session_number) e.sessions ≡ none
    → length e.sessions < e.config.max_concurrent_sessions
    → e.callbacks.data_arrival ≡ true
    → (e1 : Engine) × (e2 : Engine) × (run (map receive arrived) e ≡ ok e1)
      × (deliveries e1.effects ≡ deliveries e.effects)
      × (receive_segment ack e1 ≡ ok e2)
      × IsHandedOver (key s.engine_id s.session_number) s.client_data e1 e2
transfer s max_seg cp made arrived ack e red m h hb q into onto acks new room calls =
    let (made', q', c, alone) = segment_data_impl-AreChunks s max_seg cp m in
    let ran : ok made' ≡ segment_data_impl s max_seg cp = sym q' in
    let same : made' ≡ made = cc in
    let k = key s.engine_id s.session_number in
    let chunks = subst (λ p. AreChunks s max_seg 0 p.0) same c in
    let all_red = AreChunks-IsRedFor s max_seg 0 made.0 red chunks in
    let carried = AreChunks-Carries s max_seg 0 made.0 chunks in
    deliver_lem s.client_data k arrived ack e h hb
      (All-Mems (IsRedFor k) made.0 arrived all_red into)
      (All-Mems (Carries s.client_data) made.0 arrived carried into) acks new room calls
      (λ i hi.
        Mems-touches made.0 arrived i onto
          (AreChunks-touches s max_seg 0 made.0 i chunks (omega arith) hi))
      (Mems-ends made.0 arrived onto
        (EndsAlone-ends made.0 (subst (λ p. EndsAlone p.0) same alone)))

-- With a positive limit, `segment_data` returns, and the data of its segments, one after another, is
-- the block.
pub payload-segment_data_impl :
    (s : LtpSession) (max_seg cp : ℕ)
    → 0 < max_seg
    → (made : List LtpSegment × ℕ) × (segment_data_impl s max_seg cp ≡ ok made)
      × (payload made.0 ≡ s.client_data)
payload-segment_data_impl s max_seg cp m =
    let (made, q, c, _) = segment_data_impl-AreChunks s max_seg cp m in
    (made, q, payload-AreChunks s max_seg 0 made.0 c)
