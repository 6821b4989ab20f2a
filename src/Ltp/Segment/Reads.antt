-- ===== src/Ltp/Segment/Reads.antt =====
-- What each reader of the decoder returns on the bytes that the wire format has for it.
use qpsk_b.Base.{
  ℕ, ◌+◌, ◌-◌, ◌%◌, ◌^◌, ◌<◌, ◌≡◌, refl, ap, ◌∙◌, Bool, true, false, Option, none, some, List, [],
  ◌∷◌, ◌++◌, append_assoc, inl, inr, ltb, leb, if◌then◌else◌, length, length-append,
  take-append_length, drop-append_length, All, arith,
}
use qpsk_b.Base.Bits.{IsU64}
use qpsk_b.Base.Result.{ok}
use qpsk_b.Ltp.Sdnv.{Cursor}
use qpsk_b.Ltp.Sdnv.Encode.{encoding}
use qpsk_b.Ltp.Sdnv.RoundTrip.{decode-encoding}
use qpsk_b.Ltp.SegType.{has_checkpoint}
use qpsk_b.Ltp.Segment.{
  LtpExtension, ReceptionClaim, DataSegContent, ReportSegContent, SegmentContent, data_seg,
  report_seg, rpt_ack, cancel,
}
use qpsk_b.Ltp.Segment.Encoder.{value_or}
use qpsk_b.Ltp.Segment.Decoder.{
  Read, read_sdnv, read_byte_from, read_byte, read_block, read_extension, decode_extensions,
  read_serials, read_data, read_claims, reserve_claims, read_report, decode_content, read_counts,
}
use qpsk_b.Ltp.Segment.Bytes.{
  extension_bytes, claim_bytes, content_bytes, IsExtension, IsClaim, HasSerials, FitsType,
}

abbrev pub at : ℕ → List ℕ → Cursor
at o r = record { offset = o; rest = r }

-- A reader of an input of `n` bytes returns `a` and leaves `r`.
abbrev pub Reads : {A : Type 0} → ℕ → Read A → A → List ℕ → Type 0
Reads n m a r = (o : ℕ) × (m ≡ ok (a, at o r)) × (o + length r ≡ n)

module _ (n : ℕ) (small : n < 2 ^ 63) where
  pub sdnv-Reads :
      (v o : ℕ) (r : List ℕ)
      → IsU64 v
      → o + length (encoding v ++ r) ≡ n
      → Reads n (read_sdnv (at o (encoding v ++ r))) v r
  unfolding read_sdnv
  sdnv-Reads v o r h l = (
    o + length (encoding v),
    rw (decode-encoding v o r h),
    omega (arith, length-append (encoding v) r),
  )

  byte-Reads :
      (b o : ℕ) (r : List ℕ) → o + length (b ∷ r) ≡ n → Reads n (read_byte (at o (b ∷ r))) b r
  unfolding read_byte read_byte_from
  byte-Reads b o r l = (o + 1, refl, omega arith)

  block-Reads :
      (len o : ℕ) (bytes r : List ℕ)
      → len ≡ length bytes
      → o + length (bytes ++ r) ≡ n
      → Reads n (read_block len (at o (bytes ++ r))) bytes r
  unfolding read_block
  block-Reads len o bytes r e l = (
    o + len,
    rw e (
        ground
          (arith, length-append bytes r, take-append_length bytes r, drop-append_length bytes r)),
    omega (arith, length-append bytes r),
  )

  extension-Reads :
      (ext : LtpExtension) (o : ℕ) (r : List ℕ)
      → IsExtension ext
      → o + length (ext.tag ∷ encoding (length ext.value) ++ (ext.value ++ r)) ≡ n
      → Reads n
          (read_extension (at o (ext.tag ∷ encoding (length ext.value) ++ (ext.value ++ r))))
          ext
          r
  unfolding read_extension
  extension-Reads ext o r h l =
      let (o1, e1, l1) = byte-Reads ext.tag o (encoding (length ext.value) ++ (ext.value ++ r)) l in
      let wide : IsU64 (length ext.value) = omega arith in
      let (o2, e2, l2) = sdnv-Reads (length ext.value) o1 (ext.value ++ r) wide l1 in
      let (o3, e3, l3) = block-Reads (length ext.value) o2 ext.value r refl l2 in
      (o3, rw (e1, e2, e3), l3)

  extensions-Reads :
      (exts : List LtpExtension) (o : ℕ) (r : List ℕ)
      → All IsExtension exts
      → o + length (extension_bytes exts ++ r) ≡ n
      → Reads n (decode_extensions (length exts) (at o (extension_bytes exts ++ r))) exts r
  unfolding decode_extensions
  extensions-Reads [] o r h l = (o, refl, l)
  extensions-Reads (ext ∷ exts) o r h l =
      let e =
        append_assoc (encoding (length ext.value)) (ext.value ++ extension_bytes exts) r
        ∙ ap (λ t. encoding (length ext.value) ++ t)
            (append_assoc ext.value (extension_bytes exts) r) in
      let (o1, e1, l1) = extension-Reads ext o (extension_bytes exts ++ r) h.0 (rw (← e) l) in
      let (o2, e2, l2) = extensions-Reads exts o1 r h.1 l1 in (o2, rw (e, e1, e2), l2)

  pub counted-Reads :
      (count : ℕ) (exts : List LtpExtension) (o : ℕ) (r : List ℕ)
      → count ≡ length exts
      → All IsExtension exts
      → o + length (extension_bytes exts ++ r) ≡ n
      → Reads n (decode_extensions count (at o (extension_bytes exts ++ r))) exts r
  counted-Reads count exts o r e h l = rw e (extensions-Reads exts o r h l)

  claims-Reads :
      (claims : List ReceptionClaim) (o : ℕ) (r : List ℕ)
      → All IsClaim claims
      → o + length (claim_bytes claims ++ r) ≡ n
      → Reads n (read_claims (length claims) (at o (claim_bytes claims ++ r))) claims r
  unfolding read_claims
  claims-Reads [] o r h l = (o, refl, l)
  claims-Reads (c ∷ cs) o r h l =
      let e =
        append_assoc (encoding c.offset) (encoding c.length ++ claim_bytes cs) r
        ∙ ap (λ t. encoding c.offset ++ t) (append_assoc (encoding c.length) (claim_bytes cs) r) in
      let (o1, e1, l1) =
        sdnv-Reads c.offset o (encoding c.length ++ (claim_bytes cs ++ r)) h.0.0 (rw (← e) l) in
      let (o2, e2, l2) = sdnv-Reads c.length o1 (claim_bytes cs ++ r) h.0.1 l1 in
      let (o3, e3, l3) = claims-Reads cs o2 r h.1 l2 in (o3, rw (e, e1, e2, e3), l3)

  serials-Reads :
      (b : Bool) (t : ℕ) (cp rp : Option ℕ) (o : ℕ) (r : List ℕ)
      → has_checkpoint t ≡ b
      → HasSerials b cp rp
      → o + length (if b then encoding (value_or cp 0) ++ (encoding (value_or rp 0) ++ r) else r)
        ≡ n
      → Reads n
          (read_serials t
            (at o (if b then encoding (value_or cp 0) ++ (encoding (value_or rp 0) ++ r) else r)))
          (cp, rp)
          r
  unfolding read_serials
  serials-Reads true t (some cp) (some rp) o r e h l =
      let (o1, e1, l1) = sdnv-Reads cp o (encoding rp ++ r) h.0 l in
      let (o2, e2, l2) = sdnv-Reads rp o1 r h.1 l1 in (o2, rw (e, e1, e2), l2)
  serials-Reads true t (some cp) none o r e h l = absurd h
  serials-Reads true t none rp o r e h l = absurd h
  serials-Reads false t none none o r e h l = (o, rw e, l)
  serials-Reads false t none (some rp) o r e h l = absurd h
  serials-Reads false t (some cp) rp o r e h l = absurd h

  data-Reads :
      (t : ℕ) (ds : DataSegContent) (o : ℕ) (r : List ℕ)
      → FitsType t (data_seg ds)
      → o + length (content_bytes t (data_seg ds) r) ≡ n
      → Reads n (read_data t (at o (content_bytes t (data_seg ds) r))) ds r
  unfolding read_data
  data-Reads t ds o r (_, h1, h2, h3, h4, h5) l =
      let (o1, e1, l1) = sdnv-Reads ds.client_service_id o _ h1 l in
      let (o2, e2, l2) = sdnv-Reads ds.offset o1 _ h2 l1 in
      let wide : IsU64 ds.length = omega arith in
      let (o3, e3, l3) = sdnv-Reads ds.length o2 _ wide l2 in
      let (o4, e4, l4) =
        serials-Reads (has_checkpoint t) t ds.checkpoint_serial ds.report_serial o3 (ds.bytes ++ r)
          refl h5 l3 in
      let (o5, e5, l5) = block-Reads ds.length o4 ds.bytes r h4 l4 in
      (o5, rw (e1, e2, e3, e4, e5), l5)

  report-Reads :
      (rs : ReportSegContent) (o : ℕ) (r : List ℕ)
      → FitsType 6 (report_seg rs)
      → o + length (content_bytes 6 (report_seg rs) r) ≡ n
      → Reads n (read_report (at o (content_bytes 6 (report_seg rs) r))) rs r
  unfolding read_report reserve_claims
  report-Reads rs o r (_, h1, h2, h3, h4, h5, h6) l =
      let (o1, e1, l1) = sdnv-Reads rs.report_serial o _ h1 l in
      let (o2, e2, l2) = sdnv-Reads rs.checkpoint_serial o1 _ h2 l1 in
      let (o3, e3, l3) = sdnv-Reads rs.upper_bound o2 _ h3 l2 in
      let (o4, e4, l4) = sdnv-Reads rs.lower_bound o3 _ h4 l3 in
      let wide : IsU64 (length rs.claims) = omega arith in
      let (o5, e5, l5) = sdnv-Reads (length rs.claims) o4 _ wide l4 in
      let few : ltb (2 ^ 59 - 1) (length rs.claims) ≡ false = ground arith in
      let (o6, e6, l6) = claims-Reads rs.claims o5 r h6 l5 in
      (o6, rw (e1, e2, e3, e4, e5, few, e6), l6)

  pub content-Reads :
      (t : ℕ) (content : SegmentContent) (o : ℕ) (r : List ℕ)
      → FitsType t content
      → o + length (content_bytes t content r) ≡ n
      → Reads n (decode_content t (at o (content_bytes t content r))) content r
  unfolding decode_content
  content-Reads t (data_seg ds) o r h l =
      let (o1, e1, l1) = data-Reads t ds o r h l in
      let is : leb t 5 ≡ true = ground arith in (o1, rw (is, e1), l1)
  content-Reads t (report_seg rs) o r h l =
      let (o1, e1, l1) = report-Reads rs o r (refl, h.1, h.2, h.3, h.4, h.5, h.6) l in
      (o1, rw (h.0, e1), l1)
  content-Reads t (rpt_ack ra) o r h l =
      let (o1, e1, l1) = sdnv-Reads ra.report_serial o r h.1 l in (o1, rw (h.0, e1), l1)
  content-Reads t (cancel cc) o r (inl (inl h)) l =
      let (o1, e1, l1) = byte-Reads cc.reason_code o r (rw h at l) in (o1, rw (h, e1), l1)
  content-Reads t (cancel cc) o r (inl (inr h)) l =
      let (o1, e1, l1) = byte-Reads cc.reason_code o r (rw h at l) in (o1, rw (h, e1), l1)
  content-Reads t (cancel cc) o r (inr (inl h, z)) l = (o, rw h (ground arith), rw h at l)
  content-Reads t (cancel cc) o r (inr (inr h, z)) l = (o, rw h (ground arith), rw h at l)

  pub counts-Reads :
      (h t o : ℕ) (r : List ℕ)
      → o + length (h ∷ t ∷ r) ≡ n
      → Reads n (read_counts (at o (h ∷ t ∷ r))) (h, t) r
  unfolding read_counts
  counts-Reads h t o r l =
      let (o1, e1, l1) = byte-Reads h o (t ∷ r) l in
      let (o2, e2, l2) = byte-Reads t o1 r l1 in
      let room : ltb (o + length (h ∷ t ∷ r)) ((o + 2) % 2 ^ 64) ≡ false = ground arith in
      (o2, rw (room, e1, e2), l2)
