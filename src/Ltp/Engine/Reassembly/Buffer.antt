-- ===== src/Ltp/Engine/Reassembly/Buffer.antt =====
-- The reassembly buffer: `store_data` leaves the bytes outside the segment, and puts the segment's in.
use qpsk_b.Base.{
  ℕ, ◌+◌, ◌-◌, ◌^◌, ◌≤◌, ◌<◌, max, ◌≡◌, refl, sym, ap, ◌∙◌, true, false, List, ◌++◌, inl, inr,
  Bool-cases, leb, ltb, if◌then◌else◌, arith, length, get_elem?, take, drop, replicate,
  length-append, length-take, length-drop, length-replicate,
}
use qpsk_b.Base.Elements.{
  get_elem?-append_left, get_elem?-append_right, get_elem?-take, get_elem?-drop,
}
use qpsk_b.Base.Result.{ok}
use qpsk_b.Base.Bits.{add64}
use qpsk_b.Ltp.Segment.{DataSegContent}
use qpsk_b.Ltp.Tracker.Coverage.{between}
use qpsk_b.Ltp.Engine.Receive.{grow, copy_at, store_data}

-- `dst` with `src` in place of the bytes from `offset` on.
abbrev pub overwritten : ℕ → List ℕ → List ℕ → List ℕ
overwritten offset src dst = take offset dst ++ (src ++ drop (offset + length src) dst)

overwritten-inside :
    (offset : ℕ) (src dst : List ℕ) (i : ℕ)
    → offset + length src ≤ length dst
    → i < length src
    → get_elem? (overwritten offset src dst) (offset + i) ≡ get_elem? src i
overwritten-inside offset src dst i h hi =
    let front : length (take offset dst) ≡ offset = omega (arith, length-take offset dst) in
    ap (λ n. get_elem? (overwritten offset src dst) (n + i)) (sym front)
    ∙ get_elem?-append_right (take offset dst) (src ++ drop (offset + length src) dst) i
    ∙ get_elem?-append_left src (drop (offset + length src) dst) i hi

overwritten-before :
    (offset : ℕ) (src dst : List ℕ) (i : ℕ)
    → offset + length src ≤ length dst
    → i < offset
    → get_elem? (overwritten offset src dst) i ≡ get_elem? dst i
overwritten-before offset src dst i h hi =
    get_elem?-append_left (take offset dst) (src ++ drop (offset + length src) dst) i
      (omega (arith, length-take offset dst))
    ∙ get_elem?-take offset dst i hi

overwritten-after :
    (offset : ℕ) (src dst : List ℕ) (i : ℕ)
    → offset + length src ≤ length dst
    → get_elem? (overwritten offset src dst) (offset + (length src + i))
      ≡ get_elem? dst (offset + length src + i)
overwritten-after offset src dst i h =
    let front : length (take offset dst) ≡ offset = omega (arith, length-take offset dst) in
    ap (λ n. get_elem? (overwritten offset src dst) (n + (length src + i))) (sym front)
    ∙ get_elem?-append_right (take offset dst) (src ++ drop (offset + length src) dst)
        (length src + i)
    ∙ get_elem?-append_right src (drop (offset + length src) dst) i
    ∙ get_elem?-drop (offset + length src) dst i

length-overwritten :
    (offset : ℕ) (src dst : List ℕ)
    → offset + length src ≤ length dst
    → length (overwritten offset src dst) ≡ length dst
length-overwritten offset src dst h = omega (
  arith,
  length-append (take offset dst) (src ++ drop (offset + length src) dst),
  length-append src (drop (offset + length src) dst),
  length-take offset dst,
  length-drop (offset + length src) dst,
)

-- Outside the bytes replaced.
pub overwritten-outside :
    (offset : ℕ) (src dst : List ℕ) (i : ℕ)
    → offset + length src ≤ length dst
    → between offset (offset + length src) i ≡ false
    → get_elem? (overwritten offset src dst) i ≡ get_elem? dst i
overwritten-outside offset src dst i h q = elim (Bool-cases (ltb i offset)) [
  | inl t ↦ overwritten-before offset src dst i h (ground arith)
  | inr t ↦
      let at : offset + (length src + (i - offset - length src)) ≡ i = ground arith in
      let at' : offset + length src + (i - offset - length src) ≡ i = ground arith in
      ap (get_elem? (overwritten offset src dst)) (sym at)
      ∙ overwritten-after offset src dst (i - offset - length src) h
      ∙ ap (get_elem? dst) at'
]

-- `buffer` with zeros up to `n` bytes.
abbrev pub grown : ℕ → List ℕ → List ℕ
grown n buffer = if ltb (length buffer) n then buffer ++ replicate (n - length buffer) 0 else buffer

grow-grown : (n : ℕ) (buffer : List ℕ) → n < 2 ^ 63 → grow n buffer ≡ ok (grown n buffer)
unfolding grow
grow-grown n buffer h = ground arith

length-grown : (n : ℕ) (buffer : List ℕ) → length (grown n buffer) ≡ max n (length buffer)
length-grown n buffer = ground (
  arith,
  length-append buffer (replicate (n - length buffer) 0),
  length-replicate {A = ℕ} (n - length buffer) 0,
)

grown-get :
    (n : ℕ) (buffer : List ℕ) (i : ℕ)
    → i < length buffer
    → get_elem? (grown n buffer) i ≡ get_elem? buffer i
grown-get n buffer i h = elim (Bool-cases (ltb (length buffer) n)) [
  | inl t ↦ rw t (get_elem?-append_left buffer (replicate (n - length buffer) 0) i h)
  | inr t ↦ rw t refl
]

-- What `store_data` makes of a buffer, for data that is a piece of the block.
pub record IsStored (block : List ℕ) (ds : DataSegContent) (buffer buffer' : List ℕ) : Type 0 where
  pub stored : store_data ds buffer ≡ ok buffer'
  pub longer : length buffer' ≡ max (ds.offset + ds.length) (length buffer)
  pub inside :
      (i : ℕ)
      → between ds.offset (ds.offset + ds.length) i ≡ true
      → get_elem? buffer' i ≡ get_elem? block i
  pub outside :
      (i : ℕ)
      → i < length buffer
      → between ds.offset (ds.offset + ds.length) i ≡ false
      → get_elem? buffer' i ≡ get_elem? buffer i

length-piece :
    (offset len : ℕ) (block : List ℕ)
    → offset + len ≤ length block
    → length (take len (drop offset block)) ≡ len
length-piece offset len block h =
    omega (arith, length-take len (drop offset block), length-drop offset block)

piece-get :
    (offset len : ℕ) (block : List ℕ) (i : ℕ)
    → i < len
    → get_elem? (take len (drop offset block)) i ≡ get_elem? block (offset + i)
piece-get offset len block i h =
    get_elem?-take len (drop offset block) i h ∙ get_elem?-drop offset block i

IsStored-nonempty :
    (block : List ℕ) (ds : DataSegContent) (buffer : List ℕ)
    → ds.bytes ≡ take ds.length (drop ds.offset block)
    → ds.offset + ds.length ≤ length block
    → length block < 2 ^ 63
    → 0 < ds.length
    → IsStored block ds buffer
        (overwritten ds.offset ds.bytes (grown (ds.offset + ds.length) buffer))
unfolding store_data copy_at
IsStored-nonempty block ds buffer q h hb t =
    let end = ds.offset + ds.length in
    let g = grown end buffer in
    let size : length ds.bytes ≡ ds.length =
      ap length q ∙ length-piece ds.offset ds.length block h in
    let room : ds.offset + length ds.bytes ≤ length g = omega (arith, length-grown end buffer) in
    let wide : add64 ds.offset ds.length ≡ end = ground arith in
    let fits : leb (ds.offset + length ds.bytes) (length g) ≡ true = ground arith in
    let some_bytes : ltb 0 ds.length ≡ true = ground arith in
    record {
      stored = rw (wide, grow-grown end buffer (omega arith), some_bytes, fits) refl;
      longer = length-overwritten ds.offset ds.bytes g room ∙ length-grown end buffer;
      inside = λ i hi.
          let j = i - ds.offset in
          let at : ds.offset + j ≡ i = ground arith in
          ap (get_elem? (overwritten ds.offset ds.bytes g)) (sym at)
          ∙ overwritten-inside ds.offset ds.bytes g j room (ground arith)
          ∙ ap (λ b. get_elem? b j) q
          ∙ piece-get ds.offset ds.length block j (ground arith)
          ∙ ap (get_elem? block) at;
      outside = λ i l hi.
          overwritten-outside ds.offset ds.bytes g i room (ground arith) ∙ grown-get end buffer i l;
    }

IsStored-empty :
    (block : List ℕ) (ds : DataSegContent) (buffer : List ℕ)
    → ds.offset + ds.length ≤ length block
    → length block < 2 ^ 63
    → ds.length ≡ 0
    → IsStored block ds buffer (grown (ds.offset + ds.length) buffer)
unfolding store_data
IsStored-empty block ds buffer h hb t =
    let end = ds.offset + ds.length in
    let wide : add64 ds.offset ds.length ≡ end = ground arith in
    let no_bytes : ltb 0 ds.length ≡ false = ground arith in
    record {
      stored = rw (wide, grow-grown end buffer (omega arith), no_bytes) refl;
      longer = length-grown end buffer;
      inside = λ i hi. absurd (ground arith);
      outside = λ i l hi. grown-get end buffer i l;
    }

pub store_data-IsStored :
    (block : List ℕ) (ds : DataSegContent) (buffer : List ℕ)
    → ds.bytes ≡ take ds.length (drop ds.offset block)
    → ds.offset + ds.length ≤ length block
    → length block < 2 ^ 63
    → (buffer' : List ℕ) × IsStored block ds buffer buffer'
store_data-IsStored block ds buffer q h hb = elim (Bool-cases (ltb 0 ds.length)) [
  | inl t ↦ (_, IsStored-nonempty block ds buffer q h hb (ground arith))
  | inr t ↦ (_, IsStored-empty block ds buffer h hb (ground arith))
]
