-- ===== src/Video/Decoder/Jpeg/Segments.antt =====
-- A reader of JPEG segments by their declared lengths, and what it finds in a header.
use openhd_glide.Base.{
  refl, get_or, take-length-append, drop-length-append, ℕ, zero, suc, ◌+◌, ◌-◌, ◌*◌, ◌/◌, ◌%◌, ◌<◌,
  ◌≡◌, ◌≢◌, List, [], ◌∷◌, ◌++◌, Bytes, length, take, drop, arith, ◌==◌, ◌||◌, ◌&&◌, not,
  if◌then◌else◌, append_assoc, Bool-cases, inl, inr, ltb, length-append, map, flatten, All, false,
  ◌∙◌, Option, none, some,
}
use openhd_glide.Video.Decoder.Jpeg.{
  u16_bytes, quant_header, huffman_header, jfif, restart_header, jpeg_header,
}
use openhd_glide.Video.Decoder.Jpeg.Tables.{
  jpeg_huffman_luma_dc, jpeg_huffman_chroma_dc, jpeg_huffman_luma_ac, jpeg_huffman_chroma_ac,
  length-jpeg_huffman_luma_dc, length-jpeg_huffman_chroma_dc, length-jpeg_huffman_luma_ac,
  length-jpeg_huffman_chroma_ac,
}

-- ITU-T T.81, B.1.1.4: a marker and what stands behind its length field.
pub record Segment : Type 0 where
  pub marker : ℕ
  pub body : Bytes

abbrev segment_bytes : Segment → Bytes
segment_bytes s = 0xff ∷ s.marker ∷ (u16_bytes (2 + length s.body) ++ s.body)

-- The segments up to the start of scan, by their lengths, and what follows that segment.
unfoldable pub read_segments : ℕ → Bytes → List Segment × Bytes
read_segments (suc fuel) (ff ∷ marker ∷ hi ∷ lo ∷ rest) =
    let size = hi * 256 + lo - 2 in
    let found : Segment = record { marker = marker; body = take size rest } in
    let later = read_segments fuel (drop size rest) in
    if not (ff == 0xff) || ltb (length rest) size
    then ([], rest)
    else if marker == 0xda
    then (found ∷ [], drop size rest)
    else (found ∷ later.0, later.1)
read_segments _ rest = ([], rest)

-- The start of image, and the segments.
unfoldable pub read_jpeg : Bytes → Option (List Segment × Bytes)
read_jpeg (a ∷ b ∷ rest) =
    if a == 0xff && b == 0xd8 then some (read_segments (length rest) rest) else none
read_jpeg _ = none

record IsOrdinary (s : Segment) : Type 0 where
  not_scan : s.marker ≢ 0xda
  fits : length s.body < 65534

size_again :
    (s : Bytes)
    → length s < 65534
    → let n = 2 + length s in n / 256 % 256 * 256 + n % 256 - 2 ≡ length s
size_again s h = omega arith

fits_again : (xs ys : Bytes) → ltb (length (xs ++ ys)) (length xs) ≡ false
fits_again xs ys = ground (arith, length-append xs ys)

read_segments-ordinary :
    (s : Segment) (fuel : ℕ) (rest : Bytes)
    → IsOrdinary s
    → read_segments (suc fuel) (segment_bytes s ++ rest)
      ≡ (s ∷ (read_segments fuel rest).0, (read_segments fuel rest).1)
unfolding read_segments
read_segments-ordinary s fuel rest h =
    rw
      (
        size_again s.body h.fits,
        fits_again s.body rest,
        take-length-append s.body rest,
        drop-length-append s.body rest,
      )
      (ground (arith, h.not_scan))

read_segments-scan :
    (body : Bytes) (fuel : ℕ) (rest : Bytes)
    → length body < 65534
    → let s : Segment = record { marker = 0xda; body = body } in
      read_segments (suc fuel) (segment_bytes s ++ rest) ≡ (s ∷ [], rest)
unfolding read_segments
read_segments-scan body fuel rest h = rw (
  size_again body h,
  fits_again body rest,
  take-length-append body rest,
  drop-length-append body rest,
)

read_segments-all :
    (segments : List Segment) (body rest : Bytes) (fuel : ℕ)
    → All IsOrdinary segments
    → length body < 65534
    → length segments < fuel
    → let s : Segment = record { marker = 0xda; body = body } in
      read_segments fuel (flatten (map segment_bytes segments) ++ (segment_bytes s ++ rest))
      ≡ (segments ++ s ∷ [], rest)
read_segments-all [] body rest zero h k n = elim n [ ]
read_segments-all (s ∷ segments) body rest zero h k n = elim n [ ]
read_segments-all [] body rest (suc fuel) h k n = read_segments-scan body fuel rest k
read_segments-all (s ∷ segments) body rest (suc fuel) h k n =
    let last : Segment = record { marker = 0xda; body = body } in
    rw
      (append_assoc (segment_bytes s) (flatten (map segment_bytes segments))
        (segment_bytes last ++ rest))
      (read_segments-ordinary s fuel
          (flatten (map segment_bytes segments) ++ (segment_bytes last ++ rest)) h.0
        ∙ rw (read_segments-all segments body rest fuel h.1 k (omega (arith, n))))

abbrev pub segment : ℕ → Bytes → Segment
segment marker body = record { marker = marker; body = body }

abbrev pub restart_segments : ℕ → List Segment
restart_segments restart_interval =
    if restart_interval == 0 then [] else segment 0xdd (u16_bytes restart_interval) ∷ []

-- T.81, B.2.2 and B.2.3: eight bits a sample, the number of lines, then of samples in a line, and
-- three components, of which the first has the sampling factors of the type: RFC 2435, 4.1, has
-- 4:2:2 as type 0. The scan has all three, the first with the tables 0 and the others with the
-- tables 1.
abbrev pub frame_of : ℕ → ℕ → ℕ → Bytes
frame_of type width height =
    8
    ∷ height / 256 % 256
    ∷ height % 256
    ∷ width / 256 % 256
    ∷ width % 256
    ∷ 3
    ∷ 1
    ∷ (if type == 0 then 0x21 else 0x22)
    ∷ 0
    ∷ 2
    ∷ 0x11
    ∷ 1
    ∷ 3
    ∷ 0x11
    ∷ 1
    ∷ []

abbrev pub scan_of : Bytes
scan_of = 3 ∷ 1 ∷ 0x00 ∷ 2 ∷ 0x11 ∷ 3 ∷ 0x11 ∷ 0 ∷ 63 ∷ 0 ∷ []

u16_again : (n : ℕ) → n / 256 % 256 * 256 + n % 256 ≡ n % 65536
u16_again n = omega arith

-- The width and the height that the first frame header states.
unfoldable pub find_size : List Segment → Option (ℕ × ℕ)
find_size [] = none
find_size (s ∷ segments) =
    let later = find_size segments in
    if s.marker == 0xc0
    then some
        (get_or s.body 3 0 * 256 + get_or s.body 4 0, get_or s.body 1 0 * 256 + get_or s.body 2 0)
    else later

-- What a reader is to find between the start of image and the scan data.
abbrev pub tables_of : ℕ → ℕ → ℕ → Bytes → Bytes → ℕ → List Segment
tables_of type width height luma chroma restart_interval =
    segment 0xe0 jfif
    ∷ segment 0xdb (0 ∷ luma)
    ∷ segment 0xdb (1 ∷ chroma)
    ∷ (restart_segments restart_interval
        ++ (segment 0xc0 (frame_of type width height)
            ∷ segment 0xc4 (0x00 ∷ jpeg_huffman_luma_dc)
            ∷ segment 0xc4 (0x10 ∷ jpeg_huffman_luma_ac)
            ∷ segment 0xc4 (0x01 ∷ jpeg_huffman_chroma_dc)
            ∷ segment 0xc4 (0x11 ∷ jpeg_huffman_chroma_ac)
            ∷ []))

ruleset huffman_lengths = (
  length-jpeg_huffman_luma_dc, length-jpeg_huffman_chroma_dc, length-jpeg_huffman_luma_ac,
  length-jpeg_huffman_chroma_ac,
)

module _ (type width height restart_interval : ℕ) (luma chroma : Bytes) (l : length luma ≡ 64)
    (c : length chroma ≡ 64) where
  abbrev tables : List Segment
  tables = tables_of type width height luma chroma restart_interval

  tables-IsOrdinary : All IsOrdinary tables
  tables-IsOrdinary = elim (Bool-cases (restart_interval == 0)) [
    | inl e ↦ rw e (omega (arith, huffman_lengths))
    | inr e ↦ rw e (omega (arith, huffman_lengths))
  ]

  few_tables : length tables < 10
  few_tables = elim (Bool-cases (restart_interval == 0)) [
    | inl e ↦ rw e (omega arith)
    | inr e ↦ rw e (omega arith)
  ]

  jpeg_header-tables :
      (scan : Bytes)
      → jpeg_header type width height luma chroma restart_interval ++ scan
        ≡ 0xff
          ∷ 0xd8
          ∷ (flatten (map segment_bytes tables) ++ (segment_bytes (segment 0xda scan_of) ++ scan))
  unfolding jpeg_header quant_header huffman_header restart_header
  jpeg_header-tables scan = elim (Bool-cases (restart_interval == 0)) [
    | inl e ↦ rw (e, l, c, huffman_lengths) (simp append_assoc)
    | inr e ↦ rw (e, l, c, huffman_lengths) (simp append_assoc)
  ]

  tables-size :
      find_size (tables ++ segment 0xda scan_of ∷ []) ≡ some (width % 65536, height % 65536)
  unfolding find_size
  tables-size = elim (Bool-cases (restart_interval == 0)) [
    | inl e ↦ rw e (rw (u16_again width, u16_again height) refl)
    | inr e ↦ rw e (rw (u16_again width, u16_again height) refl)
  ]

  -- The header is a JPEG header: read by the declared lengths it gives the tables, the frame and
  -- the restart interval it was made of, and the scan data begin right behind it. The frame that a
  -- reader finds there has the width and the height of the call, in 16 bits each. Each table has 64
  -- entries.
  pub read_jpeg-jpeg_header :
      (scan : Bytes)
      → (read_jpeg (jpeg_header type width height luma chroma restart_interval ++ scan)
          ≡ some (tables ++ segment 0xda scan_of ∷ [], scan))
        × (find_size (tables ++ segment 0xda scan_of ∷ []) ≡ some (width % 65536, height % 65536))
  unfolding read_jpeg
  read_jpeg-jpeg_header scan = (
    rw (
      jpeg_header-tables scan,
      read_segments-all tables scan_of scan
          (length
            (flatten (map segment_bytes tables) ++ (segment_bytes (segment 0xda scan_of) ++ scan)))
          tables-IsOrdinary (omega arith) (omega (arith, few_tables)),
    ),
    tables-size,
  )
