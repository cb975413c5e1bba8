-- ===== src/Video/Decoder/Mjpeg/Fragments.antt =====
-- One fragment of a JPEG frame, as RFC 2435 has it.
use openhd_glide.Base.{
  ℕ, ◌+◌, ◌*◌, ◌/◌, ◌%◌, ◌<◌, ◌≡◌, ◌∙◌, Bool, true, false, not, ◌&&◌, ◌||◌, ◌∷◌, ◌++◌, length,
  Bytes, arith, leb, ltb, ◌==◌,
}
use openhd_glide.Video.Rtp.{byte_at, has_bit}
use openhd_glide.Video.Decoder.{Decoder}
use openhd_glide.Video.Decoder.Jpeg.{jpeg_header, quant_table}
use openhd_glide.Video.Decoder.Jpeg.Tables.{jpeg_luma_quantizer, jpeg_chroma_quantizer}
use openhd_glide.Video.Decoder.Mjpeg.{
  Fragment, usable, pixels, fragment_offset, restart_of, with_scan, with_tables, read_fragment,
  queue_unfinished, first_data, begin_frame, add_fragment, append_mjpeg_payload, finish_if,
}

-- What a sender says of a frame: the type, the quality, and the size in blocks of eight.
pub record Format : Type 0 where
  pub type : ℕ
  pub q : ℕ
  pub columns : ℕ
  pub rows : ℕ

-- No restart header and no tables of its own.
pub record IsPlain (f : Format) : Type 0 where
  pub no_restart : f.type < 64
  pub no_tables : f.q < 128

-- RFC 2435, 3.1: the main header, and a piece of the scan data.
abbrev pub jpeg_fragment : Format → ℕ → Bytes → Bytes
jpeg_fragment f offset piece =
    0
    ∷ offset / 65536
    ∷ offset / 256 % 256
    ∷ offset % 256
    ∷ f.type
    ∷ f.q
    ∷ f.columns
    ∷ f.rows
    ∷ piece

abbrev pub fragment_of : Format → ℕ → Bytes → Fragment
fragment_of f offset piece = record {
  offset = offset;
  type = f.type;
  width = pixels f.columns;
  height = pixels f.rows;
  restart_interval = 0;
  luma = quant_table jpeg_luma_quantizer f.q;
  chroma = quant_table jpeg_chroma_quantizer f.q;
  scan = piece;
}

pub offset_again :
    (offset : ℕ) → offset / 65536 * 65536 + offset / 256 % 256 * 256 + offset % 256 ≡ offset
offset_again offset = omega arith

pub read_fragment-jpeg_fragment :
    (f : Format) (offset : ℕ) (piece : Bytes)
    → IsPlain f
    → 0 < length piece
    → read_fragment (jpeg_fragment f offset piece) ≡ usable (fragment_of f offset piece)
unfolding read_fragment restart_of with_tables with_scan fragment_offset
read_fragment-jpeg_fragment f offset piece h k =
    let no_restart : has_bit f.type 6 ≡ false = ground (arith, h.no_restart) in
    let no_tables : leb 128 f.q ≡ false = ground (arith, h.no_tables) in
    let long_enough : ltb (length (jpeg_fragment f offset piece)) 8 ≡ false = ground arith in
    let carries : leb (length (jpeg_fragment f offset piece)) 8 ≡ false = ground (arith, k) in
    rw (long_enough, no_restart, no_tables) (rw (with_scan, carries, offset_again offset))

pub append_mjpeg_payload-usable :
    (d : Decoder) (payload : Bytes) (f : Fragment) (marker : Bool) (timestamp : ℕ)
    → read_fragment payload ≡ usable f
    → append_mjpeg_payload d payload marker timestamp ≡ (add_fragment d f marker timestamp, true)
unfolding append_mjpeg_payload
append_mjpeg_payload-usable d payload f marker timestamp e = rw (e, append_mjpeg_payload)

pub record IsOpen (d : Decoder) (timestamp : ℕ) : Type 0 where
  pub begun : d.have_access_unit ≡ true
  pub same_time : d.access_unit_timestamp ≡ timestamp

pub append_mjpeg_payload-later :
    (d : Decoder) (f : Format) (offset timestamp : ℕ) (piece : Bytes) (marker : Bool)
    → IsPlain f
    → 0 < length piece
    → 0 < offset
    → IsOpen d timestamp
    → append_mjpeg_payload d (jpeg_fragment f offset piece) marker timestamp ≡ (
      finish_if marker
          (record d { access_unit = d.access_unit ++ piece })
          (fragment_of f offset piece)
          timestamp,
      true,
    )
unfolding add_fragment
append_mjpeg_payload-later d f offset timestamp piece marker h k o r =
    append_mjpeg_payload-usable d (jpeg_fragment f offset piece) (fragment_of f offset piece) marker
      timestamp (read_fragment-jpeg_fragment f offset piece h k)
    ∙ let later : (offset == 0) ≡ false = ground (arith, o) in
      let same : (not d.have_access_unit || not (d.access_unit_timestamp == timestamp)) ≡ false =
        ground (arith, r.begun, r.same_time) in
      rw (later, same)

-- The scan data do not begin with a header of their own.
abbrev pub IsBare : Bytes → Type 0
IsBare scan = (byte_at scan 0 == 0xff && byte_at scan 1 == 0xd8) ≡ false

abbrev pub header_of : Format → Bytes
header_of f =
    jpeg_header f.type (pixels f.columns) (pixels f.rows) (quant_table jpeg_luma_quantizer f.q)
      (quant_table jpeg_chroma_quantizer f.q) 0

abbrev pub begun_with : Decoder → Format → Bytes → ℕ → Decoder
begun_with d f scan timestamp = record d {
  access_unit = header_of f ++ scan;
  access_unit_timestamp = timestamp;
  have_access_unit = true;
  mjpeg_width = pixels f.columns;
  mjpeg_height = pixels f.rows;
}

pub append_mjpeg_payload-first :
    (d : Decoder) (f : Format) (timestamp : ℕ) (piece : Bytes) (marker : Bool)
    → IsPlain f
    → 0 < length piece
    → IsBare piece
    → d.have_access_unit ≡ false
    → append_mjpeg_payload d (jpeg_fragment f 0 piece) marker timestamp
      ≡ (finish_if marker (begun_with d f piece timestamp) (fragment_of f 0 piece) timestamp, true)
unfolding add_fragment begin_frame queue_unfinished first_data
append_mjpeg_payload-first d f timestamp piece marker h k b e =
    append_mjpeg_payload-usable d (jpeg_fragment f 0 piece) (fragment_of f 0 piece) marker timestamp
      (read_fragment-jpeg_fragment f 0 piece h k)
    ∙ let bare : (leb 2 (length piece) && byte_at piece 0 == 0xff && byte_at piece 1 == 0xd8)
          ≡ false =
        ground (arith, b) in
      rw (e, bare)
