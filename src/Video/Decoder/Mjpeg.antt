-- ===== src/Video/Decoder/Mjpeg.antt =====
-- `append_mjpeg_payload` and `queue_mjpeg_access_unit` of src/video/rockchip_mpp_rtp_decoder.cpp: the
-- fragments of a JPEG frame (RFC 2435).
pub mod Fragments
pub mod Frames
pub mod Queue
use openhd_glide.Base.{
  ℕ, zero, suc, ◌+◌, ◌-◌, ◌*◌, Bool, true, false, not, ◌&&◌, ◌||◌, List, [], ◌∷◌, ◌++◌, Option,
  none, some, ltb, leb, ◌==◌, if◌then◌else◌, length, take, drop, Bytes,
}
use openhd_glide.Video.Rtp.{byte_at, has_bit}
use openhd_glide.Video.Decoder.{Decoder, MjpegAccessUnit}
use openhd_glide.Video.Decoder.Jpeg.{jpeg_header, quant_table}
use openhd_glide.Video.Decoder.Jpeg.Tables.{jpeg_luma_quantizer, jpeg_chroma_quantizer}

unfoldable pub fragment_offset : Bytes → ℕ
fragment_offset payload = byte_at payload 1 * 65536 + byte_at payload 2 * 256 + byte_at payload 3

-- `payload[6] == 0 ? 2048 : payload[6] * 8`.
abbrev pub pixels : ℕ → ℕ
pixels blocks = if blocks == 0 then 2048 else blocks * 8

-- What the headers of a fragment say: `type` without the restart flag.
pub record Fragment : Type 0 where
  pub offset : ℕ
  pub type : ℕ
  pub width : ℕ
  pub height : ℕ
  pub restart_interval : ℕ
  pub luma : Bytes
  pub chroma : Bytes
  pub scan : Bytes

-- A fragment that is cut short is ignored; one with tables that cannot be used is counted.
pub data Reading : Type 0 where
  ignored unusable : Reading
  usable : Fragment → Reading

-- The restart header, with the payload's offset behind it: the type, the interval and the offset.
unfoldable pub restart_of : Bytes → Option (ℕ × ℕ × ℕ)
restart_of payload =
    let type = byte_at payload 4 in
    if has_bit type 6
    then if ltb (length payload) 12
      then none
      else some (type - 64, byte_at payload 8 * 256 + byte_at payload 9, 12)
    else some (type, 0, 8)

-- From the scan data on: there is a fragment only if it carries some.
unfoldable pub with_scan : Bytes → ℕ → ℕ → Bytes → Bytes → ℕ → Reading
with_scan payload type restart_interval luma chroma offset =
    if leb (length payload) offset
    then ignored
    else usable (record {
      offset = fragment_offset payload;
      type = type;
      width = pixels (byte_at payload 6);
      height = pixels (byte_at payload 7);
      restart_interval = restart_interval;
      luma = luma;
      chroma = chroma;
      scan = drop offset payload;
    })

-- The quantization tables stand in the first fragment from quality 128 on.
unfoldable pub with_tables : Bytes → ℕ → ℕ → ℕ → Reading
with_tables payload type restart_interval offset =
    let q = byte_at payload 5 in
    let size = length payload in
    let table_length = byte_at payload (offset + 2) * 256 + byte_at payload (offset + 3) in
    let tables = drop (offset + 4) payload in
    if not (leb 128 q && fragment_offset payload == 0)
    then with_scan payload type restart_interval (quant_table jpeg_luma_quantizer q)
        (quant_table jpeg_chroma_quantizer q) offset
    else if ltb size (offset + 4)
    then ignored
    else if not (byte_at payload (offset + 1) == 0)
        || ltb table_length 128
        || ltb size (offset + 4 + table_length)
    then unusable
    else with_scan payload type restart_interval (take 64 tables) (take 64 (drop 64 tables))
        (offset + 4 + table_length)

unfoldable pub read_fragment : Bytes → Reading
read_fragment payload = if ltb (length payload) 8 then ignored else elim (restart_of payload) [
  | none ↦ ignored
  | some (type, restart_interval, offset) ↦ with_tables payload type restart_interval offset
]

-- The end of image, unless the unit ends with it.
unfoldable pub end_image : Bytes → Bytes
end_image unit =
    if ltb (length unit) 2
      || not (byte_at unit (length unit - 2) == 0xff)
      || not (byte_at unit (length unit - 1) == 0xd9)
    then unit ++ 0xff ∷ 0xd9 ∷ []
    else unit

-- `while (mjpeg_units_.size() >= 3)`: the oldest is dropped and counted.
unfoldable pub drop_oldest : List MjpegAccessUnit → ℕ → List MjpegAccessUnit × ℕ
drop_oldest (a ∷ b ∷ c ∷ units) dropped = drop_oldest (b ∷ c ∷ units) (suc dropped)
drop_oldest units dropped = (units, dropped)

unfoldable pub queue_mjpeg_access_unit : Decoder → ℕ → ℕ → ℕ → Decoder
queue_mjpeg_access_unit d width height pts =
    let unit : MjpegAccessUnit = record {
      data' = end_image d.access_unit;
      pts = pts;
      width = width;
      height = height;
    } in
    let (kept, dropped) = drop_oldest d.mjpeg_units d.dropped_decoded_frames in
    record d {
      mjpeg_units = kept ++ unit ∷ [];
      dropped_decoded_frames = dropped;
      access_unit = [];
      have_access_unit = false;
    }

-- A frame whose marker was lost is queued when the next one begins.
unfoldable pub queue_unfinished : Decoder → ℕ → Decoder
queue_unfinished d timestamp =
    if d.have_access_unit
      && not (length d.access_unit == 0)
      && not (d.access_unit_timestamp == timestamp)
    then queue_mjpeg_access_unit d d.mjpeg_width d.mjpeg_height d.access_unit_timestamp
    else d

-- The scan data of some senders begin with a header of their own.
unfoldable pub first_data : Fragment → Bytes
first_data f =
    if leb 2 (length f.scan) && byte_at f.scan 0 == 0xff && byte_at f.scan 1 == 0xd8
    then f.scan
    else jpeg_header f.type f.width f.height f.luma f.chroma f.restart_interval ++ f.scan

unfoldable pub begin_frame : Decoder → Fragment → ℕ → Decoder
unfolding queue_unfinished first_data
begin_frame d f timestamp = record (queue_unfinished d timestamp) {
  access_unit = first_data f;
  access_unit_timestamp = timestamp;
  have_access_unit = true;
  mjpeg_width = f.width;
  mjpeg_height = f.height;
}

abbrev pub finish_if : Bool → Decoder → Fragment → ℕ → Decoder
finish_if marker d f timestamp =
    if marker then queue_mjpeg_access_unit d f.width f.height timestamp else d

unfoldable pub add_fragment : Decoder → Fragment → Bool → ℕ → Decoder
unfolding begin_frame
add_fragment d f marker timestamp =
    if f.offset == 0
    then finish_if marker (begin_frame d f timestamp) f timestamp
    else if not d.have_access_unit || not (d.access_unit_timestamp == timestamp)
    then record d { incomplete_fragments = suc d.incomplete_fragments }
    else finish_if marker (record d { access_unit = d.access_unit ++ f.scan }) f timestamp

unfoldable pub append_mjpeg_payload : Decoder → Bytes → Bool → ℕ → Decoder × Bool
append_mjpeg_payload d payload marker timestamp = elim (read_fragment payload) [
  | ignored ↦ (d, true)
  | unusable ↦ (record d { incomplete_fragments = suc d.incomplete_fragments }, true)
  | usable f ↦ (add_fragment d f marker timestamp, true)
]
