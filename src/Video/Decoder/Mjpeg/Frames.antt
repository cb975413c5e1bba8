-- ===== src/Video/Decoder/Mjpeg/Frames.antt =====
-- The fragments of a JPEG frame give the frame.
use openhd_glide.Base.{ℕ, ◌+◌, ◌<◌, true, false, List, [], ◌∷◌, ◌++◌, length, Bytes}
use openhd_glide.Video.Decoder.{Decoder, MjpegAccessUnit}
use openhd_glide.Video.Decoder.Mjpeg.{pixels, end_image, append_mjpeg_payload}
use openhd_glide.Video.Decoder.Mjpeg.Fragments.{Format, jpeg_fragment, header_of}

-- The fragments of one frame, the marker on the last.
unfoldable pub feed_mjpeg : Decoder → List Bytes → ℕ → Decoder
feed_mjpeg d [] timestamp = d
feed_mjpeg d (payload ∷ []) timestamp = (append_mjpeg_payload d payload true timestamp).0
feed_mjpeg d (payload ∷ next ∷ payloads) timestamp =
    feed_mjpeg (append_mjpeg_payload d payload false timestamp).0 (next ∷ payloads) timestamp

-- The pieces of a frame, each with its offset.
abbrev pub cut_frame : Format → ℕ → List Bytes → List Bytes
cut_frame f offset [] = []
cut_frame f offset (piece ∷ pieces) =
    jpeg_fragment f offset piece ∷ cut_frame f (offset + length piece) pieces

abbrev HasBytes : Bytes → Type 0
HasBytes piece = 0 < length piece

-- The image that a frame with these scan data is to be.
abbrev pub image_of : Format → Bytes → ℕ → MjpegAccessUnit
image_of f scan timestamp = record {
  data' = end_image (header_of f ++ scan);
  pts = timestamp;
  width = pixels f.columns;
  height = pixels f.rows;
}
