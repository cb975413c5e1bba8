-- ===== src/Tests/MjpegTests.antt =====
-- The JPEG branch of src/video/rockchip_mpp_rtp_decoder.cpp at concrete inputs.
use openhd_glide.Base.{◌≡◌, ◌≤◌, refl, true, [], ◌∷◌, ◌++◌, some, length, replicate, Bytes, arith}
use openhd_glide.Video.Decoder.{Decoder}
use openhd_glide.Video.Decoder.Jpeg.{jpeg_header}
use openhd_glide.Video.Decoder.Jpeg.Segments.{
  read_jpeg, find_size, scan_of, segment, tables_of, read_jpeg-jpeg_header,
}
use openhd_glide.Video.Decoder.Mjpeg.{
  append_mjpeg_payload, read_fragment, restart_of, with_tables, with_scan, Reading,
}
use openhd_glide.Video.Decoder.Mjpeg.Fragments.{Format, jpeg_fragment}
use openhd_glide.Video.Decoder.Mjpeg.Queue.{append_mjpeg_payload-IsShort}
use openhd_glide.Tests.VideoTests.{idle}

abbrev camera : Decoder
camera = record idle { mjpeg = true }

abbrev small : Format
small = record { type = 1; q = 50; columns = 2; rows = 3 }

-- A payload that carries no scan data is ignored.
empty_run : read_fragment (jpeg_fragment small 0 []) ≡ Reading.ignored
unfolding read_fragment restart_of with_tables with_scan
empty_run = refl

append_mjpeg_payload-IsShort_example :
    length (append_mjpeg_payload camera (jpeg_fragment small 0 (7 ∷ [])) true 90000).0.mjpeg_units
    ≤ 3
append_mjpeg_payload-IsShort_example =
    append_mjpeg_payload-IsShort camera (jpeg_fragment small 0 (7 ∷ [])) true 90000 (omega arith)

abbrev flat : Bytes
flat = replicate 64 16

read_jpeg-jpeg_header_example :
    let found = tables_of 1 640 480 flat flat 0 ++ segment 0xda scan_of ∷ [] in
    (read_jpeg (jpeg_header 1 640 480 flat flat 0 ++ (9 ∷ 9 ∷ [])) ≡ some (found, 9 ∷ 9 ∷ []))
    × (find_size found ≡ some (640, 480))
read_jpeg-jpeg_header_example = read_jpeg-jpeg_header 1 640 480 0 flat flat refl refl (9 ∷ 9 ∷ [])
