-- ===== src/Video/Decoder/Jpeg.antt =====
-- The JPEG header that src/video/rockchip_mpp_rtp_decoder.cpp puts in front of the scan of an RTP
-- frame. Each function gives the bytes that the `append_` function of its name appends.
pub mod Tables
pub mod Segments
use openhd_glide.Base.{
  ℕ, zero, suc, ◌+◌, ◌-◌, ◌*◌, ◌/◌, ◌%◌, [], ◌∷◌, ◌++◌, map, min, max, ltb, ◌==◌, if◌then◌else◌,
  length, flatten, Bytes, codes,
}
use openhd_glide.Video.Decoder.Jpeg.Tables.{
  jpeg_luma_quantizer, jpeg_chroma_quantizer, jpeg_huffman_luma_dc, jpeg_huffman_chroma_dc,
  jpeg_huffman_luma_ac, jpeg_huffman_chroma_ac,
}

abbrev pub u16_bytes : ℕ → Bytes
u16_bytes value = value / 256 % 256 ∷ value % 256 ∷ []

abbrev pub marker_bytes : ℕ → Bytes
marker_bytes marker = 0xff ∷ marker ∷ []

-- `std::clamp(value, 1, 255)`.
abbrev pub clamp_quantizer : ℕ → ℕ
clamp_quantizer value = max 1 (min value 255)

unfoldable pub quantizer_scale : ℕ → ℕ
quantizer_scale q =
    let factor = max 1 (min q 99) in if ltb factor 50 then 5000 / factor else 200 - factor * 2

-- One of the two tables of `make_jpeg_quant_tables`, from the quantizers of `base`.
unfoldable pub quant_table : Bytes → ℕ → Bytes
quant_table base q = map (λ b. clamp_quantizer ((b * quantizer_scale q + 50) / 100)) base

unfoldable pub quant_header : Bytes → ℕ → Bytes
quant_header table table_id = marker_bytes 0xdb ++ (u16_bytes 67 ++ (table_id ∷ table))

unfoldable pub huffman_header : Bytes → ℕ → ℕ → Bytes
huffman_header table table_id table_class =
    marker_bytes 0xc4 ++ (u16_bytes (3 + length table) ++ ((table_class * 16 + table_id) ∷ table))

abbrev pub jfif : Bytes
jfif = codes "JFIF" ++ 0 ∷ 1 ∷ 1 ∷ 0 ∷ 0 ∷ 1 ∷ 0 ∷ 1 ∷ 0 ∷ 0 ∷ []

abbrev pub frame_header : ℕ → ℕ → ℕ → Bytes
frame_header type width height =
    8
    ∷ (u16_bytes height
        ++ (u16_bytes width
            ++ (3 ∷ 1 ∷ (if type == 0 then 0x21 else 0x22) ∷ 0 ∷ 2 ∷ 0x11 ∷ 1 ∷ 3 ∷ 0x11 ∷ 1 ∷ [])))

abbrev pub scan_header : Bytes
scan_header = 3 ∷ 1 ∷ 0 ∷ 2 ∷ 0x11 ∷ 3 ∷ 0x11 ∷ 0 ∷ 63 ∷ 0 ∷ []

unfoldable pub restart_header : ℕ → Bytes
restart_header restart_interval =
    if restart_interval == 0
    then []
    else marker_bytes 0xdd ++ (u16_bytes 4 ++ u16_bytes restart_interval)

unfoldable pub jpeg_header : ℕ → ℕ → ℕ → Bytes → Bytes → ℕ → Bytes
unfolding restart_header
jpeg_header type width height luma chroma restart_interval = flatten (
    marker_bytes 0xd8
    ∷ (marker_bytes 0xe0 ++ (u16_bytes 16 ++ jfif))
    ∷ quant_header luma 0
    ∷ quant_header chroma 1
    ∷ restart_header restart_interval
    ∷ (marker_bytes 0xc0 ++ (u16_bytes 17 ++ frame_header type width height))
    ∷ huffman_header jpeg_huffman_luma_dc 0 0
    ∷ huffman_header jpeg_huffman_luma_ac 0 1
    ∷ huffman_header jpeg_huffman_chroma_dc 1 0
    ∷ huffman_header jpeg_huffman_chroma_ac 1 1
    ∷ (marker_bytes 0xda ++ (u16_bytes 12 ++ scan_header))
    ∷ [])
