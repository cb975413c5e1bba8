-- ===== src/Video/Decoder/H264.antt =====
-- `append_h264_payload` and `append_h265_payload`: single NALs, aggregation packets, fragments.
pub mod Fragments
pub mod Aggregates
use openhd_glide.Base.{
  ℕ, zero, suc, ◌+◌, ◌*◌, ◌/◌, ◌%◌, Bool, true, false, not, ◌&&◌, ◌||◌, List, [], ◌∷◌, ◌++◌, ltb,
  leb, ◌==◌, if◌then◌else◌, length, take, drop, Bytes,
}
use openhd_glide.Video.Rtp.{byte_at, has_bit}
use openhd_glide.Video.Decoder.{Decoder, Platform, and_then}
use openhd_glide.Video.Decoder.Nal.{nal_type, queue_nal, flush_if}

-- The NALs of an aggregation packet, up to a length that does not fit: `rest` is the suffix at
-- `offset`. Each round takes two bytes at least.
unfoldable pub split_loop : ℕ → Bytes → List Bytes
split_loop zero rest = []
split_loop (suc fuel) rest =
    let nal_size = byte_at rest 0 * 256 + byte_at rest 1 in
    let behind = drop 2 rest in
    let nals = take nal_size behind ∷ split_loop fuel (drop nal_size behind) in
    if ltb (length rest) 2 then [] else if ltb (length behind) nal_size then [] else nals

unfoldable pub split_aggregate : Bytes → List Bytes
split_aggregate rest = split_loop (length rest) rest

-- The loop hands each NAL on as it finds it, and stops at the first that is refused.
unfoldable pub queue_all : Platform → Decoder → List Bytes → ℕ → Decoder × Bool
queue_all p d [] timestamp = (d, true)
queue_all p d (nal ∷ nals) timestamp =
    and_then (queue_nal p d nal timestamp) (λ d'. queue_all p d' nals timestamp)

abbrev pub clear_fragment : Decoder × Bool → Decoder × Bool
clear_fragment (d, submitted) = (record d { fragment = [] }, submitted)

-- A fragment: `first` is the NAL header that a start fragment sets up, `bytes` what it carries.
unfoldable pub append_fragment :
    Platform → Decoder → Bool → Bool → Bytes → Bytes → Bool → ℕ → Decoder × Bool
append_fragment p d start end first bytes marker timestamp =
    let started =
      if start then record d { fragment = first; current_timestamp = timestamp } else d in
    let grown = record started { fragment = started.fragment ++ bytes } in
    if not start && (length d.fragment == 0 || not (d.current_timestamp == timestamp))
    then (record d { incomplete_fragments = suc d.incomplete_fragments }, true)
    else if end
    then and_then (clear_fragment (queue_nal p grown grown.fragment timestamp)) (flush_if p marker)
    else (grown, true)

unfoldable pub append_h264_payload : Platform → Decoder → Bytes → Bool → ℕ → Decoder × Bool
append_h264_payload p d payload marker timestamp =
    let kind = byte_at payload 0 % 32 in
    let fu_header = byte_at payload 1 in
    let reconstructed = byte_at payload 0 / 32 * 32 + fu_header % 32 in
    if length payload == 0
    then (d, true)
    else if leb 1 kind && leb kind 23
    then and_then (queue_nal p d payload timestamp) (flush_if p marker)
    else if kind == 24
    then and_then (queue_all p d (split_aggregate (drop 1 payload)) timestamp) (flush_if p marker)
    else if kind == 28 && leb 2 (length payload)
    then append_fragment p d (has_bit fu_header 7) (has_bit fu_header 6) (reconstructed ∷ [])
        (drop 2 payload) marker timestamp
    else (d, true)

-- `payload[0] & 0x81` keeps the highest and the lowest bit.
unfoldable pub append_h265_payload : Platform → Decoder → Bytes → Bool → ℕ → Decoder × Bool
append_h265_payload p d payload marker timestamp =
    let kind = byte_at payload 0 / 2 % 64 in
    let fu_header = byte_at payload 2 in
    let kept = byte_at payload 0 / 128 * 128 + byte_at payload 0 % 2 in
    let first : Bytes = (kept + fu_header % 64 * 2) ∷ byte_at payload 1 ∷ [] in
    if ltb (length payload) 2
    then (d, true)
    else if leb kind 47
    then and_then (queue_nal p d payload timestamp) (flush_if p marker)
    else if kind == 48
    then and_then (queue_all p d (split_aggregate (drop 2 payload)) timestamp) (flush_if p marker)
    else if kind == 49 && leb 3 (length payload)
    then append_fragment p d (has_bit fu_header 7) (has_bit fu_header 6) first (drop 3 payload)
        marker timestamp
    else (d, true)
