-- ===== src/Video/Decoder/Nal.antt =====
-- `queue_nal` and `flush_access_unit`: the slices of a picture are collected into an access unit.
use openhd_glide.Base.{
  ℕ, suc, ◌/◌, ◌%◌, Bool, true, false, not, ◌&&◌, ◌||◌, [], ◌++◌, leb, ◌==◌, if◌then◌else◌, length,
  Bytes,
}
use openhd_glide.Video.Rtp.{byte_at}
use openhd_glide.Video.Decoder.{Decoder, Platform, and_then}
use openhd_glide.Video.Decoder.Submit.{
  start_code, submit_packet, submit_nal, inject_x20_header_if_needed,
}

-- `(data[0] >> 1) & 0x3f` or `data[0] & 0x1f`.
unfoldable pub nal_type : Bool → Bytes → ℕ
nal_type h265 nal = if h265 then byte_at nal 0 / 2 % 64 else byte_at nal 0 % 32

unfoldable pub is_vcl : Bool → Bytes → Bool
unfolding nal_type
is_vcl h265 nal =
    if h265
    then leb (nal_type h265 nal) 31
    else leb 1 (nal_type h265 nal) && leb (nal_type h265 nal) 5

-- A new time stamp while a unit is open: its marker was lost, and the unit is dropped.
unfoldable pub drop_stale : Decoder → ℕ → Decoder
drop_stale d timestamp =
    if d.have_access_unit && not (d.access_unit_timestamp == timestamp)
    then record d {
      access_unit = [];
      have_access_unit = false;
      incomplete_fragments = suc d.incomplete_fragments;
    }
    else d

unfoldable pub open_unit : Decoder → ℕ → Decoder
open_unit d timestamp =
    if not d.have_access_unit
    then record d { access_unit_timestamp = timestamp; have_access_unit = true }
    else d

unfoldable pub collect_vcl : Decoder → Bytes → ℕ → Decoder
unfolding drop_stale open_unit
collect_vcl d nal timestamp =
    let d' = open_unit (drop_stale d timestamp) timestamp in
    record d' { access_unit = d'.access_unit ++ (start_code ++ nal) }

-- The configured seed goes in front of the first H.264 NAL.
unfoldable pub needs_seed : Decoder → Bool
needs_seed d =
    d.force_x20_header
    && not d.h265
    && not d.mjpeg
    && d.submitted_packets == 0
    && not d.x20_sps_seen
    && not d.x20_pps_seen
    && not d.x20_header_injected

unfoldable pub queue_nal : Platform → Decoder → Bytes → ℕ → Decoder × Bool
unfolding needs_seed
queue_nal p d nal timestamp =
    let seeded = if needs_seed d then inject_x20_header_if_needed p d else (d, true) in
    if length nal == 0
    then (d, true)
    else and_then seeded (λ d'.
      if not (is_vcl d'.h265 nal)
      then submit_nal p d' nal timestamp
      else (collect_vcl d' nal timestamp, true))

abbrev close_unit : Decoder × Bool → Decoder × Bool
close_unit (d, submitted) = (record d { have_access_unit = false; access_unit = [] }, submitted)

unfoldable pub flush_access_unit : Platform → Decoder → Decoder × Bool
flush_access_unit p d =
    if not d.have_access_unit || length d.access_unit == 0
    then close_unit (d, true)
    else close_unit (submit_packet p d d.access_unit d.access_unit_timestamp)

-- `!marker || flush_access_unit()`.
unfoldable pub flush_if : Platform → Bool → Decoder → Decoder × Bool
flush_if p marker d = if marker then flush_access_unit p d else (d, true)
