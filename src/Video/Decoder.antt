-- ===== src/Video/Decoder.antt =====
-- The state of `RockchipMppRtpDecoder` (src/video/rockchip_mpp_rtp_decoder.hpp) that its feed thread
-- uses, and what it asks of the platform.
pub mod Submit
pub mod Jpeg
pub mod Nal
pub mod H264
pub mod Mjpeg
pub mod Feed
use openhd_glide.Base.{ℕ, Bool, true, false, List, [], Option, Bytes}

pub record MjpegAccessUnit : Type 0 where
  pub data' : Bytes
  pub pts : ℕ
  pub width : ℕ
  pub height : ℕ

pub record Decoder : Type 0 where
  pub h265 : Bool
  pub mjpeg : Bool
  pub parsed_units : ℕ
  pub submitted_packets : ℕ
  pub submit_stalls : ℕ
  pub rtp_packets : ℕ
  pub rtp_sequence_gaps : ℕ
  pub rtp_sequence_resyncs : ℕ
  pub late_or_duplicate_packets : ℕ
  pub incomplete_fragments : ℕ
  pub x20_header_injections : ℕ
  pub have_sequence : Bool
  pub expected_sequence : ℕ
  pub have_rtp_timestamp : Bool
  pub last_rtp_timestamp : ℕ
  pub current_timestamp : ℕ
  pub x20_sps_seen : Bool
  pub x20_pps_seen : Bool
  pub x21_mpp_sps_seen : Bool
  pub x20_checked_non_x20 : Bool
  pub x20_header_injected : Bool
  pub x20_header_missing : Bool
  pub force_x20_header : Bool
  pub fragment : Bytes
  pub access_unit : Bytes
  pub have_access_unit : Bool
  pub access_unit_timestamp : ℕ
  pub mjpeg_width : ℕ
  pub mjpeg_height : ℕ
  pub mjpeg_units : List MjpegAccessUnit
  pub dropped_decoded_frames : ℕ
  -- The packets that MPP has accepted, with their time stamps, in order: its input.
  pub accepted : List (Bytes × ℕ)

-- How the loop of `submit_packet` ends: the packet is put, `decode_put_packet` refuses it for
-- 100 ms, no packet can be made, or the decoder is stopped meanwhile.
pub data Put : Type 0 where
  put stalled no_packet stopped : Put

-- MPP and the file system. `put_packet` is asked with the packets accepted so far, `read_file`
-- returns the bytes of a file that can be opened.
pub record Platform : Type 0 where
  pub put_packet : List (Bytes × ℕ) → Bytes → ℕ → Put
  pub read_file : Bytes → Option Bytes
  pub getenv : Bytes → Option Bytes

-- `a && b` where both change the decoder: `b` runs only if `a` returns true.
abbrev pub and_then : Decoder × Bool → (Decoder → Decoder × Bool) → Decoder × Bool
and_then (d, true) k = k d
and_then (d, false) k = (d, false)
