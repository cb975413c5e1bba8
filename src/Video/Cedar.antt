-- ===== src/Video/Cedar.antt =====
-- The state of `CedarRtpDecoder` (src/video/cedar_rtp_decoder.hpp), and the calls of the Cedar
-- library that it makes. The library keeps a state of its own, of any type `S`.
pub mod Bits
pub mod Units
pub mod Append
pub mod Pictures
pub mod Feed
use openhd_glide.Base.{ℕ, Bool, true, false, List, [], Option, none, Bytes}

-- `VideoPicture`, as far as it is read: `buffer` is `none` for a negative descriptor.
pub data PixelFormat : Type 0 where
  nv12 nv21 yv12 : PixelFormat
  other : ℕ → PixelFormat

pub record VideoPicture : Type 0 where
  pub buffer : Option ℕ
  pub width : ℕ
  pub height : ℕ
  pub line_stride : ℕ
  pub pixel_format : PixelFormat

-- The results of `DecodeVideoStream` that the source tells apart.
pub data Decoded : Type 0 where
  no_bitstream no_frame_buffer unsupported resolution_change decoded : Decoded

-- `request_buffer` returns the sizes of the buffer and of the ring buffer. `submit_data` is given
-- what was copied to the two, the length and the time stamp. `request_pictures` returns what
-- `RequestPicture` does until it returns null.
pub record Library (S : Type 0) : Type 0 where
  pub request_buffer : S → ℕ → S × Option (ℕ × ℕ)
  pub submit_data : S → Bytes → Bytes → ℕ → ℕ → S × Bool
  pub decode : S → S × Decoded
  pub request_pictures : S → S × List VideoPicture
  pub return_picture : S → VideoPicture → S

pub record Cedar (S : Type 0) : Type 0 where
  pub library : S
  pub access_unit : Bytes
  pub current_timestamp : ℕ
  pub have_timestamp : Bool
  pub expected_sequence : ℕ
  pub have_sequence : Bool
  pub fu_started : Bool
  pub fu_timestamp : ℕ
  pub access_unit_has_vcl : Bool
  pub dropping_timestamp : Bool
  pub require_idr : Bool
  pub drop_timestamp : ℕ
  pub sps : Bytes
  pub pps : Bytes
  pub current_picture : Option VideoPicture
  pub ready_pictures : List VideoPicture
  pub packets : ℕ
  pub rtp_sequence_gaps : ℕ
  pub late_or_duplicate_packets : ℕ
  pub dropped_incomplete_fragments : ℕ
  pub dropped_waiting_for_idr : ℕ
  pub access_units : ℕ
  pub decoded_frames : ℕ
  pub dropped_access_units : ℕ
  pub access_unit_submitted_this_poll : Bool
  pub last_error : Bytes
  -- What the library has accepted, with its time stamps, in order.
  pub submitted : List (Bytes × ℕ)

-- The state before the first packet.
abbrev pub fresh : {S : Type 0} → S → Cedar S
fresh s = record {
  library = s;
  access_unit = [];
  current_timestamp = 0;
  have_timestamp = false;
  expected_sequence = 0;
  have_sequence = false;
  fu_started = false;
  fu_timestamp = 0;
  access_unit_has_vcl = false;
  dropping_timestamp = false;
  require_idr = true;
  drop_timestamp = 0;
  sps = [];
  pps = [];
  current_picture = none;
  ready_pictures = [];
  packets = 0;
  rtp_sequence_gaps = 0;
  late_or_duplicate_packets = 0;
  dropped_incomplete_fragments = 0;
  dropped_waiting_for_idr = 0;
  access_units = 0;
  decoded_frames = 0;
  dropped_access_units = 0;
  access_unit_submitted_this_poll = false;
  last_error = [];
  submitted = [];
}

-- `a && b` where both change the decoder.
abbrev pub and_then : {S : Type 0} → Cedar S × Bool → (Cedar S → Cedar S × Bool) → Cedar S × Bool
and_then (d, true) k = k d
and_then (d, false) k = (d, false)
