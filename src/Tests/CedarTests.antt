-- ===== src/Tests/CedarTests.antt =====
-- src/video/cedar_rtp_decoder.cpp at concrete inputs.
use openhd_glide.Base.{
  ℕ, ◌≡◌, refl, ◌&&◌, true, false, [], ◌∷◌, List, some, All, suc, leb, length, Bytes, arith,
}
use openhd_glide.Video.Rtp.{byte_at, has_bit}
use openhd_glide.Video.Cedar.{Cedar, Library, VideoPicture, nv12, fresh, no_bitstream}
use openhd_glide.Video.Cedar.Bits.{first_slice_starts_frame}
use openhd_glide.Video.Cedar.Bits.Golomb.{first_slice_starts_frame-top_bit}
use openhd_glide.Video.Cedar.Append.Plain.{IsPlain}
use openhd_glide.Video.Cedar.Append.Payloads.{has_idr}
use openhd_glide.Video.Cedar.Append.Waiting.{Payload, append_all, IsOneOf, append_all-fresh}
use openhd_glide.Video.Cedar.Append.Dropping.{GivesNoSlice, append_all-dropped}
use openhd_glide.Video.Cedar.Pictures.{DmabufVideoFrame, no_format, drain_picture}
use openhd_glide.Video.Cedar.Pictures.Queue.{IsKept, drain_picture-IsKept}

abbrev picture : ℕ → VideoPicture
picture fd = record {
  buffer = some fd;
  width = 64;
  height = 32;
  line_stride = 0;
  pixel_format = nv12;
}

-- A library with room for any unit; its state counts the calls, and one picture is always ready.
abbrev roomy : Library ℕ
roomy = record {
  request_buffer = λ s n. (suc s, some (n, 0));
  submit_data = λ s first second n pts. (suc s, true);
  decode = λ s. (suc s, no_bitstream);
  request_pictures = λ s. (s, picture s ∷ []);
  return_picture = λ s p. suc s;
}

abbrev idr_nal : Bytes
idr_nal = 0x65 ∷ 0x88 ∷ 0x84 ∷ []

first_slice_starts_frame-top_bit_example :
    first_slice_starts_frame idr_nal ≡ leb 2 (length idr_nal) && has_bit (byte_at idr_nal 1) 7
first_slice_starts_frame-top_bit_example = first_slice_starts_frame-top_bit idr_nal

-- A parameter set, then a slice that is not IDR.
abbrev early_payloads : List Payload
early_payloads =
    record { bytes = 0x67 ∷ 0x4d ∷ []; next = 0; marker = false; sequence = 9; timestamp = 90 }
    ∷ record { bytes = 0x61 ∷ 0x88 ∷ []; next = 0; marker = true; sequence = 10; timestamp = 90 }
    ∷ []

append_all-fresh_example :
    let d = append_all roomy (fresh 0) early_payloads in
    (d.require_idr ≡ true) × All (λ u. IsPlain (IsOneOf early_payloads) u.0) d.submitted
unfolding has_idr
append_all-fresh_example = append_all-fresh roomy 0 early_payloads (refl, (refl, tt))

abbrev tuned : Cedar ℕ
tuned = record (fresh 0) {
  have_sequence = true;
  expected_sequence = 65535;
  access_unit = 1 ∷ 2 ∷ [];
  fu_started = true;
  sps = 0x67 ∷ 0x4d ∷ [];
  pps = 0x68 ∷ [];
}

abbrev dropping : Cedar ℕ
dropping = record tuned { dropping_timestamp = true; drop_timestamp = 90; require_idr = false }

abbrev ignored_payload : Payload
ignored_payload = record {
  bytes = 0x61 ∷ 7 ∷ [];
  next = 0;
  marker = true;
  sequence = 65535;
  timestamp = 90;
}

abbrev next_payload : Payload
next_payload = record {
  bytes = 0x61 ∷ 0x88 ∷ [];
  next = 0;
  marker = true;
  sequence = 0;
  timestamp = 180;
}

append_all-dropped_example :
    GivesNoSlice dropping
      (append_all roomy dropping (ignored_payload ∷ next_payload ∷ []))
      next_payload
unfolding has_idr
append_all-dropped_example =
    append_all-dropped roomy dropping (ignored_payload ∷ []) next_payload refl refl (omega arith)
      (refl, tt) (omega arith) (omega arith) refl refl (omega arith) refl

abbrev no_frame : DmabufVideoFrame
no_frame = record {
  width = 0;
  height = 0;
  drm_format = no_format;
  plane_count = 0;
  fds = [];
  strides = [];
  offsets = [];
}

drain_picture-IsKept_example :
    IsKept roomy 0 (picture 0 ∷ []) tuned (drain_picture roomy tuned no_frame).0
drain_picture-IsKept_example = drain_picture-IsKept roomy tuned no_frame
