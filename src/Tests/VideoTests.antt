-- ===== src/Tests/VideoTests.antt =====
-- src/video/rockchip_mpp_rtp_decoder.cpp at concrete inputs.
use openhd_glide.Base.{◌≡◌, refl, false, true, [], ◌∷◌, some, none, All, arith, map, flatten, Bytes}
use openhd_glide.Video.Rtp.{
  RtpPacket, parse_rtp, parse_at, payload_offset, payload_size, read_header,
}
use openhd_glide.Video.Decoder.{Decoder, Platform, put, and_then}
use openhd_glide.Video.Decoder.Nal.{is_vcl, needs_seed, queue_nal, flush_if}
use openhd_glide.Video.Decoder.H264.{clear_fragment, queue_all, append_h264_payload}
use openhd_glide.Video.Decoder.H264.Fragments.{fu_a, start_bit, end_bit, feed_h264, feed_h264-fu_a}
use openhd_glide.Video.Decoder.H264.Aggregates.{sized, append_h264_payload-aggregate}
use openhd_glide.Video.Decoder.Feed.{track_sequence, feed_loop}
use openhd_glide.Video.Decoder.Feed.Slices.{IsFed}
use openhd_glide.Video.Decoder.Feed.Streams.{Picture, stream_packets, feed_loop-stream_packets}
use openhd_glide.Video.Decoder.Feed.Delivery.{IsDelivered, picture_packets, feed_loop-picture}
use openhd_glide.Video.Decoder.Feed.Sequence.{outcome, late, track_sequence-verdict_of}
use openhd_glide.Video.Decoder.Feed.Pictures as Pictures
use openhd_glide.Video.Decoder.Feed.Pictures.{
  unit_of, opened, queue_all-picture, queue_all-lost_marker,
}

abbrev pub idle : Decoder
idle = record {
  h265 = false;
  mjpeg = false;
  parsed_units = 0;
  submitted_packets = 0;
  submit_stalls = 0;
  rtp_packets = 7;
  rtp_sequence_gaps = 0;
  rtp_sequence_resyncs = 0;
  late_or_duplicate_packets = 0;
  incomplete_fragments = 0;
  x20_header_injections = 0;
  have_sequence = true;
  expected_sequence = 3;
  have_rtp_timestamp = true;
  last_rtp_timestamp = 90000;
  current_timestamp = 0;
  x20_sps_seen = false;
  x20_pps_seen = false;
  x21_mpp_sps_seen = false;
  x20_checked_non_x20 = false;
  x20_header_injected = false;
  x20_header_missing = false;
  force_x20_header = false;
  fragment = [];
  access_unit = [];
  have_access_unit = false;
  access_unit_timestamp = 0;
  mjpeg_width = 0;
  mjpeg_height = 0;
  mjpeg_units = [];
  dropped_decoded_frames = 0;
  accepted = [];
}

abbrev takes_all : Platform
takes_all = record {
  put_packet = λ done bytes pts. put;
  read_file = λ path. none;
  getenv = λ name. none;
}

abbrev slice_a : Bytes
slice_a = 0x65 ∷ 1 ∷ 2 ∷ []

abbrev slice_b : Bytes
slice_b = 0x65 ∷ 3 ∷ []

-- Version 2, one contributing source, padding of two bytes.
abbrev padded_packet : Bytes
padded_packet =
    0xa1 ∷ 0xe0 ∷ 0 ∷ 3 ∷ 0 ∷ 1 ∷ 0x5f ∷ 0x90 ∷ 0 ∷ 0 ∷ 0 ∷ 1 ∷ 9 ∷ 9 ∷ 9 ∷ 9 ∷ 0x65 ∷ 1 ∷ 0 ∷ 2
    ∷ []

abbrev parsed : RtpPacket
parsed = record { marker = true; sequence = 3; timestamp = 90000; payload = 0x65 ∷ 1 ∷ [] }

parse_run : parse_rtp padded_packet ≡ some parsed
unfolding parse_rtp parse_at payload_offset payload_size read_header
parse_run = refl

feed_h264-fu_a_example :
    feed_h264 takes_all idle
      (fu_a 0x65 start_bit (1 ∷ []) ∷ fu_a 0x65 0 (2 ∷ []) ∷ fu_a 0x65 end_bit (3 ∷ []) ∷ [])
      90000
    ≡ clear_fragment (
        queue_nal takes_all
          (record idle { fragment = 0x65 ∷ 1 ∷ 2 ∷ 3 ∷ []; current_timestamp = 90000 })
          (0x65 ∷ 1 ∷ 2 ∷ 3 ∷ [])
          90000)
feed_h264-fu_a_example =
    feed_h264-fu_a takes_all idle 0x65 90000 (1 ∷ []) (3 ∷ []) ((2 ∷ []) ∷ []) (omega arith)

append_h264_payload-aggregate_example :
    append_h264_payload takes_all idle
      (0x78 ∷ flatten (map sized (slice_a ∷ slice_b ∷ [])))
      true
      90000
    ≡ and_then (queue_all takes_all idle (slice_a ∷ slice_b ∷ []) 90000) (flush_if takes_all true)
append_h264_payload-aggregate_example =
    append_h264_payload-aggregate takes_all idle 0x78 (slice_a ∷ slice_b ∷ []) true 90000 refl

track_sequence-verdict_of_example : track_sequence idle 0 90000 ≡ outcome idle 0 90000 late
track_sequence-verdict_of_example =
    track_sequence-verdict_of idle 65533 0 refl refl (omega arith) (omega arith) (omega arith)
      (omega arith)

slices-ok : All (Pictures.IsSlice false) (slice_a ∷ slice_b ∷ [])
unfolding is_vcl
slices-ok = (
  record { has_bytes = omega arith; vcl = refl },
  (record { has_bytes = omega arith; vcl = refl }, tt),
)

queue_all-picture_example :
    (and_then
      (queue_all takes_all idle (slice_a ∷ slice_b ∷ []) 90000)
      (flush_if takes_all true)).0.accepted
    ≡ (unit_of (slice_a ∷ slice_b ∷ []), 90000) ∷ []
queue_all-picture_example =
    (queue_all-picture takes_all slice_a (slice_b ∷ []) idle 90000 slices-ok
      (unfold needs_seed in refl) refl refl refl refl).1

queue_all-lost_marker_example :
    let r =
      and_then
        (and_then
          (queue_all takes_all idle (slice_a ∷ []) 90000)
          (λ d'. queue_all takes_all d' (slice_b ∷ []) 93000))
        (flush_if takes_all true) in
    (r.1 ≡ true)
    × (r.0.accepted ≡ (unit_of (slice_b ∷ []), 93000) ∷ [])
    × (r.0.incomplete_fragments ≡ 1)
    × (r.0.have_access_unit ≡ false)
    × (r.0.access_unit ≡ [])
queue_all-lost_marker_example =
    queue_all-lost_marker takes_all slice_a [] slice_b [] idle 90000 93000 (slices-ok.0, tt)
      slices-ok.1 (unfold needs_seed in refl) refl refl refl (omega arith) refl

idle-IsFed : IsFed idle 3
idle-IsFed = record {
  h264 = refl;
  not_mjpeg = refl;
  no_seed = unfold needs_seed in refl;
  tracking = refl;
  expected = refl;
}

feed_loop-picture_example :
    IsDelivered []
      (unit_of (slice_a ∷ slice_b ∷ []))
      90000
      5
      (feed_loop takes_all idle (picture_packets 3 90000 slice_a (slice_b ∷ [])))
feed_loop-picture_example =
    feed_loop-picture takes_all (slice_b ∷ []) slice_a idle 3 90000 idle-IsFed refl refl slices-ok
      (omega arith) (omega arith) refl

abbrev two_slices : Picture
two_slices = record { first = slice_a; others = slice_b ∷ []; timestamp = 90000 }

abbrev one_slice : Picture
one_slice = record { first = slice_b; others = []; timestamp = 93000 }

feed_loop-stream_packets_example :
    ((feed_loop takes_all idle (stream_packets 3 (two_slices ∷ one_slice ∷ []))).1 ≡ true)
    × ((feed_loop takes_all idle (stream_packets 3 (two_slices ∷ one_slice ∷ []))).0.accepted
        ≡ (unit_of (slice_a ∷ slice_b ∷ []), 90000) ∷ (unit_of (slice_b ∷ []), 93000) ∷ [])
feed_loop-stream_packets_example =
    feed_loop-stream_packets takes_all (two_slices ∷ one_slice ∷ []) idle 3 idle-IsFed refl refl
      (
        record { slices = slices-ok; time_fits = omega arith },
        (record { slices = (slices-ok.1.0, tt); time_fits = omega arith }, tt),
      )
      (omega arith) (λ accepted bytes pts. refl)
