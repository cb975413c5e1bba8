-- ===== src/Video/Decoder/Feed/Slices.antt =====
-- One RTP packet that carries a slice of an H.264 picture.
use openhd_glide.Base.{
  ℕ, ◌%◌, ◌^◌, ◌<◌, ◌≡◌, ap, ◌∙◌, ◌⊎◌, inl, inr, Bool, true, false, ◌==◌, leb, ◌&&◌, [], ◌++◌,
  length, Bytes, arith, some,
}
use openhd_glide.Video.Rtp.{byte_at, RtpPacket, parse_rtp}
use openhd_glide.Video.Rtp.RoundTrip.{rtp_packet, parse_rtp-rtp_packet}
use openhd_glide.Video.Decoder.{Decoder, Platform, and_then}
use openhd_glide.Video.Decoder.Submit.{start_code}
use openhd_glide.Video.Decoder.Nal.{nal_type, is_vcl, collect_vcl, needs_seed, queue_nal, flush_if}
use openhd_glide.Video.Decoder.H264.{append_h264_payload}
use openhd_glide.Video.Decoder.Feed.{
  accept_sequence, track_sequence, append_payload, handle_rtp_packet, if_used,
}
use openhd_glide.Video.Decoder.Feed.Sequence.{counted, delta-expected}
use openhd_glide.Video.Decoder.Feed.Pictures.{IsSlice, opened, queue_nal-slice}

-- An H.264 decoder with no seed due that has seen the stream up to this number.
pub record IsFed (d : Decoder) (sequence : ℕ) : Type 0 where
  pub h264 : d.h265 ≡ false
  pub not_mjpeg : d.mjpeg ≡ false
  pub no_seed : needs_seed d ≡ false
  pub tracking : d.have_sequence ≡ true
  pub expected : d.expected_sequence ≡ sequence

-- No unit is open, or one of this time stamp.
abbrev pub CanJoin : Decoder → ℕ → Type 0
CanJoin d timestamp =
    ((d.have_access_unit ≡ false) × (d.access_unit ≡ []))
    ⊎ ((d.have_access_unit ≡ true) × (d.access_unit_timestamp ≡ timestamp))

collect_vcl-joined :
    (d : Decoder) (nal : Bytes) (timestamp : ℕ)
    → CanJoin d timestamp
    → collect_vcl d nal timestamp ≡ opened d timestamp (d.access_unit ++ (start_code ++ nal))
unfolding collect_vcl
collect_vcl-joined d nal timestamp (inl (h, u)) = ground (arith, h, u)
collect_vcl-joined d nal timestamp (inr (h, t)) = ground (arith, h, t)

-- The decoder once the expected packet is counted.
abbrev pub ordered : Decoder → ℕ → ℕ → Decoder
ordered d sequence timestamp = accept_sequence (counted d) sequence timestamp

track_sequence-expected :
    (d : Decoder) (sequence timestamp : ℕ)
    → IsFed d sequence
    → sequence < 65536
    → track_sequence d sequence timestamp ≡ (ordered d sequence timestamp, true)
unfolding track_sequence
track_sequence-expected d sequence timestamp f s =
    rw (f.tracking, f.expected, delta-expected sequence s)

append_h264_payload-slice :
    (p : Platform) (d : Decoder) (nal : Bytes) (marker : Bool) (timestamp : ℕ)
    → IsSlice false nal
    → append_h264_payload p d nal marker timestamp
      ≡ and_then (queue_nal p d nal timestamp) (flush_if p marker)
unfolding append_h264_payload is_vcl nal_type
append_h264_payload-slice p d nal marker timestamp s =
    let some_bytes : (length nal == 0) ≡ false = ground (arith, s.has_bytes) in
    let single : (leb 1 (byte_at nal 0 % 32) && leb (byte_at nal 0 % 32) 23) ≡ true =
      ground (arith, s.vcl) in
    rw (some_bytes, single)

handle_rtp_packet-parsed :
    (p : Platform) (d : Decoder) (bytes : Bytes) (packet : RtpPacket)
    → parse_rtp bytes ≡ some packet
    → handle_rtp_packet p d bytes
      ≡ if_used
          (track_sequence d packet.sequence packet.timestamp)
          (λ d'. append_payload p d' packet)
unfolding handle_rtp_packet
handle_rtp_packet-parsed p d bytes packet e = rw (e, handle_rtp_packet)

append_payload-h264 :
    (p : Platform) (d : Decoder) (packet : RtpPacket)
    → d.mjpeg ≡ false
    → d.h265 ≡ false
    → append_payload p d packet
      ≡ append_h264_payload p d packet.payload packet.marker packet.timestamp
unfolding append_payload
append_payload-h264 p d packet m h = rw (m, h)

pub handle_rtp_packet-slice :
    (p : Platform) (d : Decoder) (sequence timestamp : ℕ) (nal : Bytes) (marker : Bool)
    → IsFed d sequence
    → CanJoin d timestamp
    → IsSlice false nal
    → sequence < 65536
    → timestamp < 2 ^ 32
    → handle_rtp_packet p d (rtp_packet marker sequence timestamp nal)
      ≡ flush_if p marker
          (opened (ordered d sequence timestamp) timestamp (d.access_unit ++ (start_code ++ nal)))
handle_rtp_packet-slice p d sequence timestamp nal marker f j s n t =
    let d' = ordered d sequence timestamp in
    let packet : RtpPacket = record {
      marker = marker;
      sequence = sequence;
      timestamp = timestamp;
      payload = nal;
    } in
    let slice : IsSlice d'.h265 nal = unfold accept_sequence in rw f.h264 s in
    let seed : needs_seed d' ≡ false = unfold accept_sequence needs_seed in f.no_seed in
    let join : CanJoin d' timestamp = unfold accept_sequence in j in
    let queued : queue_nal p d' nal timestamp
        ≡ (opened d' timestamp (d.access_unit ++ (start_code ++ nal)), true) =
      unfold accept_sequence in
      queue_nal-slice p d' nal timestamp slice seed
      ∙ ap (λ (x : Decoder). (x, true)) (collect_vcl-joined d' nal timestamp join) in
    handle_rtp_packet-parsed p d (rtp_packet marker sequence timestamp nal) packet
      (parse_rtp-rtp_packet marker sequence timestamp nal n t s.has_bytes)
    ∙ ap (λ (r : Decoder × Bool). if_used r (λ d'. append_payload p d' packet))
        (track_sequence-expected d sequence timestamp f n)
    ∙ append_payload-h264 p d' packet (unfold accept_sequence in f.not_mjpeg)
        (unfold accept_sequence in f.h264)
    ∙ append_h264_payload-slice p d' nal marker timestamp s
    ∙ ap (λ (r : Decoder × Bool). and_then r (flush_if p marker)) queued
