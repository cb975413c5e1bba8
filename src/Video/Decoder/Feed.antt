-- ===== src/Video/Decoder/Feed.antt =====
-- `handle_rtp_packet` and `feed_loop`.
pub mod Sequence
pub mod Pictures
pub mod Slices
pub mod Delivery
pub mod Streams
use openhd_glide.Base.{
  ℕ, suc, ◌+◌, ◌%◌, Bool, true, false, not, ◌&&◌, ◌||◌, List, [], ◌∷◌, Option, none, some,
  if◌then◌else◌, Bytes,
}
use openhd_glide.Base.Int.{ℤ, pos, negsuc, ltb_ℤ}
use openhd_glide.Video.Rtp.{RtpPacket, parse_rtp, sequence_delta, timestamp_delta}
use openhd_glide.Video.Decoder.{Decoder, Platform, and_then}
use openhd_glide.Video.Decoder.Mjpeg.{append_mjpeg_payload}
use openhd_glide.Video.Decoder.H264.{append_h264_payload, append_h265_payload}

-- `fragment_.clear(); access_unit_.clear(); have_access_unit_ = false;`
abbrev pub drop_partial : Decoder → Decoder
drop_partial d = record d { fragment = []; access_unit = []; have_access_unit = false }

unfoldable pub accept_sequence : Decoder → ℕ → ℕ → Decoder
accept_sequence d sequence timestamp = record d {
  expected_sequence = (sequence + 1) % 65536;
  last_rtp_timestamp = timestamp;
  have_rtp_timestamp = true;
  have_sequence = true;
}

-- A packet from before the expected one: far enough back it starts a new stream.
unfoldable pub is_resync : Decoder → ℕ → ℕ → Bool
is_resync d sequence timestamp =
    let behind =
      if d.have_rtp_timestamp then timestamp_delta timestamp d.last_rtp_timestamp else pos 0 in
    ltb_ℤ (sequence_delta sequence d.expected_sequence) (negsuc 999) || ltb_ℤ behind (negsuc 89999)

-- The locked block: counts the packet, and says whether its payload is used.
unfoldable pub track_sequence : Decoder → ℕ → ℕ → Decoder × Bool
unfolding accept_sequence is_resync
track_sequence d sequence timestamp =
    let delta = sequence_delta sequence d.expected_sequence in
    let counted = record d { rtp_packets = suc d.rtp_packets } in
    let resynced = record (drop_partial counted) {
      rtp_sequence_resyncs = suc d.rtp_sequence_resyncs;
    } in
    let gap = record (drop_partial counted) { rtp_sequence_gaps = suc d.rtp_sequence_gaps } in
    let late = record counted { late_or_duplicate_packets = suc d.late_or_duplicate_packets } in
    if not d.have_sequence
    then (accept_sequence counted sequence timestamp, true)
    else if ltb_ℤ delta (pos 0)
    then if is_resync d sequence timestamp
      then (accept_sequence resynced sequence timestamp, true)
      else (late, false)
    else if ltb_ℤ (pos 0) delta
    then (accept_sequence gap sequence timestamp, true)
    else (accept_sequence counted sequence timestamp, true)

unfoldable pub append_payload : Platform → Decoder → RtpPacket → Decoder × Bool
append_payload p d packet =
    if d.mjpeg
    then append_mjpeg_payload d packet.payload packet.marker packet.timestamp
    else if d.h265
    then append_h265_payload p d packet.payload packet.marker packet.timestamp
    else append_h264_payload p d packet.payload packet.marker packet.timestamp

-- A late packet ends the call, which returns true.
abbrev pub if_used : Decoder × Bool → (Decoder → Decoder × Bool) → Decoder × Bool
if_used (d, true) k = k d
if_used (d, false) k = (d, true)

unfoldable pub handle_rtp_packet : Platform → Decoder → Bytes → Decoder × Bool
handle_rtp_packet p d bytes = elim (parse_rtp bytes) [
  | none ↦ (d, true)
  | some packet ↦
      if_used (track_sequence d packet.sequence packet.timestamp) (λ d'. append_payload p d' packet)
]

-- `feed_loop` over the datagrams that `recv` returns: it stops at the first that is not handled.
unfoldable pub feed_loop : Platform → Decoder → List Bytes → Decoder × Bool
feed_loop p d [] = (d, true)
feed_loop p d (bytes ∷ more) = and_then (handle_rtp_packet p d bytes) (λ d'. feed_loop p d' more)
