-- ===== src/Video/Cedar/Feed.antt =====
-- `handle_rtp_packet` and `poll` of src/video/cedar_rtp_decoder.cpp.
use openhd_glide.Base.{
  ℕ, suc, ◌+◌, Bool, true, false, List, [], ◌∷◌, ◌++◌, Option, none, some, get_or, Bytes, codes,
  if◌then◌else◌,
}
use openhd_glide.Video.Rtp.{RtpPacket, parse_rtp, payload_offset, payload_size}
use openhd_glide.Video.Cedar.{Cedar, Library}
use openhd_glide.Video.Cedar.Append.{append_h264_payload}
use openhd_glide.Video.Cedar.Pictures.{DmabufVideoFrame, Drained, drain_picture}

-- The byte behind the payload: padding, or what the buffer holds behind the packet.
unfoldable pub byte_behind : Bytes → ℕ → Option ℕ → ℕ
byte_behind packet stale none = stale
byte_behind packet stale (some offset) = get_or packet (offset + payload_size packet offset) stale

unfoldable pub handle_parsed :
    {S : Type 0} → Library S → Cedar S → ℕ → Option RtpPacket → Cedar S × Bool
handle_parsed lib d next none = (d, true)
handle_parsed lib d next (some packet) =
    append_h264_payload lib (record d { packets = suc d.packets }) packet.payload next packet.marker
      packet.sequence packet.timestamp

-- `stale` is the byte that the buffer holds behind the packet.
unfoldable pub handle_rtp_packet : {S : Type 0} → Library S → Cedar S → Bytes → ℕ → Cedar S × Bool
unfolding byte_behind handle_parsed
handle_rtp_packet lib d packet stale =
    handle_parsed lib d (byte_behind packet stale (payload_offset packet)) (parse_rtp packet)

-- What a call of `recv` returns: a datagram with the stale byte behind it, or an error.
pub data Received : Type 0 where
  datagram : Bytes → ℕ → Received
  failed : Bytes → Received

-- The decoder, the frame, what `poll` returns and what is left in the socket.
pub record Polled (S : Type 0) : Type 0 where
  pub decoder : Cedar S
  pub frame : DmabufVideoFrame
  pub result : Bool
  pub rest : List Received

abbrev polled : {S : Type 0} → List Received → Drained S → Polled S
polled rest (d, (frame, result)) = record {
  decoder = d;
  frame = frame;
  result = result;
  rest = rest;
}

-- Behind the loop: a frame from it, or a last attempt.
unfoldable pub finish_poll :
    {S : Type 0} → Library S → Cedar S → DmabufVideoFrame → Bool → List Received → Polled S
finish_poll lib d frame true rest = polled rest (d, (frame, true))
finish_poll lib d frame false rest = polled rest (drain_picture lib d frame)

-- A unit that was submitted may have made pictures.
unfoldable pub drain_if_submitted :
    {S : Type 0} → Library S → Cedar S → DmabufVideoFrame → Bool → Drained S
drain_if_submitted lib d frame false = (d, (frame, false))
drain_if_submitted lib d frame true =
    let (d', result) = drain_picture lib d frame in
    (record d' { access_unit_submitted_this_poll = false }, result)

-- The rounds until the socket is empty; an empty datagram ends them too.
unfoldable pub poll_loop :
    {S : Type 0} → Library S → Cedar S → DmabufVideoFrame → Bool → List Received → Polled S
poll_loop lib d frame got_frame [] = finish_poll lib d frame got_frame []
poll_loop lib d frame got_frame (failed reason ∷ more) =
    polled more
      (record d { last_error = codes "failed to receive RTP packet: " ++ reason }, (frame, false))
poll_loop lib d frame got_frame (datagram [] stale ∷ more) = finish_poll lib d frame got_frame more
poll_loop lib d frame got_frame (datagram (b ∷ bs) stale ∷ more) =
    let (handled, result) = handle_rtp_packet lib d (b ∷ bs) stale in
    let (drained, (shown, got)) =
      drain_if_submitted lib handled frame handled.access_unit_submitted_this_poll in
    let later = poll_loop lib drained shown (if got then true else got_frame) more in
    if result then later else polled more (handled, (frame, false))

unfoldable pub poll :
    {S : Type 0} → Library S → Cedar S → DmabufVideoFrame → List Received → Polled S
poll lib d frame received =
    poll_loop lib (record d { last_error = []; access_unit_submitted_this_poll = false }) frame
      false received
