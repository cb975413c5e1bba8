-- ===== src/Mavlink/Packet/RoundTrip.antt =====
-- A packet that the bridge sends is a frame that the bridge reads.
use openhd_glide.Base.{
  take-length-append, drop-length-append, append_assoc, ℕ, ◌+◌, ◌*◌, ◌/◌, ◌%◌, ◌^◌, ◌≤◌, ◌<◌, ◌≡◌,
  refl, ◌∙◌, ◌∷◌, ◌++◌, arith, length, length-append, take, drop, Bytes,
}
use openhd_glide.Mavlink.Frame.{Frame, is_magic, frame_len, read_frame, parse_datagram}
use openhd_glide.Mavlink.Frame.Head.{IsWhole, header_len-le-frame_len}
use openhd_glide.Mavlink.Frame.Loop.{parse_datagram-frame}
use openhd_glide.Mavlink.Stream.{parse_stream}
use openhd_glide.Mavlink.Stream.Cases.{parse_stream-frame}
use openhd_glide.Mavlink.Bridge.{UdpBridge}
use openhd_glide.Mavlink.Packet.{packet, packet_body}

take_payload :
    (payload checksum rest : Bytes)
    → length payload ≤ 255
    → take (length payload % 256) ((payload ++ checksum) ++ rest) ≡ payload
take_payload payload checksum rest h =
    let fits : length payload % 256 ≡ length payload = omega arith in
    rw (fits, append_assoc payload checksum rest) (take-length-append payload (checksum ++ rest))

pub length-packet :
    (b : UdpBridge) (message_id crc_extra : ℕ) (payload : Bytes)
    → length (packet b message_id crc_extra payload) ≡ length payload + 12
unfolding packet packet_body
length-packet b message_id crc_extra payload = omega (arith, length-append {0} payload)

frame_len-packet :
    (b : UdpBridge) (message_id crc_extra : ℕ) (payload rest : Bytes)
    → length payload ≤ 255
    → frame_len (packet b message_id crc_extra payload ++ rest)
      ≡ length (packet b message_id crc_extra payload)
unfolding packet packet_body frame_len
frame_len-packet b message_id crc_extra payload rest h = omega (arith, length-append {0} payload)

read_frame-packet :
    (b : UdpBridge) (message_id crc_extra : ℕ) (payload rest : Bytes)
    → length payload ≤ 255
    → message_id < 2 ^ 24
    → read_frame (packet b message_id crc_extra payload ++ rest) ≡ record {
      sysid = b.options.system_id;
      compid = b.options.component_id;
      msgid = message_id;
      payload = payload;
    }
unfolding packet packet_body read_frame
read_frame-packet b message_id crc_extra payload rest h k =
    let id : message_id % 256 + message_id / 256 % 256 * 256 + message_id / 65536 % 256 * 65536
        ≡ message_id =
      omega arith in
    rw (id, take_payload payload _ rest h)

packet-IsWhole :
    (b : UdpBridge) (message_id crc_extra : ℕ) (payload rest : Bytes)
    → length payload ≤ 255
    → IsWhole (packet b message_id crc_extra payload ++ rest)
packet-IsWhole b message_id crc_extra payload rest h =
    let bytes = packet b message_id crc_extra payload in
    let n = frame_len-packet b message_id crc_extra payload rest h in
    let both = length-append bytes rest in
    record {
      has_header = omega (arith, n, both, header_len-le-frame_len (bytes ++ rest));
      has_frame = omega (arith, n, both);
    }

packet_head :
    (b : UdpBridge) (message_id crc_extra : ℕ) (payload rest : Bytes)
    → length payload ≤ 255
    → let bytes = packet b message_id crc_extra payload ++ rest in
      parse_datagram bytes ≡ read_frame bytes ∷ parse_datagram (drop (frame_len bytes) bytes)
unfolding packet packet_body
packet_head b message_id crc_extra payload rest h =
    parse_datagram-frame 0xfd _ (unfold is_magic in refl)
      (packet-IsWhole b message_id crc_extra payload rest h)

-- The frame that a receiver should see.
abbrev pub sent_frame : UdpBridge → ℕ → Bytes → Frame
sent_frame b message_id payload = record {
  sysid = b.options.system_id;
  compid = b.options.component_id;
  msgid = message_id;
  payload = payload;
}

-- What `send_packet` puts on the wire is read back by `parse_datagram` as one frame with the
-- sender's ids, the message id and the payload, and the bytes behind the packet are read next. The
-- payload has 255 bytes at most, and the message id fits its three bytes.
pub parse_datagram-packet :
    (b : UdpBridge) (message_id crc_extra : ℕ) (payload rest : Bytes)
    → length payload ≤ 255
    → message_id < 2 ^ 24
    → parse_datagram (packet b message_id crc_extra payload ++ rest)
      ≡ sent_frame b message_id payload ∷ parse_datagram rest
parse_datagram-packet b message_id crc_extra payload rest h k =
    let whole = packet b message_id crc_extra payload in
    let n = frame_len-packet b message_id crc_extra payload rest h in
    let later = drop-length-append whole rest in
    packet_head b message_id crc_extra payload rest h
    ∙ rw (n, read_frame-packet b message_id crc_extra payload rest h k, later)

stream_head :
    (b : UdpBridge) (message_id crc_extra : ℕ) (payload rest : Bytes)
    → length payload ≤ 255
    → let bytes = packet b message_id crc_extra payload ++ rest in
      let later = parse_stream (drop (frame_len bytes) bytes) in
      parse_stream bytes ≡ (read_frame bytes ∷ later.0, later.1)
unfolding packet packet_body
stream_head b message_id crc_extra payload rest h =
    parse_stream-frame 0xfd _ (unfold is_magic in refl)
      (packet-IsWhole b message_id crc_extra payload rest h)

pub parse_stream-packet :
    (b : UdpBridge) (message_id crc_extra : ℕ) (payload rest : Bytes)
    → length payload ≤ 255
    → message_id < 2 ^ 24
    → let later = parse_stream rest in
      parse_stream (packet b message_id crc_extra payload ++ rest)
      ≡ (sent_frame b message_id payload ∷ later.0, later.1)
parse_stream-packet b message_id crc_extra payload rest h k =
    let whole = packet b message_id crc_extra payload in
    let n = frame_len-packet b message_id crc_extra payload rest h in
    let later = drop-length-append whole rest in
    stream_head b message_id crc_extra payload rest h
    ∙ rw (n, read_frame-packet b message_id crc_extra payload rest h k, later)
