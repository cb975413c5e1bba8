-- ===== src/Mavlink/Packet/Delivery.antt =====
-- A sequence of packets over a TCP connection.
use openhd_glide.Base.{
  ℕ, ◌≤◌, ◌<◌, ◌^◌, ◌≡◌, refl, ap, ◌∙◌, List, [], ◌∷◌, ◌++◌, length, flatten, map, Bytes, All,
  false,
}
use openhd_glide.Mavlink.Frame.{Frame, is_magic, parse_datagram}
use openhd_glide.Mavlink.Frame.Loop.{parse_datagram-skip}
use openhd_glide.Mavlink.Stream.{parse_stream, receive, stream_loop}
use openhd_glide.Mavlink.Stream.Chunks.{receive-parse_stream}
use openhd_glide.Mavlink.Bridge.{UdpBridge}
use openhd_glide.Mavlink.Packet.{packet}
use openhd_glide.Mavlink.Packet.RoundTrip.{sent_frame, parse_datagram-packet, parse_stream-packet}

-- One call of `send_packet`: the bridge as it is then, and the arguments.
pub record Sending : Type 0 where
  pub bridge : UdpBridge
  pub message_id : ℕ
  pub crc_extra : ℕ
  pub payload : Bytes

abbrev pub on_wire : Sending → Bytes
on_wire s = packet s.bridge s.message_id s.crc_extra s.payload

abbrev pub as_frame : Sending → Frame
as_frame s = sent_frame s.bridge s.message_id s.payload

-- The payload passes the test of `send_packet`, and the message id fits its three bytes.
pub record IsSendable (s : Sending) : Type 0 where
  pub payload_fits : length s.payload ≤ 255
  pub id_fits : s.message_id < 2 ^ 24

parse_stream-sendings :
    (sendings : List Sending)
    → All IsSendable sendings
    → parse_stream (flatten (map on_wire sendings)) ≡ (map as_frame sendings, [])
parse_stream-sendings [] h = unfold parse_stream stream_loop in refl
parse_stream-sendings (s ∷ ss) h =
    parse_stream-packet s.bridge s.message_id s.crc_extra s.payload (flatten (map on_wire ss))
      h.0.payload_fits h.0.id_fits
    ∙ rw (parse_stream-sendings ss h.1)

-- Packets sent over a connection arrive as their frames, in order and each once, with nothing left
-- over, however the network cuts the bytes into reads. Each payload has 255 bytes at most, and each
-- message id fits its three bytes.
pub receive-sendings :
    (sendings : List Sending) (chunks : List Bytes)
    → All IsSendable sendings
    → flatten chunks ≡ flatten (map on_wire sendings)
    → receive [] chunks ≡ (map as_frame sendings, [])
receive-sendings sendings chunks h e =
    receive-parse_stream chunks ∙ ap parse_stream e ∙ parse_stream-sendings sendings h

-- A datagram of noise with no magic byte, then a packet, then more: the packet is found, and the
-- rest is read from behind it. The payload has 255 bytes at most, and the id fits three.
pub parse_datagram-noise :
    (noise : Bytes) (s : Sending) (rest : Bytes)
    → All (λ b. is_magic b ≡ false) noise
    → IsSendable s
    → parse_datagram (noise ++ (on_wire s ++ rest)) ≡ as_frame s ∷ parse_datagram rest
parse_datagram-noise [] s rest h k =
    parse_datagram-packet s.bridge s.message_id s.crc_extra s.payload rest k.payload_fits k.id_fits
parse_datagram-noise (b ∷ noise) s rest h k =
    parse_datagram-skip b _ h.0 ∙ parse_datagram-noise noise s rest h.1 k
