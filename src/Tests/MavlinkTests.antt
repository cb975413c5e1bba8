-- ===== src/Tests/MavlinkTests.antt =====
-- src/common/mavlink_udp_bridge.cpp at concrete inputs.
use openhd_glide.Base.{◌≡◌, refl, [], ◌∷◌, ◌++◌, flatten, take, drop, Bytes, arith}
use openhd_glide.Mavlink.Bridge.{fresh_bridge}
use openhd_glide.Mavlink.Frame.{parse_datagram, datagram_loop, is_magic, frame_len, read_frame}
use openhd_glide.Mavlink.Packet.{packet, packet_body, packet_crc, crc_accumulate, crc_over}
use openhd_glide.Mavlink.Packet.Delivery.{Sending, on_wire, as_frame, receive-sendings}
use openhd_glide.Mavlink.Stream.{parse_stream, receive}
use openhd_glide.Mavlink.Stream.Chunks.{receive-parse_stream}
use openhd_glide.Mavlink.Stream.Pending.{IsPending, receive-IsPending}

-- PARAM_SET of the bridge to the air unit, cut to three bytes, and a COMMAND_LONG of one.
abbrev first_sending : Sending
first_sending = record {
  bridge = fresh_bridge;
  message_id = 23;
  crc_extra = 168;
  payload = 1 ∷ 2 ∷ 3 ∷ [];
}

abbrev second_sending : Sending
second_sending = record {
  bridge = record fresh_bridge { sequence = 1 };
  message_id = 76;
  crc_extra = 152;
  payload = 9 ∷ [];
}

abbrev wire : Bytes
wire = on_wire first_sending ++ on_wire second_sending

two_frames : parse_datagram (0 ∷ 7 ∷ wire) ≡ as_frame first_sending ∷ as_frame second_sending ∷ []
unfolding parse_datagram datagram_loop is_magic frame_len read_frame packet packet_body packet_crc
    crc_over crc_accumulate
two_frames = refl

-- The checksum of the ASCII digits 1 to 9 that the CRC catalogue gives for MCRF4XX.
crc_check :
    crc_over (0x31 ∷ 0x32 ∷ 0x33 ∷ 0x34 ∷ 0x35 ∷ 0x36 ∷ 0x37 ∷ 0x38 ∷ 0x39 ∷ []) 0xffff ≡ 0x6f91
unfolding crc_over crc_accumulate
crc_check = refl

receive-sendings_example :
    receive [] (take 5 wire ∷ drop 5 wire ∷ [])
    ≡ (as_frame first_sending ∷ as_frame second_sending ∷ [], [])
receive-sendings_example =
    receive-sendings (first_sending ∷ second_sending ∷ []) (take 5 wire ∷ drop 5 wire ∷ [])
      (omega arith) (unfold packet packet_body in refl)

receive-parse_stream_example :
    receive [] (take 5 wire ∷ drop 5 wire ∷ [])
    ≡ parse_stream (flatten (take 5 wire ∷ drop 5 wire ∷ []))
receive-parse_stream_example = receive-parse_stream (take 5 wire ∷ drop 5 wire ∷ [])

receive-IsPending_example :
    IsPending
      (flatten ((0xfd ∷ 3 ∷ []) ∷ (0 ∷ 0 ∷ []) ∷ []))
      (receive [] ((0xfd ∷ 3 ∷ []) ∷ (0 ∷ 0 ∷ []) ∷ [])).1
receive-IsPending_example = receive-IsPending ((0xfd ∷ 3 ∷ []) ∷ (0 ∷ 0 ∷ []) ∷ []) (omega arith)
