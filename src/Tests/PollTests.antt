-- ===== src/Tests/PollTests.antt =====
-- `decode_frame` and `UdpBridge::poll` of src/common/mavlink_udp_bridge.cpp at concrete inputs.
use openhd_glide.Base.{◌≡◌, refl, List, [], ◌∷◌, map, flatten, some, true, Bytes, codes, arith}
use openhd_glide.Mavlink.Frame.{Frame}
use openhd_glide.Mavlink.Stream.{parse_stream}
use openhd_glide.Mavlink.Bridge.{UdpBridge, PeerStorage, tcp, fresh_bridge}
use openhd_glide.Mavlink.Decode.{Printing, decode_rc, decode_frame}
use openhd_glide.Mavlink.Decode.Applied.{channels, decode_frame-apply_ipc_line}
use openhd_glide.Mavlink.Poll.{packet, poll}
use openhd_glide.Mavlink.Poll.Cuts.{handled, poll-stream}
use openhd_glide.Mavlink.State.{fresh_snapshot}
use openhd_glide.Mavlink.State.Telemetry.{Floats}
use openhd_glide.Mavlink.State.Lines.{apply_ipc_line}

-- Numbers with a point are neither printed nor read here.
abbrev plain : Printing
plain = record {
  show_float = λ bits. codes "0.00";
  show_double = λ bits. codes "0.00";
  show_degrees = λ bits. codes "0.00";
  show_thousandth = λ value. codes "0.00";
  show_coordinate = λ value. codes "0.0000000";
}

abbrev whole_numbers : Floats
whole_numbers = record {
  scan_float = λ text. record { value = 0; behind = text; fails = true };
  scan_double = λ text. record { value = 0; behind = text; fails = true };
}

-- RC_CHANNELS with 1500, 1100, 1900 and 1501.
abbrev rc_frame : Frame
rc_frame = record {
  sysid = 1;
  compid = 1;
  msgid = 65;
  payload = 0 ∷ 0 ∷ 0 ∷ 0 ∷ 220 ∷ 5 ∷ 76 ∷ 4 ∷ 108 ∷ 7 ∷ 221 ∷ 5 ∷ [];
}

decode_frame-apply_ipc_line_example :
    (decode_frame plain rc_frame ≡ some (decode_rc rc_frame.payload))
    × (apply_ipc_line whole_numbers fresh_snapshot (decode_rc rc_frame.payload)
        ≡ (record fresh_snapshot { rc_channels = channels rc_frame.payload }, true))
decode_frame-apply_ipc_line_example =
    decode_frame-apply_ipc_line plain whole_numbers fresh_snapshot rc_frame refl (ground arith) refl

abbrev online : UdpBridge
online = record fresh_bridge { fd = some 5; transport = tcp }

abbrev nowhere : PeerStorage
nowhere = record { address = []; length = 0; valid = true }

-- A heartbeat of an autopilot in two reads, and the start of another.
abbrev reads : List Bytes
reads =
    (0xfe ∷ 9 ∷ 0 ∷ 1 ∷ 1 ∷ 0 ∷ 4 ∷ 0 ∷ [])
    ∷ (0 ∷ 0 ∷ 2 ∷ 3 ∷ 128 ∷ 4 ∷ 3 ∷ 17 ∷ 18 ∷ 0xfe ∷ [])
    ∷ []

poll-stream_example :
    poll plain online (map (λ chunk. packet chunk nowhere) reads)
    ≡ handled plain online (parse_stream (flatten reads))
poll-stream_example =
    poll-stream plain online 5 reads nowhere refl refl refl (omega arith, (omega arith, tt))
