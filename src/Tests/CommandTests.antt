-- ===== src/Tests/CommandTests.antt =====
-- The action lines of src/common/mavlink_udp_bridge.cpp at concrete inputs.
use openhd_glide.Base.{◌≡◌, refl, true, [], ◌∷◌, map, length, some, none, Bytes, arith, codes}
use openhd_glide.Base.Int.{pos, negsuc}
use openhd_glide.Mavlink.Bridge.{UdpBridge, fresh_bridge, tcp}
use openhd_glide.Mavlink.Frame.{Frame, parse_datagram}
use openhd_glide.Mavlink.Heartbeat.{
  learn, learn_all, is_vehicle, is_fc_heartbeat, fc_lines, mode_from_heartbeat, to_string,
  digits_of,
}
use openhd_glide.Mavlink.Heartbeat.Targets.{learn_all-targets}
use openhd_glide.Mavlink.Packet.{Transmit, sent_all, cannot_send}
use openhd_glide.Mavlink.Packet.RoundTrip.{sent_frame}
use openhd_glide.Mavlink.Packet.Sequence.{
  Message, send_each, count_from, sequence_of, send_each-count_from,
}
use openhd_glide.Mavlink.Text.{
  parse_integer, skip_spaces, is_space, c_str, signed_digits, digits, c_string, read_le,
}
use openhd_glide.Mavlink.Text.Strings.{IsWord}
use openhd_glide.Mavlink.Command.{targets, handle_action_line, param_ext_set_payload}
use openhd_glide.Mavlink.Command.Actions.{IsUp, handle_action_line-format_action_set_param}

abbrev linked : UdpBridge
linked = record fresh_bridge { fd = some 4; transport = tcp; sequence = 255 }

abbrev takes_all : Transmit
takes_all b bytes = pos (length bytes)

same_length : (n : Bytes) → sent_all (takes_all linked n) n ≡ true
unfolding sent_all
same_length n = ground arith

linked-IsUp : IsUp takes_all linked
linked-IsUp = record {
  can_send = unfold cannot_send in refl;
  takes_all = λ b bytes. same_length bytes;
}

air-IsWord : IsWord (codes "air")
unfolding is_space
air-IsWord = record {
  has_letter = omega arith;
  no_space = (refl, (refl, (refl, tt)));
  no_nul = omega arith;
}

name-IsWord : IsWord (codes "RATE")
unfolding is_space
name-IsWord = record {
  has_letter = omega arith;
  no_space = (refl, (refl, (refl, (refl, tt))));
  no_nul = omega arith;
}

integer_run : parse_integer (codes " -12") ≡ some (negsuc 11)
unfolding parse_integer skip_spaces is_space c_str signed_digits digits
integer_run = refl

handle_action_line-format_action_set_param_example :
    ((handle_action_line (λ value. none) takes_all linked (codes "mav set air RATE 8")).ok ≡ true)
    × (map parse_datagram
          (handle_action_line (λ value. none) takes_all linked (codes "mav set air RATE 8")).packets
        ≡ (sent_frame linked 323
              (param_ext_set_payload linked (codes "air") (codes "RATE") (codes "8"))
            ∷ [])
          ∷ [])
    × (length (param_ext_set_payload linked (codes "air") (codes "RATE") (codes "8")) ≡ 147)
    × (c_string (param_ext_set_payload linked (codes "air") (codes "RATE") (codes "8")) 2 16
        ≡ codes "RATE")
handle_action_line-format_action_set_param_example =
    handle_action_line-format_action_set_param (λ value. none) takes_all linked (codes "air")
      (codes "RATE") (codes "8") linked-IsUp air-IsWord name-IsWord (omega arith) (omega arith)

abbrev ping : Message
ping = record { id = 0; crc_extra = 50; payload = 1 ∷ [] }

send_each-count_from_example :
    map sequence_of (send_each takes_all linked (ping ∷ ping ∷ []))
    ≡ count_from 255 (send_each takes_all linked (ping ∷ ping ∷ []))
send_each-count_from_example =
    send_each-count_from takes_all (ping ∷ ping ∷ []) linked (omega arith)

-- A copter of system 7, and the air unit.
abbrev copter : Frame
copter = record {
  sysid = 7;
  compid = 1;
  msgid = 0;
  payload = 5 ∷ 0 ∷ 0 ∷ 0 ∷ 2 ∷ 3 ∷ 129 ∷ 4 ∷ 3 ∷ [];
}

abbrev air_unit : Frame
air_unit = record {
  sysid = 101;
  compid = 191;
  msgid = 0;
  payload = 0 ∷ 0 ∷ 0 ∷ 0 ∷ 18 ∷ 8 ∷ 0 ∷ [];
}

copter_run : (learn fresh_bridge copter).1 ≡ codes "mav armed 1" ∷ codes "mav mode Mode 5" ∷ []
unfolding learn is_vehicle read_le fc_lines mode_from_heartbeat to_string digits_of
copter_run = refl

learn_all-targets_example :
    targets (learn_all fresh_bridge (air_unit ∷ copter ∷ air_unit ∷ [])).0 (codes "fc") ≡ 7 ∷ 1 ∷ []
learn_all-targets_example =
    learn_all-targets (air_unit ∷ []) copter (air_unit ∷ []) fresh_bridge
      (unfold is_fc_heartbeat is_vehicle read_le in refl)
      (unfold is_fc_heartbeat is_vehicle read_le in (refl, tt))
