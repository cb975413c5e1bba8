-- ===== src/Mavlink/Command.antt =====
-- `handle_action_line` of src/common/mavlink_udp_bridge.cpp and the messages that it sends. A float is
-- its bit pattern.
pub mod Actions
use openhd_glide.Base.{
  ℕ, zero, suc, ◌+◌, ◌-◌, ◌^◌, Bool, true, false, not, ◌&&◌, ◌||◌, List, [], ◌∷◌, ◌++◌, Option,
  none, some, ltb, leb, ◌==◌, if◌then◌else◌, length, replicate, flatten, map, Bytes, codes,
  same_bytes,
}
use openhd_glide.Base.Int.{ℤ, pos, negsuc}
use openhd_glide.Mavlink.Bridge.{UdpBridge}
use openhd_glide.Mavlink.Text.{extract, get_line, erase_space, parse_integer}
use openhd_glide.Mavlink.Packet.{Transmit, put_le, put_fixed_string, send_packet}

abbrev system_id_ground : ℕ
system_id_ground = 100

abbrev system_id_air : ℕ
system_id_air = 101

abbrev component_id_link : ℕ
component_id_link = 191

unfoldable pub target_system_for : Bytes → ℕ → ℕ → ℕ → ℕ
target_system_for target air ground fc =
    if same_bytes target (codes "ground")
    then system_id_ground
    else if same_bytes target (codes "fc")
    then fc
    else if same_bytes target (codes "air")
        || same_bytes target (codes "camera1")
        || same_bytes target (codes "camera2")
    then system_id_air
    else if not (air == 0)
    then air
    else if not (ground == 0)
    then ground
    else system_id_air

unfoldable pub target_component_for : Bytes → ℕ → ℕ → ℕ → ℕ
target_component_for target air ground fc =
    if same_bytes target (codes "camera1")
    then 100
    else if same_bytes target (codes "camera2")
    then 101
    else if same_bytes target (codes "ground")
    then component_id_link
    else if same_bytes target (codes "fc")
    then fc
    else if same_bytes target (codes "air")
    then component_id_link
    else if not (air == 0)
    then air
    else if not (ground == 0)
    then ground
    else component_id_link

-- The bridge after a call, the packets that it handed to the socket, and its result.
pub record Sent : Type 0 where
  pub bridge : UdpBridge
  pub packets : List Bytes
  pub ok : Bool

abbrev nothing_sent : UdpBridge → Sent
nothing_sent b = record { bridge = b; packets = []; ok = false }

abbrev pub packets_of : Option Bytes → List Bytes
packets_of none = []
packets_of (some bytes) = bytes ∷ []

abbrev pub send : Transmit → UdpBridge → ℕ → ℕ → Bytes → Sent
send transmit b message_id crc_extra payload =
    let (b', handed, ok) = send_packet transmit b message_id crc_extra payload in
    record { bridge = b'; packets = packets_of handed; ok = ok }

-- `first || second`.
abbrev pub or_else : Sent → (UdpBridge → Sent) → Sent
or_else first second =
    let next = second first.bridge in
    if first.ok then first else record next { packets = first.packets ++ next.packets }

abbrev pub targets : UdpBridge → Bytes → Bytes
targets b target =
    target_system_for target b.air_system_id b.ground_system_id b.flight_controller_system_id
    ∷ target_component_for target b.air_component_id b.ground_component_id
        b.flight_controller_component_id
    ∷ []

-- `std::strtof` over the whole of the text: the bit pattern, or none if some of it is left.
abbrev pub ParseFloat : Type 0
ParseFloat = Bytes → Option ℕ

unfoldable pub param_set_payload : UdpBridge → Bytes → Bytes → ℕ → Bytes
param_set_payload b target name numeric =
    put_le 4 numeric ++ (targets b target ++ (put_fixed_string name 16 ++ 9 ∷ []))

unfoldable pub send_param_set : ParseFloat → Transmit → UdpBridge → Bytes → Bytes → Bytes → Sent
send_param_set parse_float transmit b target name value = elim (parse_float value) [
  | none ↦ nothing_sent b
  | some numeric ↦ send transmit b 23 168 (param_set_payload b target name numeric)
]

-- The pattern of a number that fits in `std::int32_t`.
unfoldable pub int32_pattern : ℤ → Option ℕ
int32_pattern (pos n) = if ltb n (2 ^ 31) then some n else none
int32_pattern (negsuc n) = if ltb n (2 ^ 31) then some (2 ^ 32 - suc n) else none

-- The 128 bytes of the value, and its type.
unfoldable pub ext_value : Bytes → Option ℕ → Bytes
ext_value value (some pattern) = put_le 4 pattern ++ (replicate 124 0 ++ 6 ∷ [])
ext_value value none = put_fixed_string value 128 ++ 11 ∷ []

abbrev pub integer_pattern : Bytes → Option ℕ
integer_pattern value = elim (parse_integer value) [ none ↦ none | some i ↦ int32_pattern i ]

unfoldable pub param_ext_set_payload : UdpBridge → Bytes → Bytes → Bytes → Bytes
param_ext_set_payload b target name value =
    targets b target ++ (put_fixed_string name 16 ++ ext_value value (integer_pattern value))

unfoldable pub send_param_ext_set : Transmit → UdpBridge → Bytes → Bytes → Bytes → Sent
send_param_ext_set transmit b target name value =
    send transmit b 323 78 (param_ext_set_payload b target name value)

-- The command, its seven parameters, and the component it is for if not the air unit's own.
pub record Command : Type 0 where
  pub command_id : ℕ
  pub params : List ℕ
  pub component : Option ℕ

abbrev nan : ℕ
nan = 0x7fc00000

abbrev one : ℕ
one = 0x3f800000

abbrev minus_one : ℕ
minus_one = 0xbf800000

abbrev degrees_45 : ℕ
degrees_45 = 0x42340000

abbrev minus_45 : ℕ
minus_45 = 0xc2340000

abbrev camera : ℕ → ℕ → ℕ → ℕ → ℕ → ℕ → Option Command
camera id p0 p1 p2 p3 p4 =
    some (record {
      command_id = id;
      params = p0 ∷ p1 ∷ p2 ∷ p3 ∷ p4 ∷ 0 ∷ 0 ∷ [];
      component = some 100;
    })

-- The chain of tests on the name of a command.
unfoldable pub command_named : Bytes → Option Command
command_named command =
    let is : Bytes → Bool = same_bytes command in
    if is (codes "scan")
    then some (record { command_id = 31000; params = replicate 7 0; component = none })
    else if is (codes "siyi-gimbal-stop")
    then camera 1000 nan nan 0 0 0
    else if is (codes "siyi-gimbal-up")
    then camera 1000 nan nan degrees_45 0 0
    else if is (codes "siyi-gimbal-down")
    then camera 1000 nan nan minus_45 0 0
    else if is (codes "siyi-gimbal-left")
    then camera 1000 nan nan 0 minus_45 0
    else if is (codes "siyi-gimbal-right")
    then camera 1000 nan nan 0 degrees_45 0
    else if is (codes "siyi-gimbal-center")
    then camera 1000 nan nan 0 0 0x40000000
    else if is (codes "siyi-zoom-in")
    then camera 531 one one 0 0 0
    else if is (codes "siyi-zoom-out")
    then camera 531 one minus_one 0 0 0
    else if is (codes "siyi-zoom-stop")
    then camera 531 one 0 0 0 0
    else if is (codes "siyi-focus-near")
    then camera 532 one minus_one 0 0 0
    else if is (codes "siyi-focus-far")
    then camera 532 one one 0 0 0
    else if is (codes "siyi-focus-stop")
    then camera 532 one 0 0 0 0
    else if is (codes "siyi-autofocus")
    then camera 532 0x40a00000 0 0 0 0
    else if is (codes "siyi-photo")
    then camera 2000 0 0 one 0 0
    else if is (codes "siyi-record-start")
    then camera 2500 0 0 0 0 0
    else if is (codes "siyi-record-stop")
    then camera 2501 0 0 0 0 0
    else none

unfoldable pub command_payload : UdpBridge → Command → Bytes
command_payload b c =
    let component : ℕ = elim c.component [ none ↦ b.air_component_id | some k ↦ k ] in
    flatten (map (put_le 4) c.params)
    ++ (put_le 2 c.command_id ++ (b.air_system_id ∷ component ∷ 0 ∷ []))

unfoldable pub send_command_long : Transmit → UdpBridge → Bytes → Sent
send_command_long transmit b command = elim (command_named command) [
  | none ↦ nothing_sent b
  | some c ↦ send transmit b 76 152 (command_payload b c)
]

-- `mav set <target> <name> <value>`, from behind the word `set`.
unfoldable pub handle_set : ParseFloat → Transmit → UdpBridge → Bytes → Sent
handle_set parse_float transmit b stream =
    let (target, behind_target) = extract stream in
    let (name, behind_name) = extract behind_target in
    let value = erase_space (get_line behind_name) in
    or_else (send_param_ext_set transmit b target name value)
      (λ b'. send_param_set parse_float transmit b' target name value)

unfoldable pub handle_action_line : ParseFloat → Transmit → UdpBridge → Bytes → Sent
handle_action_line parse_float transmit b line =
    let (prefix, behind_prefix) = extract line in
    let (action, stream) = extract behind_prefix in
    if not (same_bytes prefix (codes "mav"))
    then nothing_sent b
    else if same_bytes action (codes "set")
    then handle_set parse_float transmit b stream
    else if same_bytes action (codes "command")
    then send_command_long transmit b (extract stream).0
    else nothing_sent b
