-- ===== src/Mavlink/Heartbeat.antt =====
-- The heartbeats in `UdpBridge::poll` of src/common/mavlink_udp_bridge.cpp: the ids that the bridge
-- learns, and the lines that it reports.
pub mod Targets
use openhd_glide.Base.{
  ℕ, zero, suc, ◌+◌, ◌*◌, ◌/◌, ◌%◌, Bool, true, false, not, ◌&&◌, ◌||◌, List, [], ◌∷◌, ◌++◌, ltb,
  ◌==◌, if◌then◌else◌, Bytes, codes,
}
use openhd_glide.Mavlink.Frame.{Frame}
use openhd_glide.Mavlink.Bridge.{UdpBridge}
use openhd_glide.Mavlink.Text.{read_le}

-- The decimal digits of `n`, in front of `acc`; each round takes a digit off.
unfoldable pub digits_of : ℕ → ℕ → Bytes → Bytes
digits_of zero n acc = acc
digits_of (suc fuel) n acc =
    let acc' : Bytes = (b'0' + n % 10) ∷ acc in
    let more = digits_of fuel (n / 10) acc' in if ltb n 10 then acc' else more

-- `std::to_string` of an unsigned integer of 64 bits at most: twenty digits.
unfoldable pub to_string : ℕ → Bytes
to_string n = digits_of 20 n []

unfoldable pub mode_from_heartbeat : ℕ → ℕ → Bytes
mode_from_heartbeat base_mode custom_mode =
    if base_mode / 128 % 2 == 0
    then codes "Disarmed"
    else if not (custom_mode == 0)
    then codes "Mode " ++ to_string custom_mode
    else codes "Armed"

-- A vehicle, or a component that says which autopilot it runs.
unfoldable pub is_vehicle : ℕ → ℕ → Bool
is_vehicle type autopilot =
    not (autopilot == 8) || type == 1 || type == 2 || type == 13 || type == 14 || type == 15

-- A heartbeat of the flight controller, neither the ground's nor the air unit's.
unfoldable pub is_fc_heartbeat : Frame → Bool
unfolding is_vehicle
is_fc_heartbeat frame =
    frame.msgid == 0
    && not (frame.sysid == 100)
    && not (frame.sysid == 101)
    && is_vehicle (read_le 1 frame.payload 4) (read_le 1 frame.payload 5)

unfoldable pub fc_lines : Frame → List Bytes
fc_lines frame =
    let base_mode = read_le 1 frame.payload 6 in
    (codes "mav armed " ++ (if base_mode / 128 % 2 == 1 then codes "1" else codes "0"))
    ∷ (codes "mav mode " ++ mode_from_heartbeat base_mode (read_le 4 frame.payload 0))
    ∷ []

-- The block for one frame, before it is decoded.
unfoldable pub learn : UdpBridge → Frame → UdpBridge × List Bytes
unfolding is_fc_heartbeat
learn b frame =
    if not (frame.msgid == 0)
    then (b, [])
    else if frame.sysid == 100
    then (record b { ground_system_id = frame.sysid; ground_component_id = frame.compid }, [])
    else if frame.sysid == 101
    then (record b { air_system_id = frame.sysid; air_component_id = frame.compid }, [])
    else if is_vehicle (read_le 1 frame.payload 4) (read_le 1 frame.payload 5)
    then (
      record b {
        flight_controller_system_id = frame.sysid;
        flight_controller_component_id = frame.compid;
      },
      fc_lines frame,
    )
    else (b, [])

unfoldable pub learn_all : UdpBridge → List Frame → UdpBridge × List Bytes
learn_all b [] = (b, [])
learn_all b (frame ∷ frames) =
    let (b', lines) = learn b frame in
    let (last, later) = learn_all b' frames in (last, lines ++ later)
