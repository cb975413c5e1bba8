-- ===== src/Mavlink/State.antt =====
-- The snapshot of src/common/mavlink_state.hpp, and the lines that src/common/mavlink_state.cpp
-- makes of actions.
pub mod Reader
pub mod Keys
pub mod Telemetry
pub mod Lines
pub mod Percents
pub mod Osd
pub mod Keeping
pub mod Messages
use openhd_glide.Base.{
  ℕ, zero, suc, ◌+◌, Bool, true, false, List, [], ◌∷◌, ◌++◌, ltb, if◌then◌else◌, length, Bytes,
  codes,
}
use openhd_glide.Base.Int.{ℤ, pos, negsuc}

-- A `float` or a `double` is its bit pattern. `messages` has five places.
pub record Snapshot : Type 0 where
  pub air_alive : Bool
  pub ground_alive : Bool
  pub fc_alive : Bool
  pub armed : Bool
  pub attitude_valid : Bool
  pub altitude_valid : Bool
  pub speed_valid : Bool
  pub position_valid : Bool
  pub battery_valid : Bool
  pub link_stats_valid : Bool
  pub siyi_active : Bool
  pub frequency_mhz : ℤ
  pub channel_width_mhz : ℤ
  pub mcs_index : ℤ
  pub tx_power_mw : ℤ
  pub link_rssi_dbm : ℤ
  pub link_txc_temp_c : ℤ
  pub link_quality_percent : ℤ
  pub rc_quality_percent : ℤ
  pub link_snr_antenna1_db : ℤ
  pub link_snr_antenna2_db : ℤ
  pub scan_progress : ℤ
  pub rc_channels : List ℤ
  pub battery_percent : ℤ
  pub satellites : ℤ
  pub roll_degrees : ℕ
  pub pitch_degrees : ℕ
  pub yaw_degrees : ℕ
  pub altitude_m : ℕ
  pub ground_speed_mps : ℕ
  pub airspeed_mps : ℕ
  pub voltage_v : ℕ
  pub link_bitrate_mbit : ℕ
  pub latitude_deg : ℕ
  pub longitude_deg : ℕ
  pub flight_mode : Bytes
  pub resolution_fps : Bytes
  pub rotation : Bytes
  pub recording : Bytes
  pub recording_status : Bytes
  pub air_wifi_mode : Bytes
  pub ground_wifi_mode : Bytes
  pub air_hotspot : Bytes
  pub ground_hotspot : Bytes
  pub openhd_version : Bytes
  pub platform : Bytes
  pub ground_chipset : Bytes
  pub air_chipset : Bytes
  pub camera : Bytes
  pub messages : List Bytes
  pub message_count : ℕ

abbrev pub fresh_snapshot : Snapshot
fresh_snapshot = record {
  air_alive = false;
  ground_alive = false;
  fc_alive = false;
  armed = false;
  attitude_valid = false;
  altitude_valid = false;
  speed_valid = false;
  position_valid = false;
  battery_valid = false;
  link_stats_valid = false;
  siyi_active = false;
  frequency_mhz = pos 0;
  channel_width_mhz = pos 0;
  mcs_index = pos 0;
  tx_power_mw = pos 0;
  link_rssi_dbm = negsuc 127;
  link_txc_temp_c = negsuc 127;
  link_quality_percent = pos 0;
  rc_quality_percent = pos 0;
  link_snr_antenna1_db = negsuc 127;
  link_snr_antenna2_db = negsuc 127;
  scan_progress = pos 0;
  rc_channels = pos 0 ∷ pos 0 ∷ pos 0 ∷ pos 0 ∷ [];
  battery_percent = negsuc 0;
  satellites = pos 0;
  roll_degrees = 0;
  pitch_degrees = 0;
  yaw_degrees = 0;
  altitude_m = 0;
  ground_speed_mps = 0;
  airspeed_mps = 0;
  voltage_v = 0;
  link_bitrate_mbit = 0;
  latitude_deg = 0;
  longitude_deg = 0;
  flight_mode = codes "N/A";
  resolution_fps = codes "N/A";
  rotation = codes "N/A";
  recording = codes "N/A";
  recording_status = codes "N/A";
  air_wifi_mode = codes "N/A";
  ground_wifi_mode = codes "N/A";
  air_hotspot = codes "N/A";
  ground_hotspot = codes "N/A";
  openhd_version = codes "N/A";
  platform = codes "N/A";
  ground_chipset = codes "N/A";
  air_chipset = codes "N/A";
  camera = codes "N/A";
  messages = [] ∷ [] ∷ [] ∷ [] ∷ [] ∷ [];
  message_count = 0;
}

-- `messages[k] = message`, with `k` in the range of the array.
unfoldable pub put_at : ℕ → Bytes → List Bytes → List Bytes
put_at k message [] = []
put_at zero message (m ∷ ms) = message ∷ ms
put_at (suc k) message (m ∷ ms) = m ∷ put_at k message ms

-- Each message one place down, and the new one last.
unfoldable pub shift_in : Bytes → List Bytes → List Bytes
shift_in message [] = []
shift_in message (m ∷ ms) = ms ++ message ∷ []

unfoldable pub push_message : Snapshot → Bytes → Snapshot
push_message s [] = s
push_message s (c ∷ cs) =
    if ltb s.message_count (length s.messages)
    then record s {
      messages = put_at s.message_count (c ∷ cs) s.messages;
      message_count = suc s.message_count;
    }
    else record s { messages = shift_in (c ∷ cs) s.messages }

abbrev pub format_action_set_param : Bytes → Bytes → Bytes → Bytes
format_action_set_param target param value =
    codes "mav set " ++ (target ++ 32 ∷ (param ++ 32 ∷ value))

unfoldable pub format_action_command : Bytes → Bytes → Bytes
format_action_command command [] = codes "mav command " ++ command
format_action_command command (c ∷ cs) = codes "mav command " ++ (command ++ 32 ∷ (c ∷ cs))
