-- ===== src/Mavlink/State/Lines.antt =====
-- `apply_ipc_line` and `is_osd_telemetry_line` of src/common/mavlink_state.cpp.
use openhd_glide.Base.{
  Bool, true, false, not, ◌&&◌, List, [], ◌∷◌, ◌==◌, if◌then◌else◌, Bytes, codes, same_bytes,
}
use openhd_glide.Base.Int.{ℤ, pos, negsuc}
use openhd_glide.Mavlink.Protocol.{camera_type_to_string}
use openhd_glide.Mavlink.State.{Snapshot, push_message}
use openhd_glide.Mavlink.State.Reader.{
  Reader, open_reader, read_word, read_int, rest_after, parse_int_or, upper_copy,
}
use openhd_glide.Mavlink.State.Keys.{
  Key, alive_key, armed_key, attitude_key, position_key, speed_key, battery_key, gps_key, mode_key,
  link_key, openhd_key, scan_key, rc_key, param_key, status_key, message_key, unknown_key, key_of,
  Field, siyi_field, resolution_field, rotation_field, recording_field, wifi_mode_field,
  hotspot_field, frequency_field, channel_width_field, mcs_field, tx_power_field, version_field,
  air_chipset_field, ground_chipset_field, camera_field, unknown_field, field_of, Target, air_unit,
  ground_unit, fc_unit, other_unit, target_of, report_of, Status, version_status,
  ground_chipset_status, air_chipset_status, camera_status, recording_status', other_status,
  status_of,
}
use openhd_glide.Mavlink.State.Telemetry.{
  Floats, is_zero, clamp_percent, apply_alive, apply_attitude, apply_position, apply_speed,
  apply_battery, apply_link, apply_report,
}

unfoldable pub read_channels : List ℤ → Reader → List ℤ
read_channels [] r = []
read_channels (channel ∷ channels) r =
    let (value, r') = read_int channel r in value ∷ read_channels channels r'

abbrev is_one : ℤ → Bool
is_one (pos n) = n == 1
is_one (negsuc n) = false

-- A camera type, or the text itself.
abbrev camera_name : Bytes → ℤ → Bytes
camera_name value (pos n) = camera_type_to_string (pos n)
camera_name value (negsuc n) = value

unfoldable pub set_wifi_mode : Snapshot → Target → Bytes → Snapshot
set_wifi_mode s air_unit value = record s { air_wifi_mode = value }
set_wifi_mode s ground_unit value = record s { ground_wifi_mode = value }
set_wifi_mode s fc_unit value = s
set_wifi_mode s other_unit value = s

unfoldable pub set_hotspot : Snapshot → Target → Bytes → Snapshot
set_hotspot s air_unit value = record s { air_hotspot = value }
set_hotspot s ground_unit value = record s { ground_hotspot = value }
set_hotspot s fc_unit value = s
set_hotspot s other_unit value = s

unfoldable pub apply_field : Snapshot → Field → Target → Bytes → Snapshot
unfolding set_wifi_mode set_hotspot
apply_field s siyi_field target value = record s {
  siyi_active = is_one (parse_int_or (pos 0) value);
}
apply_field s resolution_field target value = record s { resolution_fps = value }
apply_field s rotation_field target value = record s { rotation = value }
apply_field s recording_field target value = record s { recording = value }
apply_field s wifi_mode_field target value = set_wifi_mode s target value
apply_field s hotspot_field target value = set_hotspot s target value
apply_field s frequency_field target value = record s {
  frequency_mhz = parse_int_or s.frequency_mhz value;
}
apply_field s channel_width_field target value = record s {
  channel_width_mhz = parse_int_or s.channel_width_mhz value;
}
apply_field s mcs_field target value = record s { mcs_index = parse_int_or s.mcs_index value }
apply_field s tx_power_field target value = record s {
  tx_power_mw = parse_int_or s.tx_power_mw value;
}
apply_field s version_field target value = record s { openhd_version = value }
apply_field s air_chipset_field target value = record s { air_chipset = value }
apply_field s ground_chipset_field target value = record s { ground_chipset = value }
apply_field s camera_field target value = record s {
  camera = camera_name value (parse_int_or (negsuc 0) value);
}
apply_field s unknown_field target value = s

unfoldable pub apply_param : Snapshot → Reader → Snapshot
apply_param s r =
    let (target, r') = read_word r in
    let (param, r'') = read_word r' in
    apply_field s (field_of (upper_copy param)) (target_of target) (rest_after r'')

unfoldable pub set_status : Snapshot → Status → Bytes → Snapshot
set_status s version_status value = record s { openhd_version = value }
set_status s ground_chipset_status value = record s { ground_chipset = value }
set_status s air_chipset_status value = record s { air_chipset = value }
set_status s camera_status value = record s { camera = value }
set_status s recording_status' value = record s { recording_status = value }
set_status s other_status value = s

unfoldable pub apply_key : Floats → Snapshot → Key → Reader → Snapshot × Bool
apply_key f s alive_key r = (apply_alive s r, true)
apply_key f s armed_key r = (record s { armed = not (is_zero (read_int (pos 0) r).0) }, true)
apply_key f s attitude_key r = (apply_attitude f s r, true)
apply_key f s position_key r = (apply_position f s r, true)
apply_key f s speed_key r = (apply_speed f s r, true)
apply_key f s battery_key r = (apply_battery f s r, true)
apply_key f s gps_key r = (record s { satellites = (read_int s.satellites r).0 }, true)
apply_key f s mode_key r = (record s { flight_mode = rest_after r }, true)
apply_key f s link_key r = (apply_link f s r, true)
apply_key f s openhd_key r =
    let (field, r') = read_word r in (apply_report f s (report_of field) r', true)
apply_key f s scan_key r =
    (record s { scan_progress = clamp_percent (read_int s.scan_progress r).0 }, true)
apply_key f s rc_key r = (record s { rc_channels = read_channels s.rc_channels r }, true)
apply_key f s param_key r = (apply_param s r, true)
apply_key f s status_key r =
    let (field, r') = read_word r in (set_status s (status_of field) (rest_after r'), true)
apply_key f s message_key r = (push_message s (rest_after r), true)
apply_key f s unknown_key r = (s, false)

unfoldable pub dispatch : Floats → Snapshot → Bool → Key → Reader → Snapshot × Bool
dispatch f s true key r = apply_key f s key r
dispatch f s false key r = (s, false)

unfoldable pub apply_ipc_line : Floats → Snapshot → Bytes → Snapshot × Bool
apply_ipc_line f s line =
    let (prefix, r) = read_word (open_reader line) in
    let (key, r') = read_word r in dispatch f s (same_bytes prefix (codes "mav")) (key_of key) r'

unfoldable pub is_live_target : Target → Bool
is_live_target air_unit = true
is_live_target ground_unit = false
is_live_target fc_unit = true
is_live_target other_unit = false

unfoldable pub is_alive_line : Reader → Bool
unfolding is_live_target
is_alive_line r =
    let (target, r') = read_word r in
    let (alive, r'') = read_int (pos 0) r' in
    not (is_zero alive) && is_live_target (target_of target)

unfoldable pub is_osd_key : Key → Reader → Bool
is_osd_key alive_key r = is_alive_line r
is_osd_key scan_key r = false
is_osd_key unknown_key r = false
is_osd_key armed_key r = true
is_osd_key attitude_key r = true
is_osd_key position_key r = true
is_osd_key speed_key r = true
is_osd_key battery_key r = true
is_osd_key gps_key r = true
is_osd_key mode_key r = true
is_osd_key link_key r = true
is_osd_key openhd_key r = true
is_osd_key rc_key r = true
is_osd_key param_key r = true
is_osd_key status_key r = true
is_osd_key message_key r = true

unfoldable pub is_osd_telemetry_line : Bytes → Bool
is_osd_telemetry_line line =
    let (prefix, r) = read_word (open_reader line) in
    let (key, r') = read_word r in
    if same_bytes prefix (codes "mav") then is_osd_key (key_of key) r' else false
