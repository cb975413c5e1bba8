-- ===== src/Mavlink/State/Keeping.antt =====
-- Which lines touch the messages of the snapshot.
use openhd_glide.Base.{◌≡◌, refl, Bool, not, [], Option, Bytes, arith}
use openhd_glide.Base.Int.{pos}
use openhd_glide.Mavlink.Protocol.{platform_ids, find_name}
use openhd_glide.Mavlink.State.{Snapshot, push_message}
use openhd_glide.Mavlink.State.Reader.{Reader, read_word, read_int, rest_after, upper_copy}
use openhd_glide.Mavlink.State.Keys.{
  Key, alive_key, armed_key, attitude_key, position_key, speed_key, battery_key, gps_key, mode_key,
  link_key, openhd_key, scan_key, rc_key, param_key, status_key, message_key, unknown_key, Field,
  field_of, Target, target_of, Report, wifi_card, wifi_link, core, other_report, report_of, Status,
  status_of,
}
use openhd_glide.Mavlink.State.Telemetry.{
  Floats, is_zero, set_alive, apply_alive, apply_attitude, apply_position, apply_speed,
  apply_battery, apply_link_quality, apply_link, apply_wifi_card, apply_wifi_link, set_platform,
  apply_core, apply_report,
}
use openhd_glide.Mavlink.State.Lines.{
  set_wifi_mode, set_hotspot, apply_field, apply_param, set_status, apply_key,
}

-- The message that a line brings, if any.
unfoldable pub message_of : Key → Reader → Bytes
message_of alive_key r = []
message_of armed_key r = []
message_of attitude_key r = []
message_of position_key r = []
message_of speed_key r = []
message_of battery_key r = []
message_of gps_key r = []
message_of mode_key r = []
message_of link_key r = []
message_of openhd_key r = []
message_of scan_key r = []
message_of rc_key r = []
message_of param_key r = []
message_of status_key r = []
message_of message_key r = rest_after r
message_of unknown_key r = []

-- The two fields that hold the messages.
abbrev pub Keeps : Snapshot → Snapshot → Type 0
Keeps s s' = (s'.messages ≡ s.messages) × (s'.message_count ≡ s.message_count)

set_alive-Keeps : (s : Snapshot) (t : Target) (alive : Bool) → Keeps s (set_alive s t alive)
unfolding set_alive
set_alive-Keeps s t alive = ground arith

apply_link_quality-Keeps :
    (f : Floats) (s : Snapshot) (r : Reader) → Keeps s (apply_link_quality f s r)
unfolding apply_link_quality
apply_link_quality-Keeps f s r = ground arith

apply_link-Keeps : (f : Floats) (s : Snapshot) (r : Reader) → Keeps s (apply_link f s r)
unfolding apply_link
apply_link-Keeps f s r =
    let (frequency, r1) = read_int s.frequency_mhz r in
    let (width, r2) = read_int s.channel_width_mhz r1 in
    let (mcs, r3) = read_int s.mcs_index r2 in
    let (power, r4) = read_int s.tx_power_mw r3 in
    apply_link_quality-Keeps f
      (record s {
        frequency_mhz = frequency;
        channel_width_mhz = width;
        mcs_index = mcs;
        tx_power_mw = power;
      })
      r4

apply_wifi_card-Keeps : (s : Snapshot) (r : Reader) → Keeps s (apply_wifi_card s r)
unfolding apply_wifi_card
apply_wifi_card-Keeps s r = ground arith

set_platform-Keeps : (s : Snapshot) (o : Option Bytes) → Keeps s (set_platform s o)
set_platform-Keeps s o = ground arith

apply_report-Keeps :
    (f : Floats) (s : Snapshot) (k : Report) (r : Reader) → Keeps s (apply_report f s k r)
unfolding apply_report apply_wifi_link apply_core
apply_report-Keeps f s wifi_card r = apply_wifi_card-Keeps s r
apply_report-Keeps f s wifi_link r = (refl, refl)
apply_report-Keeps f s core r =
    set_platform-Keeps (record s { link_txc_temp_c = (read_int s.link_txc_temp_c r).0 })
      (find_name platform_ids (read_int (pos 0) (read_int s.link_txc_temp_c r).1).0)
apply_report-Keeps f s other_report r = (refl, refl)

apply_field-Keeps :
    (s : Snapshot) (field : Field) (t : Target) (value : Bytes)
    → Keeps s (apply_field s field t value)
unfolding apply_field set_wifi_mode set_hotspot
apply_field-Keeps s field t value = ground arith

set_status-Keeps : (s : Snapshot) (k : Status) (value : Bytes) → Keeps s (set_status s k value)
unfolding set_status
set_status-Keeps s k value = ground arith

pub apply_key-push_message :
    (f : Floats) (s : Snapshot) (k : Key) (r : Reader)
    → Keeps (push_message s (message_of k r)) (apply_key f s k r).0
unfolding apply_key push_message message_of apply_alive apply_attitude apply_position apply_speed
    apply_battery apply_param
apply_key-push_message f s alive_key r =
    set_alive-Keeps s (target_of (read_word r).0)
      (not (is_zero (read_int (pos 0) (read_word r).1).0))
apply_key-push_message f s armed_key r = (refl, refl)
apply_key-push_message f s attitude_key r = (refl, refl)
apply_key-push_message f s position_key r = (refl, refl)
apply_key-push_message f s speed_key r = (refl, refl)
apply_key-push_message f s battery_key r = (refl, refl)
apply_key-push_message f s gps_key r = (refl, refl)
apply_key-push_message f s mode_key r = (refl, refl)
apply_key-push_message f s link_key r = apply_link-Keeps f s r
apply_key-push_message f s openhd_key r =
    apply_report-Keeps f s (report_of (read_word r).0) (read_word r).1
apply_key-push_message f s scan_key r = (refl, refl)
apply_key-push_message f s rc_key r = (refl, refl)
apply_key-push_message f s param_key r =
    apply_field-Keeps s (field_of (upper_copy (read_word (read_word r).1).0))
      (target_of (read_word r).0) (rest_after (read_word (read_word r).1).1)
apply_key-push_message f s status_key r =
    set_status-Keeps s (status_of (read_word r).0) (rest_after (read_word r).1)
apply_key-push_message f s message_key r = (refl, refl)
apply_key-push_message f s unknown_key r = (refl, refl)
