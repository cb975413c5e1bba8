-- ===== src/Mavlink/State/Percents.antt =====
-- The percentages of the snapshot stay in their range, whatever the lines say.
use openhd_glide.Base.{
  ◌≤◌, ◌≡◌, refl, sym, subst, Bool, true, false, List, [], ◌∷◌, Option, none, some, if_elim,
  same_bytes, Bytes, codes, arith,
}
use openhd_glide.Base.Int.{ℤ, pos, negsuc, pos_part, neg_part}
use openhd_glide.Mavlink.Protocol.{platform_ids, find_name}
use openhd_glide.Mavlink.State.{Snapshot, fresh_snapshot, push_message}
use openhd_glide.Mavlink.State.Reader.{Reader, open_reader, read_word, read_number, read_int}
use openhd_glide.Mavlink.State.Keys.{
  Key, alive_key, armed_key, attitude_key, position_key, speed_key, battery_key, gps_key, mode_key,
  link_key, openhd_key, scan_key, rc_key, param_key, status_key, message_key, unknown_key, key_of,
  Field, siyi_field, resolution_field, rotation_field, recording_field, wifi_mode_field,
  hotspot_field, frequency_field, channel_width_field, mcs_field, tx_power_field, version_field,
  air_chipset_field, ground_chipset_field, camera_field, unknown_field, Target, air_unit,
  ground_unit, fc_unit, other_unit, Report, wifi_card, wifi_link, core, other_report, Status,
  version_status, ground_chipset_status, air_chipset_status, camera_status, recording_status',
  other_status,
}
use openhd_glide.Mavlink.State.Telemetry.{
  Floats, clamp_percent, is_zero, set_alive, apply_alive, apply_attitude, apply_position,
  apply_speed, apply_battery, apply_link_quality, clamp_quality, apply_link, is_stronger,
  fill_rc_quality, apply_wifi_card, apply_wifi_link, set_platform, apply_core, apply_report,
}
use openhd_glide.Mavlink.State.Lines.{
  set_wifi_mode, set_hotspot, apply_field, apply_param, set_status, apply_key, dispatch,
  apply_ipc_line,
}

pub record IsPercent (z : ℤ) : Type 0 where
  pub at_least_0 : neg_part z ≡ 0
  pub at_most_100 : pos_part z ≤ 100

clamp_percent-IsPercent : (z : ℤ) → IsPercent (clamp_percent z)
clamp_percent-IsPercent (pos n) = record { at_least_0 = ground arith; at_most_100 = ground arith }
clamp_percent-IsPercent (negsuc n) = record { at_least_0 = refl; at_most_100 = omega arith }

pub record ArePercents (link rc scan : ℤ) : Type 0 where
  pub link_in : IsPercent link
  pub rc_in : IsPercent rc
  pub scan_in : IsPercent scan

-- The three values that a text or a gauge shows as percent.
abbrev pub IsBounded : Snapshot → Type 0
IsBounded s = ArePercents s.link_quality_percent s.rc_quality_percent s.scan_progress

set_alive-IsBounded :
    (s : Snapshot) (t : Target) (alive : Bool) → IsBounded s → IsBounded (set_alive s t alive)
unfolding set_alive
set_alive-IsBounded s air_unit alive w = w
set_alive-IsBounded s ground_unit alive w = w
set_alive-IsBounded s fc_unit alive w = w
set_alive-IsBounded s other_unit alive w = w

apply_link_quality-scan :
    (f : Floats) (s : Snapshot) (r : Reader)
    → (apply_link_quality f s r).scan_progress ≡ s.scan_progress
unfolding apply_link_quality
apply_link_quality-scan f s r = ground arith

clamp_quality-IsBounded : (s : Snapshot) → IsPercent s.scan_progress → IsBounded (clamp_quality s)
clamp_quality-IsBounded s p = record {
  link_in = clamp_percent-IsPercent s.link_quality_percent;
  rc_in = clamp_percent-IsPercent s.rc_quality_percent;
  scan_in = p;
}

apply_link-IsBounded :
    (f : Floats) (s : Snapshot) (r : Reader) → IsBounded s → IsBounded (apply_link f s r)
unfolding apply_link
apply_link-IsBounded f s r w =
    let (frequency, r1) = read_int s.frequency_mhz r in
    let (width, r2) = read_int s.channel_width_mhz r1 in
    let (mcs, r3) = read_int s.mcs_index r2 in
    let (power, r4) = read_int s.tx_power_mw r3 in
    let read : Snapshot = record s {
      frequency_mhz = frequency;
      channel_width_mhz = width;
      mcs_index = mcs;
      tx_power_mw = power;
    } in
    clamp_quality-IsBounded (apply_link_quality f read r4)
      (subst IsPercent (sym (apply_link_quality-scan f read r4)) w.scan_in)

fill_rc_quality-IsBounded : (s : Snapshot) → IsBounded s → IsBounded (fill_rc_quality s)
fill_rc_quality-IsBounded s w =
    if_elim IsBounded (is_zero s.rc_quality_percent)
      (λ e. record { link_in = w.link_in; rc_in = w.link_in; scan_in = w.scan_in }) (λ e. w)

apply_wifi_card-IsBounded :
    (s : Snapshot) (r : Reader) → IsBounded s → IsBounded (apply_wifi_card s r)
unfolding apply_wifi_card
apply_wifi_card-IsBounded s r w = fill_rc_quality-IsBounded _ (
    if_elim IsBounded (is_stronger s _)
      (λ e. record {
        link_in = clamp_percent-IsPercent (read_int (pos 0) (read_int (pos 0) r).1).0;
        rc_in = w.rc_in;
        scan_in = w.scan_in;
      })
      (λ e. w))

set_platform-IsBounded :
    (s : Snapshot) (o : Option Bytes) → IsBounded s → IsBounded (set_platform s o)
set_platform-IsBounded s none w = w
set_platform-IsBounded s (some name) w = w

apply_report-IsBounded :
    (f : Floats) (s : Snapshot) (k : Report) (r : Reader)
    → IsBounded s
    → IsBounded (apply_report f s k r)
unfolding apply_report apply_wifi_link apply_core
apply_report-IsBounded f s wifi_card r w = apply_wifi_card-IsBounded s r w
apply_report-IsBounded f s wifi_link r w = record {
  link_in = w.link_in;
  rc_in = clamp_percent-IsPercent (
      (read_int s.rc_quality_percent
        (read_number f.scan_float 0
          (read_int (pos 0) (read_int (pos 0) (read_int (pos 0) r).1).1).1).1).0);
  scan_in = w.scan_in;
}
apply_report-IsBounded f s core r w =
    set_platform-IsBounded (record s { link_txc_temp_c = (read_int s.link_txc_temp_c r).0 })
      (find_name platform_ids _) w
apply_report-IsBounded f s other_report r w = w

set_wifi_mode-IsBounded :
    (s : Snapshot) (t : Target) (value : Bytes) → IsBounded s → IsBounded (set_wifi_mode s t value)
unfolding set_wifi_mode
set_wifi_mode-IsBounded s air_unit value w = w
set_wifi_mode-IsBounded s ground_unit value w = w
set_wifi_mode-IsBounded s fc_unit value w = w
set_wifi_mode-IsBounded s other_unit value w = w

set_hotspot-IsBounded :
    (s : Snapshot) (t : Target) (value : Bytes) → IsBounded s → IsBounded (set_hotspot s t value)
unfolding set_hotspot
set_hotspot-IsBounded s air_unit value w = w
set_hotspot-IsBounded s ground_unit value w = w
set_hotspot-IsBounded s fc_unit value w = w
set_hotspot-IsBounded s other_unit value w = w

apply_field-IsBounded :
    (s : Snapshot) (field : Field) (t : Target) (value : Bytes)
    → IsBounded s
    → IsBounded (apply_field s field t value)
unfolding apply_field
apply_field-IsBounded s siyi_field t value w = w
apply_field-IsBounded s resolution_field t value w = w
apply_field-IsBounded s rotation_field t value w = w
apply_field-IsBounded s recording_field t value w = w
apply_field-IsBounded s wifi_mode_field t value w = set_wifi_mode-IsBounded s t value w
apply_field-IsBounded s hotspot_field t value w = set_hotspot-IsBounded s t value w
apply_field-IsBounded s frequency_field t value w = w
apply_field-IsBounded s channel_width_field t value w = w
apply_field-IsBounded s mcs_field t value w = w
apply_field-IsBounded s tx_power_field t value w = w
apply_field-IsBounded s version_field t value w = w
apply_field-IsBounded s air_chipset_field t value w = w
apply_field-IsBounded s ground_chipset_field t value w = w
apply_field-IsBounded s camera_field t value w = w
apply_field-IsBounded s unknown_field t value w = w

set_status-IsBounded :
    (s : Snapshot) (k : Status) (value : Bytes) → IsBounded s → IsBounded (set_status s k value)
unfolding set_status
set_status-IsBounded s version_status value w = w
set_status-IsBounded s ground_chipset_status value w = w
set_status-IsBounded s air_chipset_status value w = w
set_status-IsBounded s camera_status value w = w
set_status-IsBounded s recording_status' value w = w
set_status-IsBounded s other_status value w = w

push_message-IsBounded :
    (s : Snapshot) (message : Bytes) → IsBounded s → IsBounded (push_message s message)
unfolding push_message
push_message-IsBounded s [] w = w
push_message-IsBounded s (c ∷ cs) w = if_elim IsBounded _ (λ e. w) (λ e. w)

apply_key-IsBounded :
    (f : Floats) (s : Snapshot) (k : Key) (r : Reader)
    → IsBounded s
    → IsBounded (apply_key f s k r).0
unfolding apply_key apply_alive apply_attitude apply_position apply_speed apply_battery apply_param
apply_key-IsBounded f s alive_key r w = set_alive-IsBounded s _ _ w
apply_key-IsBounded f s armed_key r w = w
apply_key-IsBounded f s attitude_key r w = w
apply_key-IsBounded f s position_key r w = w
apply_key-IsBounded f s speed_key r w = w
apply_key-IsBounded f s battery_key r w = w
apply_key-IsBounded f s gps_key r w = w
apply_key-IsBounded f s mode_key r w = w
apply_key-IsBounded f s link_key r w = apply_link-IsBounded f s r w
apply_key-IsBounded f s openhd_key r w = apply_report-IsBounded f s _ (read_word r).1 w
apply_key-IsBounded f s scan_key r w = record {
  link_in = w.link_in;
  rc_in = w.rc_in;
  scan_in = clamp_percent-IsPercent (read_int s.scan_progress r).0;
}
apply_key-IsBounded f s rc_key r w = w
apply_key-IsBounded f s param_key r w = apply_field-IsBounded s _ _ _ w
apply_key-IsBounded f s status_key r w = set_status-IsBounded s _ _ w
apply_key-IsBounded f s message_key r w = push_message-IsBounded s _ w
apply_key-IsBounded f s unknown_key r w = w

dispatch-IsBounded :
    (f : Floats) (s : Snapshot) (is_mav : Bool) (k : Key) (r : Reader)
    → IsBounded s
    → IsBounded (dispatch f s is_mav k r).0
unfolding dispatch
dispatch-IsBounded f s true k r w = apply_key-IsBounded f s k r w
dispatch-IsBounded f s false k r w = w

apply_ipc_line-IsBounded :
    (f : Floats) (s : Snapshot) (line : Bytes) → IsBounded s → IsBounded (apply_ipc_line f s line).0
unfolding apply_ipc_line
apply_ipc_line-IsBounded f s line w =
    let (prefix, r) = read_word (open_reader line) in
    let (key, r') = read_word r in
    dispatch-IsBounded f s (same_bytes prefix (codes "mav")) (key_of key) r' w

-- Lines applied in order, whatever each call returns.
unfoldable pub apply_all : Floats → Snapshot → List Bytes → Snapshot
apply_all f s [] = s
apply_all f s (line ∷ lines) = apply_all f (apply_ipc_line f s line).0 lines

apply_all-IsBounded :
    (f : Floats) (s : Snapshot) (lines : List Bytes) → IsBounded s → IsBounded (apply_all f s lines)
unfolding apply_all
apply_all-IsBounded f s [] w = w
apply_all-IsBounded f s (line ∷ lines) w =
    apply_all-IsBounded f (apply_ipc_line f s line).0 lines (apply_ipc_line-IsBounded f s line w)

-- After any lines, well formed or not, the link quality, the quality of the remote control and the
-- progress of a scan are percentages, from 0 to 100.
pub apply_all-fresh_snapshot-IsBounded :
    (f : Floats) (lines : List Bytes) → IsBounded (apply_all f fresh_snapshot lines)
apply_all-fresh_snapshot-IsBounded f lines =
    let zero_in : IsPercent (pos 0) = record { at_least_0 = refl; at_most_100 = omega arith } in
    apply_all-IsBounded f fresh_snapshot lines
      (record { link_in = zero_in; rc_in = zero_in; scan_in = zero_in })
