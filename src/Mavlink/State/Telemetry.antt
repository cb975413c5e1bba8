-- ===== src/Mavlink/State/Telemetry.antt =====
-- The lines of numbers that `apply_ipc_line` of src/common/mavlink_state.cpp reads.
use openhd_glide.Base.{
  ℕ, Bool, true, false, not, ◌&&◌, ◌||◌, Option, none, some, leb, ◌==◌, if◌then◌else◌, Bytes,
}
use openhd_glide.Base.Int.{ℤ, pos, negsuc, ltb_ℤ}
use openhd_glide.Mavlink.Protocol.{platform_ids, find_name}
use openhd_glide.Mavlink.State.{Snapshot}
use openhd_glide.Mavlink.State.Reader.{Reader, Scanned, read_word, read_number, read_int}
use openhd_glide.Mavlink.State.Keys.{
  Target, air_unit, ground_unit, fc_unit, other_unit, target_of, Report, wifi_card, wifi_link, core,
  other_report,
}

-- How the library reads a `float` and a `double`, as bit patterns.
pub record Floats : Type 0 where
  pub scan_float : Bytes → Scanned ℕ
  pub scan_double : Bytes → Scanned ℕ

abbrev pub is_zero : ℤ → Bool
is_zero (pos n) = n == 0
is_zero (negsuc n) = false

abbrev pub clamp_percent : ℤ → ℤ
clamp_percent (pos n) = if leb n 100 then pos n else pos 100
clamp_percent (negsuc n) = pos 0

-- `std::max(0.0F, x)` on a bit pattern: a negative number and a NaN give 0.
abbrev pub at_least_zero : ℕ → ℕ
at_least_zero bits = if leb 1 bits && leb bits 0x7f800000 then bits else 0

unfoldable pub set_alive : Snapshot → Target → Bool → Snapshot
set_alive s air_unit alive = record s { air_alive = alive }
set_alive s ground_unit alive = record s { ground_alive = alive }
set_alive s fc_unit alive = record s { fc_alive = alive }
set_alive s other_unit alive = s

unfoldable pub apply_alive : Snapshot → Reader → Snapshot
apply_alive s r =
    let (target, r') = read_word r in
    let (alive, r'') = read_int (pos 0) r' in set_alive s (target_of target) (not (is_zero alive))

unfoldable pub apply_attitude : Floats → Snapshot → Reader → Snapshot
apply_attitude f s r =
    let (roll, r') = read_number f.scan_float s.roll_degrees r in
    let (pitch, r'') = read_number f.scan_float s.pitch_degrees r' in
    let (yaw, r''') = read_number f.scan_float s.yaw_degrees r'' in
    record s {
      roll_degrees = roll;
      pitch_degrees = pitch;
      yaw_degrees = yaw;
      attitude_valid = true;
    }

unfoldable pub apply_position : Floats → Snapshot → Reader → Snapshot
apply_position f s r =
    let (latitude, r') = read_number f.scan_double s.latitude_deg r in
    let (longitude, r'') = read_number f.scan_double s.longitude_deg r' in
    let (altitude, r''') = read_number f.scan_float s.altitude_m r'' in
    record s {
      latitude_deg = latitude;
      longitude_deg = longitude;
      altitude_m = altitude;
      position_valid = true;
      altitude_valid = true;
    }

unfoldable pub apply_speed : Floats → Snapshot → Reader → Snapshot
apply_speed f s r =
    let (ground_speed, r') = read_number f.scan_float s.ground_speed_mps r in
    let (airspeed, r'') = read_number f.scan_float s.airspeed_mps r' in
    record s { ground_speed_mps = ground_speed; airspeed_mps = airspeed; speed_valid = true }

unfoldable pub apply_battery : Floats → Snapshot → Reader → Snapshot
apply_battery f s r =
    let (voltage, r') = read_number f.scan_float s.voltage_v r in
    let (percent, r'') = read_int s.battery_percent r' in
    record s { voltage_v = voltage; battery_percent = percent; battery_valid = true }

-- The four numbers that an older controller leaves out.
unfoldable pub apply_link_quality : Floats → Snapshot → Reader → Snapshot
apply_link_quality f s r =
    let (bitrate, r1) = read_number f.scan_float s.link_bitrate_mbit r in
    let (quality, r2) = read_int s.link_quality_percent r1 in
    let (rssi, r3) = read_int s.link_rssi_dbm r2 in
    let (temperature, r4) = read_int s.link_txc_temp_c r3 in
    let (snr1, r5) = read_int s.link_snr_antenna1_db r4 in
    let (snr2, r6) = read_int s.link_snr_antenna2_db r5 in
    let read = record s {
      link_bitrate_mbit = bitrate;
      link_quality_percent = quality;
      link_rssi_dbm = rssi;
      link_txc_temp_c = temperature;
    } in
    if r4.failed then read else record read {
      rc_quality_percent = quality;
      link_snr_antenna1_db = snr1;
      link_snr_antenna2_db = snr2;
    }

abbrev pub clamp_quality : Snapshot → Snapshot
clamp_quality s = record s {
  link_quality_percent = clamp_percent s.link_quality_percent;
  rc_quality_percent = clamp_percent s.rc_quality_percent;
}

unfoldable pub apply_link : Floats → Snapshot → Reader → Snapshot
apply_link f s r =
    let (frequency, r1) = read_int s.frequency_mhz r in
    let (width, r2) = read_int s.channel_width_mhz r1 in
    let (mcs, r3) = read_int s.mcs_index r2 in
    let (power, r4) = read_int s.tx_power_mw r3 in
    let read = record s {
      frequency_mhz = frequency;
      channel_width_mhz = width;
      mcs_index = mcs;
      tx_power_mw = power;
    } in
    clamp_quality (apply_link_quality f read r4)

-- The card with the strongest signal is shown.
unfoldable pub is_stronger : Snapshot → ℤ → Bool
is_stronger s rssi =
    not (ltb_ℤ (negsuc 126) s.link_rssi_dbm)
    || (ltb_ℤ (negsuc 126) rssi && not (ltb_ℤ rssi s.link_rssi_dbm))

abbrev pub fill_rc_quality : Snapshot → Snapshot
fill_rc_quality s =
    if is_zero s.rc_quality_percent
    then record s { rc_quality_percent = s.link_quality_percent }
    else s

unfoldable pub apply_wifi_card : Snapshot → Reader → Snapshot
unfolding is_stronger
apply_wifi_card s r =
    let (rssi, r1) = read_int (pos 0) r in
    let (quality, r2) = read_int (pos 0) r1 in
    let (snr1, r3) = read_int (pos 0) r2 in
    let (snr2, r4) = read_int (pos 0) r3 in
    let (temperature, r5) = read_int (pos 0) r4 in
    let shown =
      if is_stronger s rssi
      then record s {
        link_rssi_dbm = rssi;
        link_quality_percent = clamp_percent quality;
        link_snr_antenna1_db = snr1;
        link_snr_antenna2_db = snr2;
        link_txc_temp_c = temperature;
      }
      else s in
    fill_rc_quality shown

abbrev pub if_positive : ℤ → ℤ → ℤ
if_positive value old = if ltb_ℤ (pos 0) value then value else old

unfoldable pub apply_wifi_link : Floats → Snapshot → Reader → Snapshot
apply_wifi_link f s r =
    let (frequency, r1) = read_int (pos 0) r in
    let (width, r2) = read_int (pos 0) r1 in
    let (mcs, r3) = read_int (pos 0) r2 in
    let (bitrate, r4) = read_number f.scan_float 0 r3 in
    let (quality, r5) = read_int s.rc_quality_percent r4 in
    let (snr1, r6) = read_int s.link_snr_antenna1_db r5 in
    let (snr2, r7) = read_int s.link_snr_antenna2_db r6 in
    let (temperature, r8) = read_int s.link_txc_temp_c r7 in
    record s {
      link_stats_valid = true;
      frequency_mhz = if_positive frequency s.frequency_mhz;
      channel_width_mhz = if_positive width s.channel_width_mhz;
      mcs_index = mcs;
      link_bitrate_mbit = at_least_zero bitrate;
      rc_quality_percent = clamp_percent quality;
      link_snr_antenna1_db = snr1;
      link_snr_antenna2_db = snr2;
      link_txc_temp_c = temperature;
    }

abbrev pub set_platform : Snapshot → Option Bytes → Snapshot
set_platform s none = s
set_platform s (some name) = record s { platform = name }

unfoldable pub apply_core : Snapshot → Reader → Snapshot
apply_core s r =
    let (temperature, r') = read_int s.link_txc_temp_c r in
    let (platform_type, r'') = read_int (pos 0) r' in
    set_platform (record s { link_txc_temp_c = temperature }) (find_name platform_ids platform_type)

unfoldable pub apply_report : Floats → Snapshot → Report → Reader → Snapshot
apply_report f s wifi_card r = apply_wifi_card s r
apply_report f s wifi_link r = apply_wifi_link f s r
apply_report f s core r = apply_core s r
apply_report f s other_report r = s
