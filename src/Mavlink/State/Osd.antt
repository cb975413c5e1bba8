-- ===== src/Mavlink/State/Osd.antt =====
-- The lines that wake the OSD are lines that the snapshot takes.
use openhd_glide.Base.{◌≡◌, refl, Bool, true, false, Bytes, if◌then◌else◌}
use openhd_glide.Mavlink.State.{Snapshot}
use openhd_glide.Mavlink.State.Reader.{Reader}
use openhd_glide.Mavlink.State.Keys.{
  Key, alive_key, armed_key, attitude_key, position_key, speed_key, battery_key, gps_key, mode_key,
  link_key, openhd_key, scan_key, rc_key, param_key, status_key, message_key, unknown_key,
}
use openhd_glide.Mavlink.State.Telemetry.{Floats}
use openhd_glide.Mavlink.State.Lines.{
  apply_key, dispatch, apply_ipc_line, is_osd_key, is_osd_telemetry_line,
}

is_osd_key-taken :
    (f : Floats) (s : Snapshot) (k : Key) (r : Reader)
    → is_osd_key k r ≡ true
    → (apply_key f s k r).1 ≡ true
unfolding is_osd_key apply_key
is_osd_key-taken f s alive_key r e = refl
is_osd_key-taken f s armed_key r e = refl
is_osd_key-taken f s attitude_key r e = refl
is_osd_key-taken f s position_key r e = refl
is_osd_key-taken f s speed_key r e = refl
is_osd_key-taken f s battery_key r e = refl
is_osd_key-taken f s gps_key r e = refl
is_osd_key-taken f s mode_key r e = refl
is_osd_key-taken f s link_key r e = refl
is_osd_key-taken f s openhd_key r e = refl
is_osd_key-taken f s scan_key r e = refl
is_osd_key-taken f s rc_key r e = refl
is_osd_key-taken f s param_key r e = refl
is_osd_key-taken f s status_key r e = refl
is_osd_key-taken f s message_key r e = refl
is_osd_key-taken f s unknown_key r e = cc e

is_osd-dispatch :
    (f : Floats) (s : Snapshot) (is_mav : Bool) (k : Key) (r : Reader)
    → (if is_mav then is_osd_key k r else false) ≡ true
    → (dispatch f s is_mav k r).1 ≡ true
unfolding dispatch
is_osd-dispatch f s true k r e = is_osd_key-taken f s k r e
is_osd-dispatch f s false k r e = cc e

-- A line that counts as OSD telemetry is one that the snapshot takes, whatever it holds already.
pub is_osd_telemetry_line-taken :
    (f : Floats) (s : Snapshot) (line : Bytes)
    → is_osd_telemetry_line line ≡ true
    → (apply_ipc_line f s line).1 ≡ true
unfolding is_osd_telemetry_line apply_ipc_line
is_osd_telemetry_line-taken f s line e = is_osd-dispatch f s _ _ _ e
