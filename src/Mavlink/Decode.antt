-- ===== src/Mavlink/Decode.antt =====
-- `decode_frame` of src/common/mavlink_udp_bridge.cpp: the lines of text for a frame, with a newline
-- between two.
pub mod Numbers
pub mod Applied
use openhd_glide.Base.{
  ℕ, zero, suc, ◌+◌, ◌-◌, ◌*◌, Bool, true, false, not, ◌&&◌, ◌||◌, List, [], ◌∷◌, ◌++◌, flatten,
  map, Option, none, some, ltb, leb, ◌==◌, if◌then◌else◌, length, Bytes, codes,
}
use openhd_glide.Base.Int.{ℤ, pos, negsuc, pos_part, signed, ltb_ℤ}
use openhd_glide.Mavlink.Frame.{Frame}
use openhd_glide.Mavlink.Text.{read_le, c_string}
use openhd_glide.Mavlink.Heartbeat.{to_string, is_vehicle}
use openhd_glide.Mavlink.Protocol.{int_to_string, wifi_card_type_to_string}

-- The printing of floating-point numbers. A `float` and a `double` are bit patterns: both with two
-- digits behind the point, a `float` times the degrees of a radian, an integer divided by 1000 as
-- `float`, and one divided by 10000000 as `double` with seven digits.
pub record Printing : Type 0 where
  pub show_float : ℕ → Bytes
  pub show_double : ℕ → Bytes
  pub show_degrees : ℕ → Bytes
  pub show_thousandth : ℤ → Bytes
  pub show_coordinate : ℤ → Bytes

abbrev pub read_signed : ℕ → Bytes → ℕ → ℤ
read_signed size payload offset = signed (size * 8) (read_le size payload offset)

abbrev pub read_i8 : Bytes → ℕ → ℤ
read_i8 payload offset = read_signed 1 payload offset

-- The text and each field behind a space.
abbrev pub spaced : List Bytes → Bytes
spaced fields = flatten (map (λ field. 32 ∷ field) fields)

-- `std::remove` of the two line ends.
unfoldable pub trim_payload_string : Bytes → Bytes
trim_payload_string [] = []
trim_payload_string (c ∷ cs) =
    let rest = trim_payload_string cs in if c == b'\n' || c == b'\r' then rest else c ∷ rest

-- `std::clamp(value, 0, 100)`.
abbrev pub clamp_100 : ℤ → ℕ
clamp_100 (pos n) = if leb n 100 then n else 100
clamp_100 (negsuc n) = 0

unfoldable pub decode_heartbeat : Frame → Option Bytes
decode_heartbeat frame =
    if frame.sysid == 100
    then some (codes "mav alive ground 1")
    else if frame.sysid == 101
    then some (codes "mav alive air 1")
    else if is_vehicle (read_le 1 frame.payload 4) (read_le 1 frame.payload 5)
    then some (codes "mav alive fc 1")
    else none

unfoldable pub decode_battery : Printing → Bytes → Option Bytes
decode_battery n p =
    let voltage_mv = read_le 2 p 14 in
    let remaining = read_i8 p 30 in
    if ltb 0 voltage_mv || not (ltb_ℤ remaining (pos 0))
    then some (
        codes "mav battery"
        ++ spaced (n.show_thousandth (pos voltage_mv) ∷ int_to_string remaining ∷ []))
    else none

abbrev param_line : Bytes → Bytes → Option Bytes
param_line name value =
    if length name == 0 then none else some (codes "mav param auto" ++ spaced (name ∷ value ∷ []))

unfoldable pub decode_param : Printing → Bytes → Option Bytes
decode_param n p = param_line (c_string p 8 16) (n.show_float (read_le 4 p 0))

abbrev position : Printing → ℤ → ℤ → ℤ → Bytes
position n lat lon alt =
    codes "mav position"
    ++ spaced (n.show_coordinate lat ∷ n.show_coordinate lon ∷ n.show_thousandth alt ∷ [])

unfoldable pub decode_gps : Printing → Bytes → Bytes
decode_gps n p =
    position n (read_signed 4 p 8) (read_signed 4 p 12) (read_signed 4 p 16)
    ++ (codes "\nmav gps " ++ to_string (read_le 1 p 29))

unfoldable pub decode_position : Printing → Bytes → Bytes
decode_position n p = position n (read_signed 4 p 4) (read_signed 4 p 8) (read_signed 4 p 16)

unfoldable pub decode_attitude : Printing → Bytes → Bytes
decode_attitude n p =
    codes "mav attitude"
    ++ spaced (
        n.show_degrees (read_le 4 p 4)
        ∷ n.show_degrees (read_le 4 p 8)
        ∷ n.show_degrees (read_le 4 p 12)
        ∷ [])

unfoldable pub decode_rc : Bytes → Bytes
decode_rc p =
    codes "mav rc"
    ++ spaced (
        to_string (read_le 2 p 4)
        ∷ to_string (read_le 2 p 6)
        ∷ to_string (read_le 2 p 8)
        ∷ to_string (read_le 2 p 10)
        ∷ [])

unfoldable pub decode_speed : Printing → Bytes → Bytes
decode_speed n p =
    codes "mav speed" ++ spaced (n.show_float (read_le 4 p 16) ∷ n.show_float (read_le 4 p 0) ∷ [])

unfoldable pub decode_statustext : Bytes → Option Bytes
decode_statustext p =
    let text = trim_payload_string (c_string p 1 (if ltb 51 (length p) then 254 else 50)) in
    if length text == 0
    then none
    else some (codes "mav message [" ++ (to_string (read_le 1 p 0) ++ (codes "] " ++ text)))

-- The value of a PARAM_EXT_VALUE by its type.
unfoldable pub ext_value : Printing → Bytes → ℕ → Bytes
ext_value n p type =
    if type == 1
    then to_string (read_le 1 p 20)
    else if type == 2
    then int_to_string (read_signed 1 p 20)
    else if type == 3
    then to_string (read_le 2 p 20)
    else if type == 4
    then int_to_string (read_signed 2 p 20)
    else if type == 5
    then to_string (read_le 4 p 20)
    else if type == 6
    then int_to_string (read_signed 4 p 20)
    else if type == 7
    then to_string (read_le 8 p 20)
    else if type == 8
    then int_to_string (read_signed 8 p 20)
    else if type == 9
    then n.show_float (read_le 4 p 20)
    else if type == 10
    then n.show_double (read_le 8 p 20)
    else c_string p 20 128

unfoldable pub decode_param_ext : Printing → Bytes → Option Bytes
unfolding ext_value
decode_param_ext n p = param_line (c_string p 4 16) (ext_value n p (read_le 1 p 148))

unfoldable pub decode_wifi_link : Printing → Bytes → Bytes
decode_wifi_link n p =
    codes "mav openhd wifi_link"
    ++ spaced (
        to_string (read_le 2 p 26)
        ∷ to_string (read_le 1 p 33)
        ∷ to_string (read_le 1 p 34)
        ∷ n.show_thousandth (pos (read_le 2 p 28))
        ∷ to_string (100 - clamp_100 (read_i8 p 32))
        ∷ int_to_string (read_i8 p 38)
        ∷ int_to_string (read_i8 p 39)
        ∷ int_to_string (read_i8 p 40)
        ∷ [])

-- The first of the two lines.
unfoldable pub wifi_card_line : Bytes → Bytes
wifi_card_line p =
    codes "mav openhd wifi_card"
    ++ spaced (
        int_to_string (read_i8 p 23)
        ∷ to_string (clamp_100 (read_i8 p 29))
        ∷ int_to_string (read_i8 p 34)
        ∷ int_to_string (read_i8 p 35)
        ∷ int_to_string (read_i8 p 36)
        ∷ [])

unfoldable pub decode_wifi_card : Frame → Bytes
unfolding wifi_card_line
decode_wifi_card frame =
    wifi_card_line frame.payload
    ++ (codes "\nmav param auto "
        ++ ((if frame.sysid == 100 then codes "GROUND_CHIPSET " else codes "AIR_CHIPSET ")
            ++ wifi_card_type_to_string (pos (read_le 1 frame.payload 21))))

unfoldable pub decode_core : Bytes → Bytes
decode_core p =
    codes "mav openhd core"
    ++ spaced (int_to_string (read_i8 p 14) ∷ to_string (read_le 1 p 18) ∷ [])

unfoldable pub decode_frame : Printing → Frame → Option Bytes
decode_frame n frame =
    let p = frame.payload in
    if frame.msgid == 0
    then decode_heartbeat frame
    else if frame.msgid == 1
    then decode_battery n p
    else if frame.msgid == 22
    then decode_param n p
    else if frame.msgid == 24
    then some (decode_gps n p)
    else if frame.msgid == 30
    then some (decode_attitude n p)
    else if frame.msgid == 33
    then some (decode_position n p)
    else if frame.msgid == 65
    then some (decode_rc p)
    else if frame.msgid == 74
    then some (decode_speed n p)
    else if frame.msgid == 253
    then decode_statustext p
    else if frame.msgid == 322
    then decode_param_ext n p
    else if frame.msgid == 1211
    then some (decode_wifi_link n p)
    else if frame.msgid == 1212
    then some (decode_wifi_card frame)
    else if frame.msgid == 1227
    then some (decode_core p)
    else none
