-- ===== src/Control.antt =====
-- src/common/preview_control.cpp: the settings that the processes share through small files.
pub mod Colors
pub mod Files
pub mod Settings
use openhd_glide.Base.{
  ℕ, ◌+◌, ◌-◌, ◌*◌, ◌/◌, ◌%◌, ◌^◌, Bool, true, false, not, ◌&&◌, ◌||◌, List, [], ◌∷◌, ◌++◌, Option,
  none, some, ltb, leb, ◌==◌, if◌then◌else◌, length, Bytes, codes, same_bytes,
}
use openhd_glide.Mavlink.Text.{skip_spaces, split_word}

-- The files, and whether one can be opened for writing. `directory` is what
-- `temp_directory_path` returns.
pub record FileSystem : Type 0 where
  pub directory : Bytes
  pub contents : Bytes → Option Bytes
  pub can_write : Bytes → Bool

-- An `std::ofstream` with `trunc` that writes `text`; one that does not open writes nothing.
unfoldable pub write : FileSystem → Bytes → Bytes → FileSystem
write f path text =
    if f.can_write path
    then record f {
      contents = λ other. if same_bytes other path then some text else f.contents other;
    }
    else f

abbrev in_directory : FileSystem → Bytes → Bytes
in_directory f name = f.directory ++ (codes "/" ++ name)

abbrev pub fps_control_path : FileSystem → Bytes
fps_control_path f = in_directory f (codes "openhd-glide-flow-fps.enabled")

abbrev pub coordinates_control_path : FileSystem → Bytes
coordinates_control_path f = in_directory f (codes "openhd-glide-flow-coordinates.enabled")

abbrev pub compact_readouts_control_path : FileSystem → Bytes
compact_readouts_control_path f =
    in_directory f (codes "openhd-glide-flow-compact-readouts.enabled")

abbrev pub top_bar_control_path : FileSystem → Bytes
top_bar_control_path f = in_directory f (codes "openhd-glide-flow-topbar.enabled")

abbrev pub osd_layout_control_path : FileSystem → Bytes
osd_layout_control_path f = in_directory f (codes "openhd-glide-flow-osd.layout")

abbrev pub theme_color_path : FileSystem → Bytes → Bytes
theme_color_path f key = in_directory f (codes "openhd-glide-theme-" ++ (key ++ codes ".rgb"))

unfoldable pub default_theme_color : Bytes → ℕ
default_theme_color key =
    if same_bytes key (codes "bar_text")
    then 0xebf5ff
    else if same_bytes key (codes "bar_background")
    then 0x0e1318
    else if same_bytes key (codes "primary")
    then 0x99ffb8
    else if same_bytes key (codes "secondary")
    then 0x55a8ff
    else 0xffffff

-- `file >> value` of a `char`, which keeps 0 if the file has nothing but spaces.
abbrev first_char : Bytes → ℕ
first_char [] = 0
first_char (c ∷ cs) = c

-- The value of a file, or `missing` if it does not open.
unfoldable pub read_enabled : Bool → Option Bytes → Bool
read_enabled missing none = missing
read_enabled missing (some text) = not (first_char (skip_spaces text) == b'0')

unfoldable pub read_enabled_file : FileSystem → Bytes → Bool
unfolding read_enabled
read_enabled_file f path = read_enabled true (f.contents path)

unfoldable pub write_enabled_file : FileSystem → Bytes → Bool → FileSystem
write_enabled_file f path enabled = write f path (if enabled then codes "1\n" else codes "0\n")

abbrev pub fps_overlay_enabled : FileSystem → Bool
fps_overlay_enabled f = read_enabled_file f (fps_control_path f)

abbrev pub set_fps_overlay_enabled : FileSystem → Bool → FileSystem
set_fps_overlay_enabled f enabled = write_enabled_file f (fps_control_path f) enabled

abbrev pub coordinates_overlay_enabled : FileSystem → Bool
coordinates_overlay_enabled f = read_enabled_file f (coordinates_control_path f)

abbrev pub set_coordinates_overlay_enabled : FileSystem → Bool → FileSystem
set_coordinates_overlay_enabled f enabled =
    write_enabled_file f (coordinates_control_path f) enabled

-- This one is off where the others are on.
unfoldable pub compact_readouts_enabled : FileSystem → Bool
unfolding read_enabled
compact_readouts_enabled f = read_enabled false (f.contents (compact_readouts_control_path f))

abbrev pub set_compact_readouts_enabled : FileSystem → Bool → FileSystem
set_compact_readouts_enabled f enabled =
    write_enabled_file f (compact_readouts_control_path f) enabled

abbrev pub top_bar_enabled : FileSystem → Bool
top_bar_enabled f = read_enabled_file f (top_bar_control_path f)

abbrev pub set_top_bar_enabled : FileSystem → Bool → FileSystem
set_top_bar_enabled f enabled = write_enabled_file f (top_bar_control_path f) enabled

-- `file >> value` of a string: the first word, empty if the file does not open.
unfoldable pub read_value : Option Bytes → Bytes
read_value none = []
read_value (some text) = (split_word (skip_spaces text)).0

unfoldable pub is_layout : Bytes → Bool
is_layout value =
    same_bytes value (codes "rocket")
    || same_bytes value (codes "rover")
    || same_bytes value (codes "ship")

unfoldable pub osd_layout : FileSystem → Bytes
unfolding read_value is_layout
osd_layout f =
    let value = read_value (f.contents (osd_layout_control_path f)) in
    if is_layout value then value else codes "drone"

unfoldable pub set_osd_layout : FileSystem → Bytes → FileSystem
unfolding is_layout
set_osd_layout f layout =
    write f (osd_layout_control_path f)
      (if is_layout layout then layout ++ codes "\n" else codes "drone\n")

-- `std::isxdigit`, and the value of the digit.
unfoldable pub hex_value : ℕ → Option ℕ
hex_value c =
    if leb b'0' c && leb c b'9'
    then some (c - b'0')
    else if leb b'a' c && leb c b'f'
    then some (c - b'a' + 10)
    else if leb b'A' c && leb c b'F'
    then some (c - b'A' + 10)
    else none

-- `std::stoul` in base 16 of digits only, from the value of those before.
unfoldable pub parse_hex : ℕ → Bytes → Option ℕ
parse_hex n [] = some n
parse_hex n (c ∷ cs) = elim (hex_value c) [ none ↦ none | some d ↦ parse_hex (n * 16 + d) cs ]

unfoldable pub color_or : ℕ → Option ℕ → ℕ
color_or other none = other
color_or other (some rgb) = rgb

unfoldable pub theme_color : FileSystem → Bytes → ℕ
unfolding read_value color_or
theme_color f key =
    let value = read_value (f.contents (theme_color_path f key)) in
    if length value == 6
    then color_or (default_theme_color key) (parse_hex 0 value)
    else default_theme_color key

abbrev pub hex_digit : ℕ → ℕ
hex_digit d = if ltb d 10 then b'0' + d else b'a' + (d - 10)

-- The digits that `std::hex`, `std::setw(6)` and `std::setfill('0')` print of a number below 16 ^ 6.
unfoldable pub hex_text : ℕ → Bytes
hex_text n =
    hex_digit (n / 16 ^ 5 % 16)
    ∷ hex_digit (n / 16 ^ 4 % 16)
    ∷ hex_digit (n / 16 ^ 3 % 16)
    ∷ hex_digit (n / 16 ^ 2 % 16)
    ∷ hex_digit (n / 16 % 16)
    ∷ hex_digit (n % 16)
    ∷ []

unfoldable pub set_theme_color : FileSystem → Bytes → ℕ → FileSystem
set_theme_color f key rgb = write f (theme_color_path f key) (hex_text (rgb % 2 ^ 24) ++ codes "\n")
