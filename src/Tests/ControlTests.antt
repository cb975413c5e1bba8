-- ===== src/Tests/ControlTests.antt =====
-- src/common/preview_control.cpp at concrete inputs.
use openhd_glide.Base.{◌≡◌, refl, true, none, ◌%◌, ◌^◌, codes, same_bytes}
use openhd_glide.Control.{FileSystem, theme_color, set_theme_color}
use openhd_glide.Control.Colors.{set_theme_color-theme_color}

-- An empty directory that can be written to.
abbrev empty_files : FileSystem
empty_files = record { directory = codes "/tmp"; contents = λ path. none; can_write = λ path. true }

set_theme_color-theme_color_example :
    let g = set_theme_color empty_files (codes "primary") 0xff00ab10 in
    (theme_color g (codes "primary") ≡ 0xff00ab10 % 2 ^ 24)
    × (theme_color g (codes "secondary") ≡ theme_color empty_files (codes "secondary"))
unfolding same_bytes
set_theme_color-theme_color_example =
    set_theme_color-theme_color empty_files (codes "primary") (codes "secondary") 0xff00ab10 refl
      refl
