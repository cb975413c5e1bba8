-- ===== src/Control/Settings.antt =====
-- The switches and the layout of the OSD.
use openhd_glide.Base.{
  ◌≡◌, refl, sym, ap, subst, ◌∙◌, inl, inr, Bool, true, false, Bool-cases, ◌++◌, some,
  if◌then◌else◌, Bytes, codes, same_bytes, arith,
}
use openhd_glide.Mavlink.Text.{is_space, skip_spaces, split_word}
use openhd_glide.Base.Same.{same_bytes→eq}
use openhd_glide.Control.{
  FileSystem, write, read_enabled, read_enabled_file, write_enabled_file, read_value, is_layout,
  osd_layout, set_osd_layout, osd_layout_control_path,
}
use openhd_glide.Control.Files.{write-same, write-directory}

-- A switch reads as it was written, in any file that can be written.
pub read_enabled_file-write_enabled_file :
    (f : FileSystem) (path : Bytes) (enabled : Bool)
    → f.can_write path ≡ true
    → read_enabled_file (write_enabled_file f path enabled) path ≡ enabled
unfolding read_enabled_file write_enabled_file
read_enabled_file-write_enabled_file f path true h =
    rw (write-same f path (codes "1\n") h) (unfold read_enabled skip_spaces is_space in refl)
read_enabled_file-write_enabled_file f path false h =
    rw (write-same f path (codes "0\n") h) (unfold read_enabled skip_spaces is_space in refl)

-- A layout reads as itself from its file.
abbrev Reads : Bytes → Type 0
Reads layout = read_value (some (layout ++ codes "\n")) ≡ layout

rocket-Reads : Reads (codes "rocket")
unfolding read_value split_word skip_spaces is_space
rocket-Reads = refl

rover-Reads : Reads (codes "rover")
unfolding read_value split_word skip_spaces is_space
rover-Reads = refl

ship-Reads : Reads (codes "ship")
unfolding read_value split_word skip_spaces is_space
ship-Reads = refl

drone-Reads : Reads (codes "drone")
unfolding read_value split_word skip_spaces is_space
drone-Reads = refl

Reads-same : (layout name : Bytes) → same_bytes layout name ≡ true → Reads name → Reads layout
Reads-same layout name e r = subst Reads (sym (same_bytes→eq layout name e)) r

Reads-layout : (layout : Bytes) → is_layout layout ≡ true → Reads layout
unfolding is_layout
Reads-layout layout h = elim (Bool-cases (same_bytes layout (codes "rocket"))) [
  | inl e ↦ Reads-same layout (codes "rocket") e rocket-Reads
  | inr no_rocket ↦ elim (Bool-cases (same_bytes layout (codes "rover"))) [
    | inl e ↦ Reads-same layout (codes "rover") e rover-Reads
    | inr no_rover ↦
        Reads-same layout (codes "ship") (ground (arith, h, no_rocket, no_rover)) ship-Reads
  ]
]

osd_layout-text :
    (g : FileSystem) (text value : Bytes)
    → g.contents (osd_layout_control_path g) ≡ some text
    → read_value (some text) ≡ value
    → osd_layout g ≡ (if is_layout value then value else codes "drone")
unfolding osd_layout
osd_layout-text g text value e r =
    ap (λ (word : Bytes). if is_layout word then word else codes "drone") (ap read_value e ∙ r)

-- The file of the layout once `text` has been written to it.
layout_text :
    (f : FileSystem) (text : Bytes)
    → f.can_write (osd_layout_control_path f) ≡ true
    → let g = write f (osd_layout_control_path f) text in
      g.contents (osd_layout_control_path g) ≡ some text
layout_text f text h =
    let g = write f (osd_layout_control_path f) text in
    ap (λ (dir : Bytes). g.contents (dir ++ (codes "/" ++ codes "openhd-glide-flow-osd.layout")))
      (write-directory f (osd_layout_control_path f) text)
    ∙ write-same f (osd_layout_control_path f) text h

-- A layout that is set is the one that is read if it is one of the three with a name of their own,
-- and any other text is read as the drone's. The file can be written.
pub set_osd_layout-osd_layout :
    (f : FileSystem) (layout : Bytes)
    → f.can_write (osd_layout_control_path f) ≡ true
    → osd_layout (set_osd_layout f layout) ≡ (if is_layout layout then layout else codes "drone")
unfolding set_osd_layout
set_osd_layout-osd_layout f layout h = elim (Bool-cases (is_layout layout)) [
  | inl e ↦ rw e (
      osd_layout-text (write f (osd_layout_control_path f) (layout ++ codes "\n"))
        (layout ++ codes "\n") layout (layout_text f (layout ++ codes "\n") h)
        (Reads-layout layout e)
      ∙ rw e refl)
  | inr e ↦ rw e (
      osd_layout-text (write f (osd_layout_control_path f) (codes "drone\n")) (codes "drone\n")
        (codes "drone") (layout_text f (codes "drone\n") h) drone-Reads
      ∙ unfold is_layout same_bytes in refl)
]
