-- ===== src/Control/Colors.antt =====
-- The colours of the theme.
use openhd_glide.Base.{
  ℕ, ◌+◌, ◌*◌, ◌/◌, ◌%◌, ◌^◌, ◌<◌, ◌≡◌, refl, ap, ◌∙◌, true, false, [], ◌∷◌, ◌++◌, some, ◌==◌,
  length, Bytes, codes, same_bytes, arith,
}
use openhd_glide.Mavlink.Text.{is_space, skip_spaces, split_word}
use openhd_glide.Control.{
  FileSystem, write, theme_color_path, hex_value, parse_hex, color_or, read_value, theme_color,
  hex_digit, hex_text, set_theme_color,
}
use openhd_glide.Base.Same.{same_bytes-prefix, same_bytes-suffix}
use openhd_glide.Control.Files.{write-same, write-other, write-directory}

hex_value-hex_digit : (d : ℕ) → d < 16 → hex_value (hex_digit d) ≡ some d
unfolding hex_value
hex_value-hex_digit d h = ground (arith, h)

parse_hex-digit :
    (n d : ℕ) (cs : Bytes) → d < 16 → parse_hex n (hex_digit d ∷ cs) ≡ parse_hex (n * 16 + d) cs
unfolding parse_hex
parse_hex-digit n d cs h = rw (hex_value-hex_digit d h, parse_hex) refl

hex_digit-word : (d : ℕ) → d < 16 → is_space (hex_digit d) ≡ false
unfolding is_space
hex_digit-word d h = ground (arith, h)

-- Six digits of a number below 16 ^ 6.
abbrev digits : ℕ → ℕ → ℕ → ℕ → ℕ → ℕ → Bytes → Bytes
digits a b c d e g rest =
    hex_digit a ∷ hex_digit b ∷ hex_digit c ∷ hex_digit d ∷ hex_digit e ∷ hex_digit g ∷ rest

parse_hex-digits :
    (a b c d e g : ℕ)
    → a < 16
    → b < 16
    → c < 16
    → d < 16
    → e < 16
    → g < 16
    → parse_hex 0 (digits a b c d e g [])
      ≡ some ((((((0 * 16 + a) * 16 + b) * 16 + c) * 16 + d) * 16 + e) * 16 + g)
parse_hex-digits a b c d e g p q r s t u =
    parse_hex-digit 0 a _ p
    ∙ parse_hex-digit _ b _ q
    ∙ parse_hex-digit _ c _ r
    ∙ parse_hex-digit _ d _ s
    ∙ parse_hex-digit _ e _ t
    ∙ parse_hex-digit _ g [] u
    ∙ unfold parse_hex in refl

parse_hex-hex_text : (n : ℕ) → n < 2 ^ 24 → parse_hex 0 (hex_text n) ≡ some n
unfolding hex_text
parse_hex-hex_text n h =
    let value : (((((0 * 16 + n / 16 ^ 5 % 16) * 16 + n / 16 ^ 4 % 16) * 16 + n / 16 ^ 3 % 16) * 16
                  + n / 16 ^ 2 % 16)
                * 16
              + n / 16 % 16)
            * 16
          + n % 16
        ≡ n =
      omega (arith, h) in
    parse_hex-digits (n / 16 ^ 5 % 16) (n / 16 ^ 4 % 16) (n / 16 ^ 3 % 16) (n / 16 ^ 2 % 16)
      (n / 16 % 16) (n % 16) (omega arith) (omega arith) (omega arith) (omega arith) (omega arith)
      (omega arith)
    ∙ ap (λ (k : ℕ). some k) value

split_word-digit :
    (d : ℕ) (cs word : Bytes)
    → d < 16
    → (split_word cs).0 ≡ word
    → (split_word (hex_digit d ∷ cs)).0 ≡ hex_digit d ∷ word
unfolding split_word
split_word-digit d cs word h e = rw (hex_digit-word d h, split_word) (ap (◌∷◌ (hex_digit d)) e)

skip_spaces-digit :
    (d : ℕ) (cs : Bytes) → d < 16 → skip_spaces (hex_digit d ∷ cs) ≡ hex_digit d ∷ cs
unfolding skip_spaces
skip_spaces-digit d cs h = rw (hex_digit-word d h, skip_spaces) refl

read_value-digits :
    (a b c d e g : ℕ)
    → a < 16
    → b < 16
    → c < 16
    → d < 16
    → e < 16
    → g < 16
    → read_value (some (digits a b c d e g (10 ∷ []))) ≡ digits a b c d e g []
unfolding read_value
read_value-digits a b c d e g p q r s t u =
    let newline : (split_word (10 ∷ [])).0 ≡ [] = unfold split_word is_space in refl in
    ap (λ (text : Bytes). (split_word text).0) (skip_spaces-digit a _ p)
    ∙ split_word-digit a _ _ p (
        split_word-digit b _ _ q (
          split_word-digit c _ _ r (
            split_word-digit d _ _ s
              (split_word-digit e _ _ t (split_word-digit g (10 ∷ []) [] u newline)))))

read_value-hex_text : (n : ℕ) → read_value (some (hex_text n ++ codes "\n")) ≡ hex_text n
unfolding hex_text
read_value-hex_text n =
    read_value-digits (n / 16 ^ 5 % 16) (n / 16 ^ 4 % 16) (n / 16 ^ 3 % 16) (n / 16 ^ 2 % 16)
      (n / 16 % 16) (n % 16) (omega arith) (omega arith) (omega arith) (omega arith) (omega arith)
      (omega arith)

theme_color-text :
    (f : FileSystem) (key : Bytes) (n : ℕ)
    → f.contents (theme_color_path f key) ≡ some (hex_text n ++ codes "\n")
    → n < 2 ^ 24
    → theme_color f key ≡ n
unfolding theme_color
theme_color-text f key n e h =
    let word : read_value (f.contents (theme_color_path f key)) ≡ hex_text n =
      ap read_value e ∙ read_value-hex_text n in
    let six : (length (hex_text n) == 6) ≡ true = unfold hex_text in refl in
    rw word (rw (six, parse_hex-hex_text n h) (unfold color_or in refl))

same_colors :
    (f g : FileSystem) (key : Bytes)
    → g.contents (theme_color_path g key) ≡ f.contents (theme_color_path f key)
    → theme_color g key ≡ theme_color f key
unfolding theme_color
same_colors f g key e = rw e refl

theme_color_path-other :
    (f : FileSystem) (key other : Bytes)
    → same_bytes other key ≡ false
    → same_bytes (theme_color_path f other) (theme_color_path f key) ≡ false
theme_color_path-other f key other h =
    same_bytes-prefix f.directory _ _
    ∙ same_bytes-prefix (codes "/openhd-glide-theme-") (other ++ codes ".rgb") (key ++ codes ".rgb")
    ∙ same_bytes-suffix other key (codes ".rgb") h

-- A colour that is set is the one that is read, less what is above 24 bits, and the colour of any
-- other key stays as it is. The file of the key can be written.
pub set_theme_color-theme_color :
    (f : FileSystem) (key other : Bytes) (rgb : ℕ)
    → f.can_write (theme_color_path f key) ≡ true
    → same_bytes other key ≡ false
    → let g = set_theme_color f key rgb in
      (theme_color g key ≡ rgb % 2 ^ 24) × (theme_color g other ≡ theme_color f other)
unfolding set_theme_color
set_theme_color-theme_color f key other rgb h d =
    let text = hex_text (rgb % 2 ^ 24) ++ codes "\n" in
    let path = theme_color_path f key in
    let g : FileSystem = write f path text in
    let moved : (name : Bytes)
        → g.contents (theme_color_path g name) ≡ g.contents (theme_color_path f name) =
      λ name.
        ap
          (λ (dir : Bytes).
            g.contents
              (dir ++ (codes "/" ++ (codes "openhd-glide-theme-" ++ (name ++ codes ".rgb")))))
          (write-directory f path text) in
    (
      theme_color-text g key (rgb % 2 ^ 24) (moved key ∙ write-same f path text h) (omega arith),
      same_colors f g other (
          moved other
          ∙ write-other f path (theme_color_path f other) text
              (theme_color_path-other f key other d)),
    )
