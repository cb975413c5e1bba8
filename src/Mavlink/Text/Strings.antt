-- ===== src/Mavlink/Text/Strings.antt =====
-- Words of a line, and the fixed strings of a payload read back.
use openhd_glide.Base.{
  ℕ, zero, suc, ◌-◌, ◌≤◌, ◌<◌, ◌≡◌, ◌≢◌, refl, ap, [], ◌∷◌, ◌++◌, Bytes, length, take, replicate,
  All, arith, false, leb, length-append, length-take, length-replicate, take-length-append,
  drop-length-append, min,
}
use openhd_glide.Mavlink.Text.{
  is_space, skip_spaces, split_word, extract, get_line, erase_space, c_str, strip_spaces, c_string,
}
use openhd_glide.Mavlink.Packet.{put_fixed_string}

-- Letters, none of them a space or a NUL.
pub record IsWord (w : Bytes) : Type 0 where
  pub has_letter : 0 < length w
  pub no_space : All (λ c. is_space c ≡ false) w
  pub no_nul : All (λ c. c ≢ 0) w

split_word-word :
    (w rest : Bytes)
    → All (λ c. is_space c ≡ false) w
    → split_word (w ++ 32 ∷ rest) ≡ (w, 32 ∷ rest)
unfolding split_word
split_word-word [] rest h = unfold is_space in refl
split_word-word (c ∷ w) rest h = rw (h.0, split_word-word w rest h.1)

skip_spaces-word : (w rest : Bytes) → IsWord w → skip_spaces (w ++ rest) ≡ w ++ rest
unfolding skip_spaces
skip_spaces-word [] rest h = absurd (omega (arith, h.has_letter))
skip_spaces-word (c ∷ w) rest h = rw h.no_space.0

pub extract-word : (w rest : Bytes) → IsWord w → extract (w ++ 32 ∷ rest) ≡ (w, 32 ∷ rest)
unfolding extract
extract-word w rest h = rw (skip_spaces-word w (32 ∷ rest) h) (split_word-word w rest h.no_space)

pub extract-space : (rest : Bytes) → extract (32 ∷ rest) ≡ extract rest
unfolding extract skip_spaces is_space
extract-space rest = refl

get_line-all : (value : Bytes) → All (λ c. c ≢ 10) value → get_line value ≡ value
unfolding get_line
get_line-all [] h = refl
get_line-all (c ∷ value) h = ground (arith, h.0, get_line-all value h.1)

pub get_line-space :
    (value : Bytes) → All (λ c. c ≢ 10) value → erase_space (get_line (32 ∷ value)) ≡ value
unfolding get_line
get_line-space value h = get_line-all value h

pub length-put_fixed_string : (value : Bytes) (n : ℕ) → length (put_fixed_string value n) ≡ n
unfolding put_fixed_string
length-put_fixed_string value n =
    let copy = min (length value) n in
    omega (
      arith,
      length-append (take copy value),
      length-take copy value,
      length-replicate {0} {A = ℕ} (n - copy) 0,
    )

c_str-padded :
    (value : Bytes) (k : ℕ) → All (λ c. c ≢ 0) value → c_str (value ++ replicate k 0) ≡ value
unfolding c_str
c_str-padded [] zero h = refl
c_str-padded [] (suc k) h = refl
c_str-padded (c ∷ value) k h = ground (arith, h.0, c_str-padded value k h.1)

strip_spaces-word : (w : Bytes) → All (λ c. is_space c ≡ false) w → strip_spaces w ≡ w
unfolding strip_spaces is_space
strip_spaces-word [] h = refl
strip_spaces-word (c ∷ w) h = rw (strip_spaces-word w h.1) (ground (arith, h.0))

take_whole : (w : Bytes) → take (length w) w ≡ w
take_whole [] = refl
take_whole (c ∷ w) = ap (◌∷◌ c) (take_whole w)

put_fixed_string-short :
    (w : Bytes) (n : ℕ) → length w ≤ n → put_fixed_string w n ≡ w ++ replicate (n - length w) 0
unfolding put_fixed_string
put_fixed_string-short w n h =
    let copy : min (length w) n ≡ length w = omega (arith, h) in rw (copy, take_whole w)

-- A word in a fixed string of a payload is read back from there.
pub c_string-put_fixed_string :
    (front w behind : Bytes) (n : ℕ)
    → IsWord w
    → length w ≤ n
    → c_string (front ++ (put_fixed_string w n ++ behind)) (length front) n ≡ w
unfolding c_string
c_string-put_fixed_string front w behind n h k =
    let field = put_fixed_string w n in
    let size = length-put_fixed_string w n in
    let inside : leb (length (front ++ (field ++ behind))) (length front) ≡ false = ground (
      arith,
      length-append front (field ++ behind),
      length-append field behind,
      size,
      h.has_letter,
      k,
    ) in
    let whole : min n (length (front ++ (field ++ behind)) - length front) ≡ length field =
      omega (arith, length-append front (field ++ behind), length-append field behind, size) in
    rw (
      inside,
      whole,
      drop-length-append front (field ++ behind),
      take-length-append field behind,
      put_fixed_string-short w n k,
      c_str-padded w (n - length w) h.no_nul,
      strip_spaces-word w h.no_space,
    )
