-- ===== src/Mavlink/Text.antt =====
-- The text that src/common/mavlink_udp_bridge.cpp reads with `std::istringstream` and `std::strtol`,
-- and the fixed strings of its payloads.
pub mod Strings
use openhd_glide.Base.{
  ℕ, zero, suc, ◌+◌, ◌-◌, ◌*◌, ◌^◌, min, Bool, true, false, not, ◌&&◌, ◌||◌, List, [], ◌∷◌, ◌++◌,
  Option, none, some, ltb, leb, ◌==◌, if◌then◌else◌, length, take, drop, Bytes,
}
use openhd_glide.Base.Int.{ℤ, pos, negsuc, sub_ℕ}

-- `std::isspace` in the C locale.
unfoldable pub is_space : ℕ → Bool
is_space c = c == 32 || (leb 9 c && leb c 13)

unfoldable pub skip_spaces : Bytes → Bytes
skip_spaces [] = []
skip_spaces (c ∷ cs) = if is_space c then skip_spaces cs else c ∷ cs

-- The characters up to a space, and the rest from there on.
unfoldable pub split_word : Bytes → Bytes × Bytes
split_word [] = ([], [])
split_word (c ∷ cs) =
    if is_space c then ([], c ∷ cs) else (c ∷ (split_word cs).0, (split_word cs).1)

-- `stream >> word`.
unfoldable pub extract : Bytes → Bytes × Bytes
extract stream = split_word (skip_spaces stream)

-- `std::getline(stream, value)`, and the space in front of the value erased.
unfoldable pub get_line : Bytes → Bytes
get_line [] = []
get_line (c ∷ cs) = if c == b'\n' then [] else c ∷ get_line cs

abbrev pub erase_space : Bytes → Bytes
erase_space [] = []
erase_space (c ∷ cs) = if c == 32 then cs else c ∷ cs

-- `value.c_str()`, up to the terminating NUL.
unfoldable pub c_str : Bytes → Bytes
c_str [] = []
c_str (c ∷ cs) = if c == 0 then [] else c ∷ c_str cs

abbrev is_digit : ℕ → Bool
is_digit c = leb b'0' c && leb c b'9'

-- The value of digits that end the text, from the value `n` of those before.
unfoldable pub digits : ℕ → Bytes → Option ℕ
digits n [] = some n
digits n (c ∷ cs) = if is_digit c then digits (n * 10 + (c - b'0')) cs else none

abbrev some_digits : Bytes → Option ℕ
some_digits [] = none
some_digits (c ∷ cs) = digits 0 (c ∷ cs)

unfoldable pub signed_digits : Bytes → Option ℤ
signed_digits [] = none
signed_digits (c ∷ cs) =
    if c == b'-'
    then elim (some_digits cs) [ none ↦ none | some n ↦ some (sub_ℕ 0 n) ]
    else elim (some_digits (if c == b'+' then cs else c ∷ cs)) [
      | none ↦ none
      | some n ↦ some (pos n)
    ]

-- `std::strtol` in base ten, if it reads the whole text; what does not fit in `long` is clamped to a
-- value that does not fit in `std::int32_t` either.
unfoldable pub parse_integer : Bytes → Option ℤ
parse_integer value = signed_digits (skip_spaces (c_str value))

-- `read_le` of an unsigned type of `size` bytes, from the bytes at the offset; what does not lie in
-- the payload reads as zero.
abbrev pub le_value : ℕ → Bytes → ℕ
le_value zero bytes = 0
le_value (suc size) [] = 0
le_value (suc size) (b ∷ bytes) = b + 256 * le_value size bytes

unfoldable pub read_le : ℕ → Bytes → ℕ → ℕ
read_le size payload offset =
    if leb (offset + size) (length payload) then le_value size (drop offset payload) else 0

-- `while (!text.empty() && text.back() == ' ') text.pop_back()`.
unfoldable pub strip_spaces : Bytes → Bytes
strip_spaces [] = []
strip_spaces (c ∷ cs) =
    let rest = strip_spaces cs in if c == 32 && length rest == 0 then [] else c ∷ rest

unfoldable pub c_string : Bytes → ℕ → ℕ → Bytes
c_string payload offset length' =
    if leb (length payload) offset
    then []
    else strip_spaces (c_str (take (min length' (length payload - offset)) (drop offset payload)))
