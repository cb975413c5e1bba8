-- ===== src/Mavlink/State/Reader.antt =====
-- `std::istringstream` and `std::stoi` as src/common/mavlink_state.cpp uses them, in the C locale.
use openhd_glide.Base.{
  ℕ, ◌+◌, ◌%◌, ◌-◌, ◌*◌, ◌^◌, Bool, true, false, ◌&&◌, [], ◌∷◌, leb, ltb, ◌==◌, if◌then◌else◌,
  Bytes,
}
use openhd_glide.Base.Int.{ℤ, pos, sub_ℕ}
use openhd_glide.Mavlink.Text.{skip_spaces, split_word, get_line, erase_space, c_str}

-- The characters that are left, and `failbit`.
pub record Reader : Type 0 where
  pub rest : Bytes
  pub failed : Bool

abbrev pub open_reader : Bytes → Reader
open_reader line = record { rest = line; failed = false }

abbrev pub at_end : Reader
at_end = record { rest = []; failed = true }

-- `stream >> word`, where `word` was empty.
unfoldable pub word_of : Bytes → Bytes × Reader
word_of [] = ([], at_end)
word_of (c ∷ cs) =
    ((split_word (c ∷ cs)).0, record { rest = (split_word (c ∷ cs)).1; failed = false })

unfoldable pub read_word : Reader → Bytes × Reader
unfolding word_of
read_word r = if r.failed then ([], r) else word_of (skip_spaces r.rest)

-- The rest of the line, less one space in front.
unfoldable pub rest_after : Reader → Bytes
rest_after r = if r.failed then [] else erase_space (get_line r.rest)

abbrev pub is_digit : ℕ → Bool
is_digit c = leb b'0' c && leb c b'9'

-- The number that starts the text, from the value `n` of the digits before it.
unfoldable pub digits_run : ℕ → Bytes → ℕ × Bytes
digits_run n [] = (n, [])
digits_run n (c ∷ cs) =
    let more = digits_run (n * 10 + (c - b'0')) cs in if is_digit c then more else (n, c ∷ cs)

-- A number and what is behind it; a conversion that fails stores 0 or the nearest `int`.
pub record Scanned (A : Type 0) : Type 0 where
  pub value : A
  pub behind : Bytes
  pub fails : Bool

abbrev limit : Bool → ℕ
limit negative = if negative then 2 ^ 31 else 2 ^ 31 - 1

abbrev signed_value : Bool → ℕ → ℤ
signed_value negative n = if negative then sub_ℕ 0 n else pos n

unfoldable pub int_value : Bool → ℕ × Bytes → Scanned ℤ
int_value negative (n, behind) =
    if leb n (limit negative)
    then record { value = signed_value negative n; behind = behind; fails = false }
    else record { value = signed_value negative (limit negative); behind = behind; fails = true }

unfoldable pub scan_digits : Bool → Bytes → Scanned ℤ
unfolding int_value
scan_digits negative [] = record { value = pos 0; behind = []; fails = true }
scan_digits negative (c ∷ cs) =
    if is_digit c
    then int_value negative (digits_run 0 (c ∷ cs))
    else record { value = pos 0; behind = c ∷ cs; fails = true }

unfoldable pub scan_int : Bytes → Scanned ℤ
unfolding scan_digits
scan_int [] = record { value = pos 0; behind = []; fails = true }
scan_int (c ∷ cs) =
    if c == b'-'
    then scan_digits true cs
    else if c == b'+'
    then scan_digits false cs
    else scan_digits false (c ∷ cs)

unfoldable pub unsigned_value : ℕ → Bool → ℕ × Bytes → Scanned ℕ
unsigned_value size negative (n, behind) =
    if ltb n size
    then record {
      value = if negative then (size - n) % size else n;
      behind = behind;
      fails = false;
    }
    else record { value = size - 1; behind = behind; fails = true }

unfoldable pub scan_unsigned_digits : ℕ → Bool → Bytes → Scanned ℕ
unfolding unsigned_value
scan_unsigned_digits size negative [] = record { value = 0; behind = []; fails = true }
scan_unsigned_digits size negative (c ∷ cs) =
    if is_digit c
    then unsigned_value size negative (digits_run 0 (c ∷ cs))
    else record { value = 0; behind = c ∷ cs; fails = true }

-- The same for an unsigned type of `size` values, where a negative number wraps around.
unfoldable pub scan_unsigned : ℕ → Bytes → Scanned ℕ
unfolding scan_unsigned_digits
scan_unsigned size [] = record { value = 0; behind = []; fails = true }
scan_unsigned size (c ∷ cs) =
    if c == b'-'
    then scan_unsigned_digits size true cs
    else if c == b'+'
    then scan_unsigned_digits size false cs
    else scan_unsigned_digits size false (c ∷ cs)

-- `stream >> number` where the variable holds `old`: it keeps it if no character is left.
unfoldable pub number_of : {A : Type 0} → (Bytes → Scanned A) → A → Bytes → A × Reader
number_of scan old [] = (old, at_end)
number_of scan old (c ∷ cs) = (
  (scan (c ∷ cs)).value,
  record { rest = (scan (c ∷ cs)).behind; failed = (scan (c ∷ cs)).fails },
)

unfoldable pub read_number : {A : Type 0} → (Bytes → Scanned A) → A → Reader → A × Reader
unfolding number_of
read_number scan old r = if r.failed then (old, r) else number_of scan old (skip_spaces r.rest)

abbrev pub read_int : ℤ → Reader → ℤ × Reader
read_int = read_number scan_int

-- `std::stoi`, with `fallback` where it throws.
unfoldable pub parse_int_or : ℤ → Bytes → ℤ
parse_int_or fallback value =
    let scanned = scan_int (skip_spaces (c_str value)) in
    if scanned.fails then fallback else scanned.value

abbrev upper : ℕ → ℕ
upper c = if leb b'a' c && leb c b'z' then c - 32 else c

unfoldable pub upper_copy : Bytes → Bytes
upper_copy [] = []
upper_copy (c ∷ cs) = upper c ∷ upper_copy cs
