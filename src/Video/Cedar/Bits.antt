-- ===== src/Video/Cedar/Bits.antt =====
-- `RbspBitReader` and `first_slice_starts_frame` of src/video/cedar_rtp_decoder.cpp.
pub mod Golomb
use openhd_glide.Base.{
  ℕ, zero, suc, ◌+◌, ◌-◌, ◌*◌, ◌/◌, ◌%◌, ◌^◌, Bool, true, false, not, ◌&&◌, Option, none, some, ltb,
  leb, ◌==◌, if◌then◌else◌, length, drop, Bytes,
}
use openhd_glide.Video.Rtp.{byte_at}

pub record RbspBitReader : Type 0 where
  pub data' : Bytes
  pub byte_offset : ℕ
  pub bit_offset : ℕ

-- The byte at `k` is an emulation prevention byte: 00 00 03.
unfoldable pub is_emulation : Bytes → ℕ → Bool
is_emulation bytes k =
    leb 2 k && byte_at bytes (k - 2) == 0 && byte_at bytes (k - 1) == 0 && byte_at bytes k == 3

-- The bit at the offsets, and the reader behind it.
unfoldable pub take_bit : RbspBitReader → ℕ × RbspBitReader
take_bit r =
    let next =
      if r.bit_offset == 7
      then record r { byte_offset = suc r.byte_offset; bit_offset = 0 }
      else record r { bit_offset = suc r.bit_offset } in
    (byte_at r.data' r.byte_offset / 2 ^ (7 - r.bit_offset) % 2, next)

-- Each round of the `while` takes a byte, so that the number of bytes is enough fuel.
unfoldable pub read_bit_loop : ℕ → RbspBitReader → Option (ℕ × RbspBitReader)
unfolding take_bit
read_bit_loop zero r = none
read_bit_loop (suc fuel) r =
    let skipped =
      read_bit_loop fuel (record r { byte_offset = suc r.byte_offset; bit_offset = 0 }) in
    if not (ltb r.byte_offset (length r.data'))
    then none
    else if is_emulation r.data' r.byte_offset
    then skipped
    else some (take_bit r)

unfoldable pub read_bit : RbspBitReader → Option (ℕ × RbspBitReader)
read_bit r = read_bit_loop (length r.data') r

-- The zeros in front of the first one, of which 31 are allowed: `fuel` is 32 less those read.
unfoldable pub leading_zeros : ℕ → ℕ → RbspBitReader → Option (ℕ × RbspBitReader)
leading_zeros zero count r = none
leading_zeros (suc fuel) count r = elim (read_bit r) [
  | none ↦ none
  | some (zero, r') ↦ leading_zeros fuel (suc count) r'
  | some (suc b, r') ↦ some (count, r')
]

unfoldable pub read_suffix : ℕ → ℕ → RbspBitReader → Option (ℕ × RbspBitReader)
read_suffix zero suffix r = some (suffix, r)
read_suffix (suc n) suffix r = elim (read_bit r) [
  | none ↦ none
  | some (b, r') ↦ read_suffix n (suffix * 2 + b) r'
]

unfoldable pub ue_value : ℕ → Option (ℕ × RbspBitReader) → Option (ℕ × RbspBitReader)
ue_value count none = none
ue_value count (some (suffix, r)) = some (2 ^ count - 1 + suffix, r)

unfoldable pub read_ue_after : Option (ℕ × RbspBitReader) → Option (ℕ × RbspBitReader)
unfolding ue_value
read_ue_after none = none
read_ue_after (some (count, r)) = ue_value count (read_suffix count 0 r)

unfoldable pub read_ue : RbspBitReader → Option (ℕ × RbspBitReader)
unfolding read_ue_after
read_ue r = read_ue_after (leading_zeros 32 0 r)

abbrev pub reader : Bytes → RbspBitReader
reader bytes = record { data' = bytes; byte_offset = 0; bit_offset = 0 }

unfoldable pub is_zero_value : Option (ℕ × RbspBitReader) → Bool
is_zero_value none = false
is_zero_value (some (value, r)) = value == 0

unfoldable pub first_slice_starts_frame : Bytes → Bool
unfolding is_zero_value
first_slice_starts_frame nal =
    if leb (length nal) 1 then false else is_zero_value (read_ue (reader (drop 1 nal)))
