-- ===== src/Video/Cedar/Bits/Golomb.antt =====
-- What `first_slice_starts_frame` decides: one bit of the slice header.
use openhd_glide.Base.{
  ℕ, zero, suc, ◌/◌, ◌%◌, ◌^◌, ◌≤◌, ◌≡◌, refl, sym, ap, ◌∙◌, ◌⊎◌, inl, inr, true, false, ◌&&◌, [],
  ◌∷◌, Option, none, some, leb, length, Bytes, arith,
}
use openhd_glide.Video.Rtp.{byte_at, has_bit}
use openhd_glide.Video.Cedar.Bits.{
  RbspBitReader, is_emulation, take_bit, read_bit_loop, read_bit, leading_zeros, read_suffix,
  ue_value, read_ue_after, read_ue, reader, is_zero_value, first_slice_starts_frame,
}

read_bit-first :
    (c : ℕ) (cs : Bytes)
    → read_bit (reader (c ∷ cs))
      ≡ some (c / 128 % 2, record { data' = c ∷ cs; byte_offset = 0; bit_offset = 1 })
unfolding read_bit read_bit_loop is_emulation take_bit
read_bit-first c cs = ground arith

read_ue_after-first : (r : RbspBitReader) → read_ue_after (some (0, r)) ≡ some (0, r)
unfolding read_ue_after read_suffix ue_value
read_ue_after-first r = refl

two_pow-pos : (n : ℕ) → 1 ≤ 2 ^ n
two_pow-pos zero = omega arith
two_pow-pos (suc n) = omega (arith, two_pow-pos n)

is_zero_value-suffix :
    (n : ℕ) (o : Option (ℕ × RbspBitReader)) → 1 ≤ n → is_zero_value (ue_value n o) ≡ false
unfolding is_zero_value ue_value
is_zero_value-suffix n none h = refl
is_zero_value-suffix zero (some x) h = elim h [ ]
is_zero_value-suffix (suc n) (some (suffix, r)) h = ground (arith, two_pow-pos n)

is_zero_value-later :
    (o : Option (ℕ × RbspBitReader))
    → ((n : ℕ) (r : RbspBitReader) → o ≡ some (n, r) → 1 ≤ n)
    → is_zero_value (read_ue_after o) ≡ false
unfolding is_zero_value read_ue_after
is_zero_value-later none h = refl
is_zero_value-later (some (n, r)) h = is_zero_value-suffix n (read_suffix n 0 r) (h n r refl)

leading_zeros-one :
    (fuel count : ℕ) (r r' : RbspBitReader) (b : ℕ)
    → read_bit r ≡ some (suc b, r')
    → leading_zeros (suc fuel) count r ≡ some (count, r')
unfolding leading_zeros
leading_zeros-one fuel count r r' b e = rw (e, leading_zeros) refl

leading_zeros-zero :
    (fuel count : ℕ) (r r' : RbspBitReader)
    → read_bit r ≡ some (0, r')
    → leading_zeros (suc fuel) count r ≡ leading_zeros fuel (suc count) r'
unfolding leading_zeros
leading_zeros-zero fuel count r r' e = rw (e, leading_zeros) refl

leading_zeros-none :
    (fuel count : ℕ) (r : RbspBitReader)
    → read_bit r ≡ none
    → leading_zeros (suc fuel) count r ≡ none
unfolding leading_zeros
leading_zeros-none fuel count r e = rw (e, leading_zeros) refl

-- `IH` is for the reader behind a zero.
leading_zeros-le_step :
    (fuel count : ℕ) (r r' : RbspBitReader) (n : ℕ)
    → ((s s' : RbspBitReader) (m : ℕ)
        → leading_zeros fuel (suc count) s ≡ some (m, s')
        → suc count ≤ m)
    → (o : Option (ℕ × RbspBitReader)) → read_bit r ≡ o
    → leading_zeros (suc fuel) count r ≡ some (n, r')
    → count ≤ n
leading_zeros-le_step fuel count r r' n ih none p e = cc (leading_zeros-none fuel count r p, e)
leading_zeros-le_step fuel count r r' n ih (some (zero, s)) p e =
    omega (arith, ih s r' n (sym (leading_zeros-zero fuel count r s p) ∙ e))
leading_zeros-le_step fuel count r r' n ih (some (suc b, s)) p e =
    ground (arith, leading_zeros-one fuel count r s b p)

leading_zeros-le :
    (fuel count : ℕ) (r r' : RbspBitReader) (n : ℕ)
    → leading_zeros fuel count r ≡ some (n, r')
    → count ≤ n
unfolding leading_zeros
leading_zeros-le zero count r r' n e = cc e
leading_zeros-le (suc fuel) count r r' n e =
    leading_zeros-le_step fuel count r r' n (leading_zeros-le fuel (suc count)) (read_bit r) refl e

top_bit : (c : ℕ) → (c / 128 % 2 ≡ 1) ⊎ (c / 128 % 2 ≡ 0)
top_bit c = omega arith

read_ue-one : (r r' : RbspBitReader) → read_bit r ≡ some (1, r') → is_zero_value (read_ue r) ≡ true
unfolding read_ue is_zero_value
read_ue-one r r' e =
    let first = leading_zeros-one 31 0 r r' 0 e in rw (first, read_ue_after-first r') refl

read_ue-zero :
    (r r' : RbspBitReader) → read_bit r ≡ some (0, r') → is_zero_value (read_ue r) ≡ false
unfolding read_ue is_zero_value
read_ue-zero r r' e =
    let first = leading_zeros-zero 31 0 r r' e in
    rw first (is_zero_value-later (leading_zeros 31 1 r') (λ n s. leading_zeros-le 31 1 r' s n))

starts_with : (c : ℕ) (cs : Bytes) → is_zero_value (read_ue (reader (c ∷ cs))) ≡ has_bit c 7
starts_with c cs =
    let r : RbspBitReader = record { data' = c ∷ cs; byte_offset = 0; bit_offset = 1 } in
    let bit : (b : ℕ) → c / 128 % 2 ≡ b → read_bit (reader (c ∷ cs)) ≡ some (b, r) =
      λ b e. read_bit-first c cs ∙ ap (λ (x : ℕ). some (x, r)) e in
    elim (top_bit c) [
      | inl e ↦ ground (arith, e, read_ue-one (reader (c ∷ cs)) r (bit 1 e))
      | inr e ↦ ground (arith, e, read_ue-zero (reader (c ∷ cs)) r (bit 0 e))
    ]

-- A slice is taken for the first of its frame if and only if it has a byte behind its NAL header and
-- the highest bit of that byte is set: the code of `first_mb_in_slice` is then the one of 0.
pub first_slice_starts_frame-top_bit :
    (nal : Bytes) → first_slice_starts_frame nal ≡ leb 2 (length nal) && has_bit (byte_at nal 1) 7
unfolding first_slice_starts_frame
first_slice_starts_frame-top_bit [] = refl
first_slice_starts_frame-top_bit (h ∷ []) = refl
first_slice_starts_frame-top_bit (h ∷ (c ∷ cs)) = ground (arith, starts_with c cs)
