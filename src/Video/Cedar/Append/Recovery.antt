-- ===== src/Video/Cedar/Append/Recovery.antt =====
-- A decoder recovers with the first IDR picture: what a library that has room is given for it.
use openhd_glide.Base.{
  ℕ, zero, suc, ◌+◌, ◌%◌, ◌≤◌, ◌≡◌, ◌≢◌, refl, Bool, true, false, [], ◌∷◌, ◌++◌, ltb, ◌==◌, some,
  length, take, drop, take-append-drop, Bytes, arith,
}
use openhd_glide.Base.Int.{ℤ, pos, negsuc, ltb_ℤ}
use openhd_glide.Video.Rtp.{byte_at, has_bit, sequence_delta}
use openhd_glide.Video.Cedar.{Cedar, Library}
use openhd_glide.Video.Cedar.Units.{
  append_nal, append_parameters, reset_access_unit, loop_result, decode_loop, count_unit,
  after_decode, after_submit, after_request, submit_access_unit,
}
use openhd_glide.Video.Cedar.Append.{follow_sequence}

-- The library has room for a unit, takes it, and does not report an unsupported stream.
pub record HasRoom {S : Type 0} (lib : Library S) : Type 0 where
  pub room :
      (s : S) (n : ℕ)
      → (s' : S) × (size : ℕ) × (ring_size : ℕ) × (lib.request_buffer s n
          ≡ (s', some (size, ring_size)))
        × (ltb (size + ring_size) n ≡ false)
  pub takes :
      (s : S) (first second : Bytes) (n pts : ℕ) → (lib.submit_data s first second n pts).1 ≡ true
  pub supports : (s : S) → loop_result (lib.decode s).1 ≢ some false

-- The unit `unit` has gone to the library, and with it the wait for an IDR slice.
pub record IsSubmitted {S : Type 0} (d : Cedar S) (unit : Bytes) (r : Cedar S × Bool) : Type 0 where
  pub succeeds : r.1 ≡ true
  pub logged : r.0.submitted ≡ d.submitted ++ (unit, d.current_timestamp) ∷ []
  pub is_clear : r.0.access_unit ≡ []
  pub same_idr : r.0.require_idr ≡ d.require_idr

decode_loop-true :
    {S : Type 0} (lib : Library S) (n : ℕ) (s : S) → HasRoom lib → (decode_loop lib n s).1 ≡ true
unfolding decode_loop
decode_loop-true lib zero s h = refl
decode_loop-true lib (suc n) s h =
    ground (arith, h.supports s, decode_loop-true lib n (lib.decode s).0 h)

after_decode-IsSubmitted :
    {S : Type 0} (d : Cedar S) (unit : Bytes) (r : S × Bool)
    → r.1 ≡ true
    → IsSubmitted d unit (after_decode (count_unit d unit) r)
unfolding after_decode
after_decode-IsSubmitted d unit (s, true) e = record {
  succeeds = refl;
  logged = refl;
  is_clear = refl;
  same_idr = refl;
}
after_decode-IsSubmitted d unit (s, false) e = cc e

after_submit-IsSubmitted :
    {S : Type 0} (lib : Library S) (d : Cedar S) (unit : Bytes) (r : S × Bool)
    → HasRoom lib
    → r.1 ≡ true
    → IsSubmitted d unit (after_submit lib d unit r)
unfolding after_submit
after_submit-IsSubmitted lib d unit (s, true) h e =
    after_decode-IsSubmitted d unit (decode_loop lib 8 s) (decode_loop-true lib 8 s h)
after_submit-IsSubmitted lib d unit (s, false) h e = cc e

-- A unit that has bytes is submitted as it is, in its two parts.
pub submit_access_unit-IsSubmitted :
    {S : Type 0} (lib : Library S) (d : Cedar S)
    → HasRoom lib
    → (length d.access_unit == 0) ≡ false
    → IsSubmitted d d.access_unit (submit_access_unit lib d)
unfolding submit_access_unit after_request
submit_access_unit-IsSubmitted lib d h n =
    let (s, size, ring_size, e, f) = h.room d.library (length d.access_unit) in
    let unit = d.access_unit in
    let taken = h.takes s (take size unit) (drop size unit) (length unit) d.current_timestamp in
    rw (n, e, f)
      (rw (take-append-drop size unit) (
        after_submit-IsSubmitted lib d unit
          (lib.submit_data s (take size unit) (drop size unit) (length unit) d.current_timestamp) h
          taken))

-- An IDR slice: the type is 5, and the first macroblock of it is the first of the picture.
pub record IsIdr (nal : Bytes) : Type 0 where
  pub idr_type : byte_at nal 0 % 32 ≡ 5
  pub has_header : 2 ≤ length nal
  pub first_slice : has_bit (byte_at nal 1) 7 ≡ true

-- The picture as the decoder gives it to the library: the cached parameter sets, then the slice.
abbrev pub idr_unit : Bytes → Bytes → Bytes → Bytes
idr_unit sps pps nal = append_nal (append_parameters (append_parameters [] sps) pps) nal

-- `d` once the IDR slice has been put behind its empty unit.
abbrev idr_state : {S : Type 0} → Cedar S → Bytes → Cedar S
idr_state d nal = record d {
  fu_started = false;
  access_unit = idr_unit d.sps d.pps nal;
  require_idr = false;
  access_unit_has_vcl = true;
}

-- The decoder behind a packet that shows a loss.
abbrev pub after_gap : {S : Type 0} → Cedar S → ℕ → Cedar S
after_gap d sequence = record (reset_access_unit (record d { dropping_timestamp = false })) {
  rtp_sequence_gaps = suc d.rtp_sequence_gaps;
  require_idr = true;
  expected_sequence = (sequence + 1) % 65536;
  have_sequence = true;
}

pub not_behind : (z : ℤ) → ltb_ℤ (pos 0) z ≡ true → ltb_ℤ z (pos 0) ≡ false
not_behind (pos n) g = ground arith
not_behind (negsuc n) g = ground arith

pub follow_sequence-gap :
    {S : Type 0} (d : Cedar S) (sequence : ℕ)
    → d.have_sequence ≡ true
    → ltb_ℤ (pos 0) (sequence_delta sequence d.expected_sequence) ≡ true
    → ltb_ℤ (sequence_delta sequence d.expected_sequence) (pos 0) ≡ false
    → follow_sequence (record d { dropping_timestamp = false }) sequence
      ≡ (after_gap d sequence, true)
unfolding follow_sequence
follow_sequence-gap d sequence s g l = rw (s, g, l) refl
