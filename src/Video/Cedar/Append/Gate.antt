-- ===== src/Video/Cedar/Append/Gate.antt =====
-- What a decoder that waits for an IDR slice does with a NAL.

use openhd_glide.Base.{
  Bool-cases, inl, inr, ℕ, ◌≡◌, refl, ◌∙◌, Bool, true, false, List, ◌==◌, Bytes,
}
use openhd_glide.Video.Cedar.{Cedar}
use openhd_glide.Video.Cedar.Units.{nal_is_vcl, reset_access_unit, cache_parameter_set}
use openhd_glide.Video.Cedar.Append.{drop_waiting, admit, with_nal, add_nal}
use openhd_glide.Video.Cedar.Append.Plain.{
  NoSlice, CameIn, one_more, IsWaiting, reset_access_unit-IsWaiting, IsWaiting-same,
  cache_parameter_set-IsSame,
}

pub admit-slice :
    {S : Type 0} (d : Cedar S) (nal : Bytes) (kind timestamp : ℕ)
    → nal_is_vcl kind ≡ true
    → d.require_idr ≡ true
    → (kind == 5) ≡ false
    → admit d nal kind timestamp ≡ (drop_waiting d timestamp, false)
unfolding admit
admit-slice d nal kind timestamp v w k = rw (v, w, k) refl

pub admit-other :
    {S : Type 0} (d : Cedar S) (nal : Bytes) (kind timestamp : ℕ)
    → nal_is_vcl kind ≡ false
    → admit d nal kind timestamp ≡ (d, true)
unfolding admit
admit-other d nal kind timestamp v = rw v refl

pub drop_waiting-IsWaiting :
    {S : Type 0} (P : Bytes → Type 0) (base : List (Bytes × ℕ)) (d : Cedar S) (timestamp : ℕ)
    → IsWaiting P base d
    → IsWaiting P base (drop_waiting d timestamp)
drop_waiting-IsWaiting P base d timestamp w = reset_access_unit-IsWaiting P base d w

-- The decoder waits behind the step, and no fragmented NAL is open.
abbrev pub IsClosed : {S : Type 0} → (Bytes → Type 0) → List (Bytes × ℕ) → Cedar S × Bool → Type 0
IsClosed P base r = IsWaiting P base r.0 × (r.0.fu_started ≡ false)

pub with_nal-IsClosed :
    {S : Type 0} (P : Bytes → Type 0) (base : List (Bytes × ℕ)) (d : Cedar S) (nal : Bytes)
    → IsClosed P base (d, true)
    → NoSlice nal
    → CameIn P nal
    → IsClosed P base (with_nal d nal)
with_nal-IsClosed P base d nal (w, f) n q = (
  record {
    waits = w.waits;
    no_slices = w.no_slices;
    plain = one_more d.access_unit nal w.plain n q;
    open_nal = λ e. cc (f, e);
    units = w.units;
    accepted = w.accepted;
    units_plain = w.units_plain;
  },
  f,
)

pub drop_waiting-closed :
    {S : Type 0} (d : Cedar S) (timestamp : ℕ) → (drop_waiting d timestamp).fu_started ≡ false
unfolding reset_access_unit
drop_waiting-closed d timestamp = refl

-- A NAL whose type is read from the byte `kind` comes from.
pub add_nal-IsClosed :
    {S : Type 0} (P : Bytes → Type 0) (base : List (Bytes × ℕ)) (d : Cedar S) (nal : Bytes)
    (kind timestamp : ℕ)
    → IsClosed P base (d, true)
    → (kind == 5) ≡ false
    → (nal_is_vcl kind ≡ false → NoSlice nal)
    → CameIn P nal
    → IsClosed P base (add_nal d nal kind timestamp)
unfolding add_nal
add_nal-IsClosed P base d nal kind timestamp (w, f) k n q =
    let d' = cache_parameter_set d nal in
    let same = cache_parameter_set-IsSame d nal in
    let w' = IsWaiting-same P base d d' same w in
    elim (Bool-cases (nal_is_vcl kind)) [
      | inl v ↦
          rw (admit-slice d' nal kind timestamp v w'.waits k)
            (drop_waiting-IsWaiting P base d' timestamp w', drop_waiting-closed d' timestamp)
      | inr v ↦
          rw (admit-other d' nal kind timestamp v)
            (with_nal-IsClosed P base d' nal (w', same.same_fu ∙ f) (n v) q)
    ]
