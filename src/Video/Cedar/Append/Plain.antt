-- ===== src/Video/Cedar/Append/Plain.antt =====
-- Access units with no slices, and a decoder that waits for an IDR slice.

use openhd_glide.Base.{
  ℕ, ◌+◌, ◌*◌, ◌/◌, ◌%◌, ◌==◌, leb, ◌&&◌, take, drop, ◌≡◌, refl, sym, ap, subst, ◌∙◌, Bool, true,
  false, List, [], ◌∷◌, ◌++◌, All, append_assoc, Bytes, arith,
}
use openhd_glide.Video.Rtp.{byte_at}
use openhd_glide.Video.Cedar.{Cedar}
use openhd_glide.Video.Cedar.Units.{
  append_nal, append_aud_if_needed, nal_is_vcl, reset_access_unit, cache_parameter_set,
}

abbrev pub NoSlice : Bytes → Type 0
NoSlice nal = nal_is_vcl (byte_at nal 0 % 32) ≡ false

abbrev pub kind_of : Bytes → ℕ
kind_of payload = byte_at payload 0 % 32

-- What fragments among the payloads that `P` holds of give: the first its header, and each its data.
pub data IsJoined (P : Bytes → Type 0) : Bytes → Type 0 where
  begun :
      (payload : Bytes)
      → P payload
      → (kind_of payload == 28) ≡ true
      → IsJoined P ((byte_at payload 0 / 32 * 32 + byte_at payload 1 % 32) ∷ [])
  continued :
      (payload nal : Bytes)
      → P payload
      → (kind_of payload == 28) ≡ true
      → IsJoined P nal
      → IsJoined P (nal ++ drop 2 payload)

-- The NALs that come in the payloads that `P` holds of: a single NAL is the payload, an aggregation
-- packet holds some of its bytes, and fragments are joined.
pub data CameIn (P : Bytes → Type 0) : Bytes → Type 0 where
  single :
      (payload : Bytes)
      → P payload
      → (leb 1 (kind_of payload) && leb (kind_of payload) 23) ≡ true
      → CameIn P payload
  part :
      (payload : Bytes) (from size : ℕ)
      → P payload
      → (kind_of payload == 24) ≡ true
      → CameIn P (take size (drop from payload))
  joined : (nal : Bytes) → IsJoined P nal → CameIn P nal

-- A unit of NALs that came in the payloads, none of which is a slice.
pub data IsPlain (P : Bytes → Type 0) : Bytes → Type 0 where
  no_nals : IsPlain P []
  one_more :
      (unit nal : Bytes)
      → IsPlain P unit
      → NoSlice nal
      → CameIn P nal
      → IsPlain P (append_nal unit nal)

-- The last NAL has its header byte, so that more bytes leave its type as it is.
pub record IsOpen (P : Bytes → Type 0) (unit : Bytes) : Type 0 where
  pub before : Bytes
  pub header : ℕ
  pub bytes : Bytes
  pub splits : unit ≡ append_nal before (header ∷ bytes)
  pub before_plain : IsPlain P before
  pub no_slice : nal_is_vcl (header % 32) ≡ false
  pub came : IsJoined P (header ∷ bytes)

-- What `IsWaiting` says of the five fields that it reads.
pub record Waits (P : Bytes → Type 0) (base : List (Bytes × ℕ)) (idr vcl : Bool) (unit : Bytes)
    (fu : Bool) (log : List (Bytes × ℕ)) : Type 0 where
  pub waits : idr ≡ true
  pub no_slices : vcl ≡ false
  pub plain : IsPlain P unit
  pub open_nal : fu ≡ true → IsOpen P unit
  pub units : List (Bytes × ℕ)
  pub accepted : log ≡ base ++ units
  pub units_plain : All (λ u. IsPlain P u.0) units

-- The decoder waits, and `base` is what the library had accepted when it began to: all that came
-- behind is plain.
abbrev pub IsWaiting : {S : Type 0} → (Bytes → Type 0) → List (Bytes × ℕ) → Cedar S → Type 0
IsWaiting P base d =
    Waits P base d.require_idr d.access_unit_has_vcl d.access_unit d.fu_started d.submitted

pub append_nal-more :
    (unit nal bytes : Bytes) → append_nal unit nal ++ bytes ≡ append_nal unit (nal ++ bytes)
unfolding append_nal
append_nal-more unit nal bytes =
    append_assoc (append_aud_if_needed unit) (0 ∷ 0 ∷ 0 ∷ 1 ∷ nal) bytes

pub IsOpen-IsPlain : (P : Bytes → Type 0) (unit : Bytes) → IsOpen P unit → IsPlain P unit
IsOpen-IsPlain P unit o = subst (IsPlain P) (sym o.splits) (
    one_more o.before (o.header ∷ o.bytes) o.before_plain o.no_slice
      (joined (o.header ∷ o.bytes) o.came))

pub IsOpen-more :
    (P : Bytes → Type 0) (unit payload : Bytes)
    → P payload
    → (kind_of payload == 28) ≡ true
    → IsOpen P unit
    → IsOpen P (unit ++ drop 2 payload)
IsOpen-more P unit payload q k o = record {
  before = o.before;
  header = o.header;
  bytes = o.bytes ++ drop 2 payload;
  splits =
      ap (λ (u : Bytes). u ++ drop 2 payload) o.splits
      ∙ append_nal-more o.before (o.header ∷ o.bytes) (drop 2 payload);
  before_plain = o.before_plain;
  no_slice = o.no_slice;
  came = continued payload (o.header ∷ o.bytes) q k o.came;
}

pub reset_access_unit-IsWaiting :
    {S : Type 0} (P : Bytes → Type 0) (base : List (Bytes × ℕ)) (d : Cedar S)
    → IsWaiting P base d
    → IsWaiting P base (reset_access_unit d)
unfolding reset_access_unit
reset_access_unit-IsWaiting P base d w = record {
  waits = w.waits;
  no_slices = refl;
  plain = no_nals;
  open_nal = λ e. cc e;
  units = w.units;
  accepted = w.accepted;
  units_plain = w.units_plain;
}

-- The fields that `IsWaiting` reads.
pub record IsSame {S : Type 0} (d d' : Cedar S) : Type 0 where
  pub same_idr : d'.require_idr ≡ d.require_idr
  pub same_vcl : d'.access_unit_has_vcl ≡ d.access_unit_has_vcl
  pub same_unit : d'.access_unit ≡ d.access_unit
  pub same_fu : d'.fu_started ≡ d.fu_started
  pub same_log : d'.submitted ≡ d.submitted

pub IsWaiting-same :
    {S : Type 0} (P : Bytes → Type 0) (base : List (Bytes × ℕ)) (d d' : Cedar S)
    → IsSame d d'
    → IsWaiting P base d
    → IsWaiting P base d'
IsWaiting-same P base d d' s w = record {
  waits = s.same_idr ∙ w.waits;
  no_slices = s.same_vcl ∙ w.no_slices;
  plain = subst (IsPlain P) (sym s.same_unit) w.plain;
  open_nal = λ e. subst (IsOpen P) (sym s.same_unit) (w.open_nal (sym s.same_fu ∙ e));
  units = w.units;
  accepted = s.same_log ∙ w.accepted;
  units_plain = w.units_plain;
}

pub cache_parameter_set-IsSame :
    {S : Type 0} (d : Cedar S) (nal : Bytes) → IsSame d (cache_parameter_set d nal)
unfolding cache_parameter_set
cache_parameter_set-IsSame d nal = record {
  same_idr = ground arith;
  same_vcl = ground arith;
  same_unit = ground arith;
  same_fu = ground arith;
  same_log = ground arith;
}
