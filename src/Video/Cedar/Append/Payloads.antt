-- ===== src/Video/Cedar/Append/Payloads.antt =====
-- What a decoder that waits for an IDR slice does with a payload.

use openhd_glide.Base.{
  Bool-cases, inl, inr, ℕ, zero, suc, ◌+◌, ◌*◌, ◌/◌, ◌%◌, ◌≡◌, refl, Bool, true, false, not, ◌&&◌,
  ◌||◌, List, [], ◌∷◌, ◌++◌, ltb, leb, ◌==◌, if◌then◌else◌, if_elim, length, get_or, take, drop,
  Bytes, arith,
}
use openhd_glide.Video.Rtp.{byte_at, has_bit}
use openhd_glide.Video.Cedar.{Cedar, and_then}
use openhd_glide.Video.Cedar.Units.{append_nal, nal_is_vcl}
use openhd_glide.Video.Cedar.Append.{
  add_nal, stap_loop, start_fragment, continue_fragment, with_bytes, append_fragment, append_nals,
}
use openhd_glide.Video.Cedar.Append.Plain.{
  CameIn, IsJoined, single, part, begun, NoSlice, IsOpen, IsWaiting, IsOpen-IsPlain, IsOpen-more,
}
use openhd_glide.Video.Cedar.Append.Gate.{
  IsClosed, admit-slice, admit-other, drop_waiting-IsWaiting, add_nal-IsClosed,
}

-- No NAL of an aggregation packet is taken for an IDR slice.
unfoldable pub stap_has_idr : ℕ → Bytes → ℕ → Bool
stap_has_idr zero rest next = false
stap_has_idr (suc fuel) rest next =
    let nal_size = byte_at rest 0 * 256 + byte_at rest 1 in
    let behind = drop 2 rest in
    let later = stap_has_idr fuel (drop nal_size behind) next in
    if ltb (length rest) 2
    then false
    else if ltb (length behind) nal_size
    then false
    else get_or behind 0 next % 32 == 5 || later

pub take-NoSlice :
    (behind : Bytes) (n next : ℕ)
    → ltb (length behind) n ≡ false
    → nal_is_vcl (get_or behind 0 next % 32) ≡ false
    → NoSlice (take n behind)
unfolding nal_is_vcl
take-NoSlice behind zero next h v = refl
take-NoSlice [] (suc n) next h v = ground arith
take-NoSlice (b ∷ behind) (suc n) next h v = v

pub and_then-IsClosed :
    {S : Type 0} (P : Bytes → Type 0) (base : List (Bytes × ℕ)) (r : Cedar S × Bool)
    (k : Cedar S → Cedar S × Bool)
    → IsClosed P base r
    → ((d : Cedar S) → IsClosed P base (d, true) → IsClosed P base (k d))
    → IsClosed P base (and_then r k)
and_then-IsClosed P base (d, true) k c h = h d c
and_then-IsClosed P base (d, false) k c h = c

-- The length that stands in front of a NAL of an aggregation packet.
abbrev pub nal_size : Bytes → ℕ
nal_size rest = byte_at rest 0 * 256 + byte_at rest 1

pub stap_has_idr-step :
    (fuel : ℕ) (rest : Bytes) (next : ℕ)
    → ltb (length rest) 2 ≡ false
    → ltb (length (drop 2 rest)) (nal_size rest) ≡ false
    → stap_has_idr (suc fuel) rest next ≡ false
    → ((get_or (drop 2 rest) 0 next % 32 == 5) ≡ false)
      × (stap_has_idr fuel (drop (nal_size rest) (drop 2 rest)) next ≡ false)
unfolding stap_has_idr
stap_has_idr-step fuel rest next e e' h = ground arith

parts-drop :
    (P : Bytes → Type 0) (k : ℕ) (bytes : Bytes)
    → ((from size : ℕ) → CameIn P (take size (drop from bytes)))
    → (from size : ℕ) → CameIn P (take size (drop from (drop k bytes)))
parts-drop P zero bytes h from size = h from size
parts-drop P (suc k) [] h from size = h from size
parts-drop P (suc k) (b ∷ bytes) h from size = parts-drop P k bytes (λ m n. h (suc m) n) from size

pub stap_loop-IsClosed :
    {S : Type 0} (P : Bytes → Type 0) (base : List (Bytes × ℕ)) (fuel : ℕ) (d : Cedar S)
    (rest : Bytes) (next timestamp : ℕ)
    → IsClosed P base (d, true)
    → stap_has_idr fuel rest next ≡ false
    → ((from size : ℕ) → CameIn P (take size (drop from rest)))
    → IsClosed P base (stap_loop fuel d rest next timestamp)
unfolding stap_loop
stap_loop-IsClosed P base zero d rest next timestamp c h parts = c
stap_loop-IsClosed P base (suc fuel) d rest next timestamp c h parts =
    let behind = drop 2 rest in
    let kind = get_or behind 0 next % 32 in
    if_elim (IsClosed P base) (ltb (length rest) 2) (λ e. c)
      (λ e.
        if_elim (IsClosed P base) (ltb (length behind) (nal_size rest)) (λ e'. c)
          (λ e'.
            let (k, later) = stap_has_idr-step fuel rest next e e' h in
            and_then-IsClosed P base (add_nal d (take (nal_size rest) behind) kind timestamp)
              (λ d'. stap_loop fuel d' (drop (nal_size rest) behind) next timestamp)
              (add_nal-IsClosed P base d (take (nal_size rest) behind) kind timestamp c k
                (take-NoSlice behind (nal_size rest) next e') (parts 2 (nal_size rest)))
              (λ d' c'.
                stap_loop-IsClosed P base fuel d' (drop (nal_size rest) behind) next timestamp c'
                  later (parts-drop P (nal_size rest) behind (parts-drop P 2 rest parts)))))

-- Fragments.
pub start_fragment-IsWaiting :
    {S : Type 0} (P : Bytes → Type 0) (base : List (Bytes × ℕ)) (d : Cedar S) (reconstructed : ℕ)
    (bytes : Bytes) (timestamp : ℕ)
    → IsWaiting P base d
    → (reconstructed % 32 == 5) ≡ false
    → IsJoined P (reconstructed ∷ [])
    → let r = start_fragment d reconstructed bytes timestamp in
      IsWaiting P base r.0 × (r.1 ≡ true → IsOpen P r.0.access_unit)
unfolding start_fragment
start_fragment-IsWaiting P base d reconstructed bytes timestamp w k q =
    elim (Bool-cases (nal_is_vcl (reconstructed % 32))) [
      | inl v ↦
          rw (admit-slice d (reconstructed ∷ bytes) (reconstructed % 32) timestamp v w.waits k)
            (drop_waiting-IsWaiting P base d timestamp w, λ e. cc e)
      | inr v ↦
          let opened : IsOpen P (append_nal d.access_unit (reconstructed ∷ [])) = record {
            before = d.access_unit;
            header = reconstructed;
            bytes = [];
            splits = refl;
            before_plain = w.plain;
            no_slice = v;
            came = q;
          } in
          rw (admit-other d (reconstructed ∷ bytes) (reconstructed % 32) timestamp v) (
            record {
              waits = w.waits;
              no_slices = w.no_slices;
              plain = IsOpen-IsPlain P (append_nal d.access_unit (reconstructed ∷ [])) opened;
              open_nal = λ e. opened;
              units = w.units;
              accepted = w.accepted;
              units_plain = w.units_plain;
            },
            λ e. opened,
          )
    ]

pub continue_fragment-IsWaiting :
    {S : Type 0} (P : Bytes → Type 0) (base : List (Bytes × ℕ)) (d : Cedar S) (timestamp : ℕ)
    → IsWaiting P base d
    → let r = continue_fragment d timestamp in
      IsWaiting P base r.0 × (r.1 ≡ true → IsOpen P r.0.access_unit)
continue_fragment-IsWaiting {S} P base d timestamp w =
    if_elim (λ (r : Cedar S × Bool). IsWaiting P base r.0 × (r.1 ≡ true → IsOpen P r.0.access_unit))
      (not d.fu_started || not (d.fu_timestamp == timestamp)) (λ e. (w, λ f. cc f))
      (λ e. (w, λ f. w.open_nal (ground arith)))

pub with_bytes-IsWaiting :
    {S : Type 0} (P : Bytes → Type 0) (base : List (Bytes × ℕ)) (r : Cedar S × Bool)
    (payload : Bytes) (end : Bool)
    → P payload
    → (byte_at payload 0 % 32 == 28) ≡ true
    → IsWaiting P base r.0 × (r.1 ≡ true → IsOpen P r.0.access_unit)
    → IsWaiting P base (and_then r (λ d. with_bytes d (drop 2 payload) end)).0
with_bytes-IsWaiting P base (d, false) payload end q k (w, o) = w
with_bytes-IsWaiting P base (d, true) payload end q k (w, o) =
    let more = IsOpen-more P d.access_unit payload q k (o refl) in
    record {
      waits = w.waits;
      no_slices = w.no_slices;
      plain = IsOpen-IsPlain P (d.access_unit ++ drop 2 payload) more;
      open_nal = λ e. more;
      units = w.units;
      accepted = w.accepted;
      units_plain = w.units_plain;
    }

-- The payload brings a NAL that is taken for an IDR slice, or the start of one.
unfoldable pub has_idr : Bytes → ℕ → Bool
has_idr payload next =
    let kind = byte_at payload 0 % 32 in
    if leb 1 kind && leb kind 23
    then kind == 5
    else if kind == 24
    then stap_has_idr (length payload) (drop 1 payload) next
    else has_bit (byte_at payload 1) 7 && byte_at payload 1 % 32 == 5

has_idr-single :
    (payload : Bytes) (next : ℕ)
    → (leb 1 (byte_at payload 0 % 32) && leb (byte_at payload 0 % 32) 23) ≡ true
    → has_idr payload next ≡ false
    → (byte_at payload 0 % 32 == 5) ≡ false
unfolding has_idr
has_idr-single payload next e h = ground arith

has_idr-stap :
    (payload : Bytes) (next : ℕ)
    → (byte_at payload 0 % 32 == 24) ≡ true
    → has_idr payload next ≡ false
    → stap_has_idr (length payload) (drop 1 payload) next ≡ false
unfolding has_idr
has_idr-stap payload next e h = ground arith

has_idr-fragment :
    (payload : Bytes) (next : ℕ)
    → (byte_at payload 0 % 32 == 28) ≡ true
    → has_bit (byte_at payload 1) 7 ≡ true
    → has_idr payload next ≡ false
    → ((byte_at payload 0 / 32 * 32 + byte_at payload 1 % 32) % 32 == 5) ≡ false
unfolding has_idr
has_idr-fragment payload next e s h = ground arith

append_fragment-IsWaiting :
    {S : Type 0} (P : Bytes → Type 0) (base : List (Bytes × ℕ)) (d : Cedar S) (payload : Bytes)
    (next timestamp : ℕ)
    → IsWaiting P base d
    → (byte_at payload 0 % 32 == 28) ≡ true
    → has_idr payload next ≡ false
    → P payload
    → IsWaiting P base (append_fragment d payload timestamp).0
unfolding append_fragment
append_fragment-IsWaiting {S} P base d payload next timestamp w e h q =
    let header = byte_at payload 1 in
    let reconstructed = byte_at payload 0 / 32 * 32 + header % 32 in
    with_bytes-IsWaiting P base
      (if has_bit header 7
        then start_fragment d reconstructed (drop 2 payload) timestamp
        else continue_fragment d timestamp)
      payload (has_bit header 6) q e
      (if_elim
        (λ (r : Cedar S × Bool). IsWaiting P base r.0 × (r.1 ≡ true → IsOpen P r.0.access_unit))
        (has_bit header 7)
        (λ s.
          start_fragment-IsWaiting P base d reconstructed (drop 2 payload) timestamp w
            (has_idr-fragment payload next e s h) (begun payload q e))
        (λ s. continue_fragment-IsWaiting P base d timestamp w))

pub append_nals-IsWaiting :
    {S : Type 0} (P : Bytes → Type 0) (base : List (Bytes × ℕ)) (d : Cedar S) (payload : Bytes)
    (next timestamp : ℕ)
    → IsWaiting P base d
    → has_idr payload next ≡ false
    → P payload
    → IsWaiting P base (append_nals d payload next timestamp).0
unfolding append_nals
append_nals-IsWaiting {S} P base d payload next timestamp w h q =
    let closed : Cedar S = record d { fu_started = false } in
    let c : IsClosed P base (closed, true) = (
      record {
        waits = w.waits;
        no_slices = w.no_slices;
        plain = w.plain;
        open_nal = λ e. cc e;
        units = w.units;
        accepted = w.accepted;
        units_plain = w.units_plain;
      },
      refl,
    ) in
    let Result : Cedar S × Bool → Type 0 = λ r. IsWaiting P base r.0 in
    if_elim Result (leb 1 (byte_at payload 0 % 32) && leb (byte_at payload 0 % 32) 23)
      (λ e.
        (add_nal-IsClosed P base closed payload (byte_at payload 0 % 32) timestamp c
          (has_idr-single payload next e h) (λ v. v) (single payload q e)).0)
      (λ e.
        if_elim Result (byte_at payload 0 % 32 == 24)
          (λ a.
            (stap_loop-IsClosed P base (length payload) closed (drop 1 payload) next timestamp c
              (has_idr-stap payload next a h)
              (parts-drop P 1 payload (λ from size. part payload from size q a))).0)
          (λ a.
            if_elim Result (byte_at payload 0 % 32 == 28 && leb 2 (length payload))
              (λ f. append_fragment-IsWaiting P base d payload next timestamp w (ground arith) h q)
              (λ f. w)))
