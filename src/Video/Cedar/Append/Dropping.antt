-- ===== src/Video/Cedar/Append/Dropping.antt =====
-- The packets of a picture that is being dropped, and the packet behind them.
use openhd_glide.Base.{
  ℕ, ◌+◌, inl, sym, subst, ap, ◌%◌, ◌<◌, ◌≤◌, ◌≡◌, refl, ◌∙◌, Bool, true, false, ◌&&◌, ◌==◌, List,
  [], ◌∷◌, ◌++◌, All, length, Bytes, arith,
}
use openhd_glide.Base.Int.{pos, ltb_ℤ}
use openhd_glide.Video.Rtp.{sequence_delta}
use openhd_glide.Video.Cedar.{Cedar, Library}
use openhd_glide.Video.Cedar.Units.{reset_access_unit}
use openhd_glide.Video.Cedar.Append.{append_in_time, append_h264_payload}
use openhd_glide.Video.Cedar.Append.Plain.{IsPlain, IsWaiting}
use openhd_glide.Video.Cedar.Append.Payloads.{has_idr}
use openhd_glide.Video.Cedar.Append.Waiting.{
  Payload, append_all, IsOneOf, IsWaiting-start, append_in_time-IsWaiting,
}
use openhd_glide.Video.Cedar.Append.Recovery.{after_gap, follow_sequence-gap, not_behind}

-- The number `n` places behind the expected one is taken for one behind a gap.
sequence_delta-ahead :
    (e n : ℕ)
    → e < 65536
    → 1 ≤ n
    → n < 32768
    → ltb_ℤ (pos 0) (sequence_delta ((e + n) % 65536) e) ≡ true
unfolding sequence_delta
sequence_delta-ahead e n h one small = ground arith

append_h264_payload-ignored :
    {S : Type 0} (lib : Library S) (d : Cedar S) (p : Payload)
    → d.dropping_timestamp ≡ true
    → p.timestamp ≡ d.drop_timestamp
    → append_h264_payload lib d p.bytes p.next p.marker p.sequence p.timestamp ≡ (d, true)
unfolding append_h264_payload
append_h264_payload-ignored lib d p drops t = ground (arith, drops, t)

-- The packets that are ignored, and one behind them.
append_all-last :
    {S : Type 0} (lib : Library S) (d : Cedar S) (ignored : List Payload) (p : Payload)
    → d.dropping_timestamp ≡ true
    → All (λ q. q.timestamp ≡ d.drop_timestamp) ignored
    → append_all lib d (ignored ++ p ∷ [])
      ≡ (append_h264_payload lib d p.bytes p.next p.marker p.sequence p.timestamp).0
unfolding append_all
append_all-last lib d [] p drops h = refl
append_all-last {S} lib d (q ∷ qs) p drops h =
    ap (λ (r : Cedar S × Bool). append_all lib r.0 (qs ++ p ∷ []))
      (append_h264_payload-ignored lib d q drops h.0)
    ∙ append_all-last lib d qs p drops h.1

-- The packet behind a gap, at a time stamp that is not dropped.
append_h264_payload-gap :
    {S : Type 0} (lib : Library S) (d : Cedar S) (p : Payload)
    → (length p.bytes == 0) ≡ false
    → (d.dropping_timestamp && p.timestamp == d.drop_timestamp) ≡ false
    → d.have_sequence ≡ true
    → ltb_ℤ (pos 0) (sequence_delta p.sequence d.expected_sequence) ≡ true
    → append_h264_payload lib d p.bytes p.next p.marker p.sequence p.timestamp
      ≡ append_in_time lib (after_gap d p.sequence) p.bytes p.next p.marker p.timestamp
unfolding append_h264_payload
append_h264_payload-gap lib d p n k s g =
    rw (n, k)
      (rw
        (follow_sequence-gap d p.sequence s g
          (not_behind (sequence_delta p.sequence d.expected_sequence) g))
        refl)

after_gap-IsWaiting :
    {S : Type 0} (P : Bytes → Type 0) (d : Cedar S) (sequence : ℕ)
    → IsWaiting P d.submitted (after_gap d sequence)
unfolding reset_access_unit
after_gap-IsWaiting P d sequence = IsWaiting-start P (after_gap d sequence) refl refl refl refl

-- What the library has been given since: units of NALs of the one payload, none of them a slice.
pub record GivesNoSlice {S : Type 0} (d d' : Cedar S) (p : Payload) : Type 0 where
  pub waits : d'.require_idr ≡ true
  pub units : List (Bytes × ℕ)
  pub given : d'.submitted ≡ d.submitted ++ units
  pub plain : All (λ u. IsPlain (IsOneOf (p ∷ [])) u.0) units

-- What the packets of a dropped picture do to the next picture, though none is lost: any number of
-- payloads, from 1 to 32767, with the time stamp that is being dropped, and then one with another time
-- stamp whose sequence number is as far behind the expected one as there were payloads. If this one
-- has bytes and holds no IDR slice and starts none, then the decoder waits for an IDR slice, as behind
-- a loss, whether it waited before or not, and no slice is given to the library.
pub append_all-dropped :
    {S : Type 0} (lib : Library S) (d : Cedar S) (dropped : List Payload) (p : Payload)
    → d.dropping_timestamp ≡ true
    → d.have_sequence ≡ true
    → d.expected_sequence < 65536
    → All (λ q. q.timestamp ≡ d.drop_timestamp) dropped
    → 1 ≤ length dropped
    → length dropped < 32768
    → (p.timestamp == d.drop_timestamp) ≡ false
    → p.sequence ≡ (d.expected_sequence + length dropped) % 65536
    → 1 ≤ length p.bytes
    → has_idr p.bytes p.next ≡ false
    → GivesNoSlice d (append_all lib d (dropped ++ p ∷ [])) p
append_all-dropped {S} lib d dropped p drops s e h one few t number full no_idr =
    let some_bytes : (length p.bytes == 0) ≡ false = ground (arith, full) in
    let kept : (d.dropping_timestamp && p.timestamp == d.drop_timestamp) ≡ false =
      rw (drops, t) refl in
    let ahead : ltb_ℤ (pos 0) (sequence_delta p.sequence d.expected_sequence) ≡ true =
      rw number (sequence_delta-ahead d.expected_sequence (length dropped) e one few) in
    let w =
      append_in_time-IsWaiting lib (IsOneOf (p ∷ [])) d.submitted (after_gap d p.sequence) p.bytes
        p.next p.marker p.timestamp (after_gap-IsWaiting (IsOneOf (p ∷ [])) d p.sequence) no_idr
        (inl refl) in
    subst (λ (d' : Cedar S). GivesNoSlice d d' p)
      (sym (
        append_all-last lib d dropped p drops h
        ∙ ap (λ (r : Cedar S × Bool). r.0)
            (append_h264_payload-gap lib d p some_bytes kept s ahead)))
      (record { waits = w.waits; units = w.units; given = w.accepted; plain = w.units_plain })
