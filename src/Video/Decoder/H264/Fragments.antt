-- ===== src/Video/Decoder/H264/Fragments.antt =====
-- Reassembly: the fragments of a NAL unit give the NAL unit back.
use openhd_glide.Base.{
  ◌==◌, ◌||◌, not, length-append, ℕ, ◌+◌, ◌*◌, ◌/◌, ◌%◌, ◌<◌, ◌≡◌, refl, sym, ap, ◌∙◌, Bool, true,
  false, List, [], ◌∷◌, ◌++◌, length, flatten, map, append_assoc, append-nil, Bytes, arith,
}
use openhd_glide.Video.Decoder.{Decoder, Platform, and_then}
use openhd_glide.Video.Rtp.{has_bit}
use openhd_glide.Video.Decoder.Nal.{queue_nal, flush_if}
use openhd_glide.Video.Decoder.H264.{clear_fragment, append_fragment, append_h264_payload}

-- RFC 6184, 5.8: a fragment of the NAL with header `first`, with the start and end bits.
abbrev pub fu_a : ℕ → ℕ → Bytes → Bytes
fu_a first bits piece = (first / 32 * 32 + 28) ∷ (bits + first % 32) ∷ piece

abbrev pub start_bit : ℕ
start_bit = 128

abbrev pub end_bit : ℕ
end_bit = 64

-- The payloads of one time stamp, none of them the last of a picture.
unfoldable pub feed_h264 : Platform → Decoder → List Bytes → ℕ → Decoder × Bool
feed_h264 p d [] timestamp = (d, true)
feed_h264 p d (payload ∷ payloads) timestamp =
    and_then (append_h264_payload p d payload false timestamp)
      (λ d'. feed_h264 p d' payloads timestamp)

fu_a-fragment :
    (p : Platform) (d : Decoder) (first k timestamp : ℕ) (piece : Bytes) (marker : Bool)
    → first < 256
    → let header = k * 32 + first % 32 in
      append_h264_payload p d (fu_a first (k * 32) piece) marker timestamp
      ≡ append_fragment p d
          (has_bit header 7)
          (has_bit header 6)
          (first ∷ [])
          piece
          marker
          timestamp
unfolding append_h264_payload
fu_a-fragment p d first k timestamp piece marker h =
    let kind : (first / 32 * 32 + 28) % 32 ≡ 28 = omega arith in
    let again : (first / 32 * 32 + 28) / 32 * 32 + (k * 32 + first % 32) % 32 ≡ first =
      omega arith in
    rw (kind, again) (ground arith)

-- A fragment of this time stamp is under way.
record IsReady (d : Decoder) (timestamp : ℕ) : Type 0 where
  started : 0 < length d.fragment
  same_time : d.current_timestamp ≡ timestamp

module _ (p : Platform) (d : Decoder) (timestamp : ℕ) (first bytes : Bytes) (marker : Bool) where
  append_fragment-start :
      append_fragment p d true false first bytes marker timestamp
      ≡ (record d { fragment = first ++ bytes; current_timestamp = timestamp }, true)
  unfolding append_fragment
  append_fragment-start = refl

  not_orphan :
      IsReady d timestamp
      → (length d.fragment == 0 || not (d.current_timestamp == timestamp)) ≡ false
  not_orphan r = ground (arith, r.started, r.same_time)

  append_fragment-middle :
      IsReady d timestamp
      → append_fragment p d false false first bytes marker timestamp
        ≡ (record d { fragment = d.fragment ++ bytes }, true)
  unfolding append_fragment
  append_fragment-middle r = rw (not_orphan r)

  append_fragment-end :
      IsReady d timestamp
      → let whole = d.fragment ++ bytes in
        append_fragment p d false true first bytes marker timestamp
        ≡ and_then
            (clear_fragment (queue_nal p (record d { fragment = whole }) whole timestamp))
            (flush_if p marker)
  unfolding append_fragment
  append_fragment-end r = rw (not_orphan r)

module _ (p : Platform) (d : Decoder) (first timestamp : ℕ) (piece : Bytes) (marker : Bool)
    (h : first < 256) where
  fu_a-start :
      append_h264_payload p d (fu_a first start_bit piece) marker timestamp
      ≡ (record d { fragment = first ∷ piece; current_timestamp = timestamp }, true)
  fu_a-start =
      let is_start : has_bit (128 + first % 32) 7 ≡ true = ground arith in
      let is_end : has_bit (128 + first % 32) 6 ≡ false = ground arith in
      fu_a-fragment p d first 4 timestamp piece marker h
      ∙ rw (is_start, is_end) (append_fragment-start p d timestamp (first ∷ []) piece marker)

  fu_a-middle :
      IsReady d timestamp
      → append_h264_payload p d (fu_a first 0 piece) marker timestamp
        ≡ (record d { fragment = d.fragment ++ piece }, true)
  fu_a-middle r =
      let is_start : has_bit (0 + first % 32) 7 ≡ false = ground arith in
      let is_end : has_bit (0 + first % 32) 6 ≡ false = ground arith in
      fu_a-fragment p d first 0 timestamp piece marker h
      ∙ rw (is_start, is_end) (append_fragment-middle p d timestamp (first ∷ []) piece marker r)

  fu_a-end :
      IsReady d timestamp
      → let whole = d.fragment ++ piece in
        append_h264_payload p d (fu_a first end_bit piece) marker timestamp
        ≡ and_then
            (clear_fragment (queue_nal p (record d { fragment = whole }) whole timestamp))
            (flush_if p marker)
  fu_a-end r =
      let is_start : has_bit (64 + first % 32) 7 ≡ false = ground arith in
      let is_end : has_bit (64 + first % 32) 6 ≡ true = ground arith in
      fu_a-fragment p d first 2 timestamp piece marker h
      ∙ rw (is_start, is_end) (append_fragment-end p d timestamp (first ∷ []) piece marker r)

-- The fragments between the first and the last add to the NAL.
feed_h264-middle :
    (p : Platform) (pieces : List Bytes) (rest : List Bytes) (d : Decoder) (first timestamp : ℕ)
    → first < 256
    → IsReady d timestamp
    → feed_h264 p d (map (fu_a first 0) pieces ++ rest) timestamp
      ≡ feed_h264 p (record d { fragment = d.fragment ++ flatten pieces }) rest timestamp
unfolding feed_h264
feed_h264-middle p [] rest d first timestamp h r =
    ap (λ (f : Bytes). feed_h264 p (record d { fragment = f }) rest timestamp)
      (sym (append-nil d.fragment))
feed_h264-middle p (piece ∷ pieces) rest d first timestamp h r =
    let d' = record d { fragment = d.fragment ++ piece } in
    let r' : IsReady d' timestamp = record {
      started = omega (arith, length-append d.fragment piece, r.started);
      same_time = r.same_time;
    } in
    rw (
      fu_a-middle p d first timestamp piece false h r,
      feed_h264-middle p pieces rest d' first timestamp h r',
      append_assoc d.fragment piece (flatten pieces),
    )

feed_h264-cons :
    (p : Platform) (d : Decoder) (payload : Bytes) (payloads : List Bytes) (timestamp : ℕ)
    → feed_h264 p d (payload ∷ payloads) timestamp
      ≡ and_then
          (append_h264_payload p d payload false timestamp)
          (λ d'. feed_h264 p d' payloads timestamp)
unfolding feed_h264
feed_h264-cons p d payload payloads timestamp = refl

and_then-done : (r : Decoder × Bool) → and_then r (λ d. (d, true)) ≡ r
and_then-done (d, true) = refl
and_then-done (d, false) = refl

feed_h264-one :
    (p : Platform) (d : Decoder) (payload : Bytes) (timestamp : ℕ)
    → feed_h264 p d (payload ∷ []) timestamp ≡ append_h264_payload p d payload false timestamp
unfolding feed_h264
feed_h264-one p d payload timestamp = and_then-done _

-- With no marker nothing is flushed.
and_then-flush_if : (p : Platform) (r : Decoder × Bool) → and_then r (flush_if p false) ≡ r
unfolding flush_if
and_then-flush_if p (d, true) = refl
and_then-flush_if p (d, false) = refl

-- A NAL cut into a start, any number of middle fragments and an end, all of one time stamp and with
-- no marker, is queued as one NAL, whatever the decoder held before, and the fragment buffer is
-- empty after it. The first byte of the NAL is a byte.
pub feed_h264-fu_a :
    (p : Platform) (d : Decoder) (first timestamp : ℕ) (head last : Bytes) (pieces : List Bytes)
    → first < 256
    → let nal = first ∷ (head ++ (flatten pieces ++ last)) in
      let holding = record d { fragment = nal; current_timestamp = timestamp } in
      feed_h264 p d
        (fu_a first start_bit head ∷ (map (fu_a first 0) pieces ++ fu_a first end_bit last ∷ []))
        timestamp
      ≡ clear_fragment (queue_nal p holding nal timestamp)
feed_h264-fu_a p d first timestamp head last pieces h =
    let d1 = record d { fragment = first ∷ head; current_timestamp = timestamp } in
    let d2 = record d1 { fragment = (first ∷ head) ++ flatten pieces } in
    let r1 : IsReady d1 timestamp = record { started = omega arith; same_time = refl } in
    let r2 : IsReady d2 timestamp = record { started = omega arith; same_time = refl } in
    feed_h264-cons p d (fu_a first start_bit head) _ timestamp
    ∙ rw
        (
          fu_a-start p d first timestamp head false h,
          feed_h264-middle p pieces (fu_a first end_bit last ∷ []) d1 first timestamp h r1,
          feed_h264-one p d2 (fu_a first end_bit last) timestamp,
          fu_a-end p d2 first timestamp last false h r2,
          append_assoc head (flatten pieces) last,
        )
        (and_then-flush_if p _)
