-- ===== src/Video/Decoder/Feed/Streams.antt =====
-- A stream of H.264 pictures: each reaches MPP as one packet.
use openhd_glide.Base.{
  ℕ, ◌+◌, ◌%◌, ◌^◌, ◌<◌, ◌≡◌, refl, ap, ◌∙◌, Bool, true, false, List, [], ◌∷◌, ◌++◌, All, Bytes,
  arith, map, append_assoc, append-nil, sym,
}
use openhd_glide.Video.Decoder.{Decoder, Platform, put, and_then}
use openhd_glide.Video.Decoder.Feed.{handle_rtp_packet, feed_loop}
use openhd_glide.Video.Decoder.Feed.Pictures.{IsSlice, unit_of}
use openhd_glide.Video.Decoder.Feed.Slices.{IsFed}
use openhd_glide.Video.Decoder.Feed.Delivery.{picture_packets, number_after, feed_loop-picture}

-- The slices of a picture, of which there is one at least, and its time stamp.
pub record Picture : Type 0 where
  pub first : Bytes
  pub others : List Bytes
  pub timestamp : ℕ

pub record IsPicture (picture : Picture) : Type 0 where
  pub slices : All (IsSlice false) (picture.first ∷ picture.others)
  pub time_fits : picture.timestamp < 2 ^ 32

-- The packets of the pictures, numbered from `sequence` on.
abbrev pub stream_packets : ℕ → List Picture → List Bytes
stream_packets sequence [] = []
stream_packets sequence (picture ∷ pictures) =
    picture_packets sequence picture.timestamp picture.first picture.others
    ++ stream_packets (number_after sequence picture.others) pictures

abbrev pub as_packet : Picture → Bytes × ℕ
as_packet picture = (unit_of (picture.first ∷ picture.others), picture.timestamp)

and_then_assoc :
    (r : Decoder × Bool) (f g : Decoder → Decoder × Bool)
    → and_then r (λ d. and_then (f d) g) ≡ and_then (and_then r f) g
and_then_assoc (d, true) f g = refl
and_then_assoc (d, false) f g = refl

feed_loop-append :
    (p : Platform) (xs ys : List Bytes) (d : Decoder)
    → feed_loop p d (xs ++ ys) ≡ and_then (feed_loop p d xs) (λ d'. feed_loop p d' ys)
unfolding feed_loop
feed_loop-append p [] ys d = refl
feed_loop-append p (x ∷ xs) ys d =
    ap (and_then (handle_rtp_packet p d x)) (λ i d'. feed_loop-append p xs ys d' i)
    ∙ and_then_assoc (handle_rtp_packet p d x) (λ d'. feed_loop p d' xs) (λ d'. feed_loop p d' ys)

number_after-lt : (nals : List Bytes) (sequence : ℕ) → number_after sequence nals < 65536
number_after-lt [] sequence = omega arith
number_after-lt (nal ∷ nals) sequence = number_after-lt nals ((sequence + 1) % 65536)

and_then-handled :
    (r : Decoder × Bool) (k : Decoder → Decoder × Bool) → r.1 ≡ true → and_then r k ≡ k r.0
and_then-handled (d, true) k h = refl
and_then-handled (d, false) k h = cc

-- H.264 pictures that arrive as RTP packets, each slice whole in a packet of its own (a single NAL
-- unit packet, types 1 to 5), numbered on from what was expected and the marker on the last of
-- each, are given to MPP one packet each, in order and under their time stamps, with nothing in
-- between, and the feed goes on. At the start no unit is open and no seed is due, and MPP takes
-- every packet; the numbers and time stamps fit their fields.
pub feed_loop-stream_packets :
    (p : Platform) (pictures : List Picture) (d : Decoder) (sequence : ℕ)
    → IsFed d sequence
    → d.have_access_unit ≡ false
    → d.access_unit ≡ []
    → All IsPicture pictures
    → sequence < 65536
    → ((accepted : List (Bytes × ℕ)) (bytes : Bytes) (pts : ℕ)
        → p.put_packet accepted bytes pts ≡ put)
    → let r = feed_loop p d (stream_packets sequence pictures) in
      (r.1 ≡ true) × (r.0.accepted ≡ d.accepted ++ map as_packet pictures)
feed_loop-stream_packets p [] d sequence f h u s n accepts =
    unfold feed_loop in (refl, sym (append-nil d.accepted))
feed_loop-stream_packets p (picture ∷ pictures) d sequence f h u s n accepts =
    let packets = picture_packets sequence picture.timestamp picture.first picture.others in
    let next = number_after sequence picture.others in
    let later = stream_packets next pictures in
    let one =
      feed_loop-picture p picture.others picture.first d sequence picture.timestamp f h u s.0.slices
        n s.0.time_fits
        (accepts d.accepted (unit_of (picture.first ∷ picture.others)) picture.timestamp) in
    let d' = (feed_loop p d packets).0 in
    let rest =
      feed_loop-stream_packets p pictures d' next one.fed one.closed one.emptied s.1
        (number_after-lt picture.others sequence) accepts in
    rw
      (
        feed_loop-append p packets later d,
        and_then-handled (feed_loop p d packets) (λ d'. feed_loop p d' later) one.handled,
      )
      (
        rest.0,
        rest.1
            ∙ ap (λ (xs : List (Bytes × ℕ)). xs ++ map as_packet pictures) one.newest
            ∙ append_assoc d.accepted (as_packet picture ∷ []) (map as_packet pictures),
      )
