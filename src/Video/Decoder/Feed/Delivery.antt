-- ===== src/Video/Decoder/Feed/Delivery.antt =====
-- From RTP packets to MPP: the packets of an H.264 picture.
use openhd_glide.Base.{
  ℕ, ◌+◌, ◌%◌, ◌^◌, ◌<◌, ◌≡◌, refl, ◌∙◌, inl, inr, Bool, true, false, List, [], ◌∷◌, ◌++◌, All,
  append_assoc, append-nil, Bytes, arith,
}
use openhd_glide.Video.Rtp.RoundTrip.{rtp_packet}
use openhd_glide.Video.Decoder.{Decoder, Platform, put, and_then}
use openhd_glide.Video.Decoder.Submit.{submit_packet, start_code}
use openhd_glide.Video.Decoder.Nal.{flush_access_unit, needs_seed, flush_if}
use openhd_glide.Video.Decoder.Feed.{accept_sequence, handle_rtp_packet, feed_loop}
use openhd_glide.Video.Decoder.Feed.Pictures.{IsSlice, unit_of, opened, flush_if-put}
use openhd_glide.Video.Decoder.Feed.Slices.{IsFed, CanJoin, ordered, handle_rtp_packet-slice}

-- The packets of a picture of one time stamp, a slice each, the marker on the last.
abbrev pub picture_packets : ℕ → ℕ → Bytes → List Bytes → List Bytes
picture_packets sequence timestamp nal [] = rtp_packet true sequence timestamp nal ∷ []
picture_packets sequence timestamp nal (next ∷ nals) =
    rtp_packet false sequence timestamp nal
    ∷ picture_packets ((sequence + 1) % 65536) timestamp next nals

feed_loop-cons :
    (p : Platform) (d d' : Decoder) (bytes : Bytes) (more : List Bytes)
    → handle_rtp_packet p d bytes ≡ (d', true)
    → feed_loop p d (bytes ∷ more) ≡ feed_loop p d' more
unfolding feed_loop
feed_loop-cons p d d' bytes more e = rw e

and_then-done : (r : Decoder × Bool) → and_then r (λ d. (d, true)) ≡ r
and_then-done (d, true) = refl
and_then-done (d, false) = refl

feed_loop-one :
    (p : Platform) (d : Decoder) (bytes : Bytes)
    → feed_loop p d (bytes ∷ []) ≡ handle_rtp_packet p d bytes
unfolding feed_loop
feed_loop-one p d bytes = and_then-done (handle_rtp_packet p d bytes)

-- After a picture: the unit is the newest of MPP's packets, no unit is open, and the packet with the
-- number `next` is expected.
pub record IsDelivered (before : List (Bytes × ℕ)) (unit : Bytes) (timestamp : ℕ) (next : ℕ)
    (r : Decoder × Bool) : Type 0 where
  pub handled : r.1 ≡ true
  pub newest : r.0.accepted ≡ before ++ (unit, timestamp) ∷ []
  pub closed : r.0.have_access_unit ≡ false
  pub emptied : r.0.access_unit ≡ []
  pub fed : IsFed r.0 next

flush_if-IsFed :
    (p : Platform) (d : Decoder) (next : ℕ)
    → IsFed d next
    → p.put_packet d.accepted d.access_unit d.access_unit_timestamp ≡ put
    → IsFed (flush_if p true d).0 next
unfolding flush_if flush_access_unit submit_packet needs_seed
flush_if-IsFed p d next f accepts = record {
  h264 = ground (arith, f.h264);
  not_mjpeg = ground (arith, f.not_mjpeg);
  no_seed = ground (arith, f.no_seed);
  tracking = ground (arith, f.tracking);
  expected = ground (arith, f.expected);
}

IsFed-opened :
    (d : Decoder) (next timestamp : ℕ) (u : Bytes)
    → IsFed d next
    → IsFed (opened d timestamp u) next
unfolding needs_seed
IsFed-opened d next timestamp u f = record {
  h264 = f.h264;
  not_mjpeg = f.not_mjpeg;
  no_seed = f.no_seed;
  tracking = f.tracking;
  expected = f.expected;
}

flush_if-IsDelivered :
    (p : Platform) (d : Decoder) (b timestamp next : ℕ) (rest : Bytes)
    → IsFed d next
    → p.put_packet d.accepted (b ∷ rest) timestamp ≡ put
    → IsDelivered d.accepted
        (b ∷ rest)
        timestamp
        next
        (flush_if p true (opened d timestamp (b ∷ rest)))
flush_if-IsDelivered p d b timestamp next rest f accepts =
    let (handled, newest, closed, emptied) =
      flush_if-put p (opened d timestamp (b ∷ rest)) b rest f.not_mjpeg refl refl accepts in
    record {
      handled = handled;
      newest = newest;
      closed = closed;
      emptied = emptied;
      fed =
          flush_if-IsFed p (opened d timestamp (b ∷ rest)) next
            (IsFed-opened d next timestamp (b ∷ rest) f) accepts;
    }

flush_if-grown :
    (p : Platform) (d : Decoder) (u nal : Bytes) (timestamp next : ℕ)
    → IsFed d next
    → p.put_packet d.accepted (u ++ (start_code ++ nal)) timestamp ≡ put
    → let unit = u ++ (start_code ++ nal) in
      IsDelivered d.accepted unit timestamp next (flush_if p true (opened d timestamp unit))
flush_if-grown p d [] nal timestamp next f accepts =
    flush_if-IsDelivered p d _ timestamp next _ f accepts
flush_if-grown p d (b ∷ u) nal timestamp next f accepts =
    flush_if-IsDelivered p d b timestamp next _ f accepts

-- The number that is expected after a picture with these slices behind its first.
abbrev pub number_after : ℕ → List Bytes → ℕ
number_after sequence [] = (sequence + 1) % 65536
number_after sequence (nal ∷ nals) = number_after ((sequence + 1) % 65536) nals

IsFed-ordered :
    (d : Decoder) (sequence timestamp : ℕ)
    → IsFed d sequence
    → IsFed (ordered d sequence timestamp) ((sequence + 1) % 65536)
unfolding accept_sequence needs_seed
IsFed-ordered d sequence timestamp f = record {
  h264 = f.h264;
  not_mjpeg = f.not_mjpeg;
  no_seed = f.no_seed;
  tracking = refl;
  expected = refl;
}

feed_loop-slices :
    (p : Platform) (nals : List Bytes) (nal : Bytes) (d : Decoder) (sequence timestamp : ℕ)
    → IsFed d sequence
    → CanJoin d timestamp
    → All (IsSlice false) (nal ∷ nals)
    → sequence < 65536
    → timestamp < 2 ^ 32
    → p.put_packet d.accepted (d.access_unit ++ unit_of (nal ∷ nals)) timestamp ≡ put
    → IsDelivered d.accepted
        (d.access_unit ++ unit_of (nal ∷ nals))
        timestamp
        (number_after sequence nals)
        (feed_loop p d (picture_packets sequence timestamp nal nals))
unfolding accept_sequence
feed_loop-slices p [] nal d sequence timestamp f j s n t accepts =
    let d' = ordered d sequence timestamp in
    rw
      (
        feed_loop-one p d (rtp_packet true sequence timestamp nal),
        handle_rtp_packet-slice p d sequence timestamp nal true f j s.0 n t,
        append-nil nal,
      )
      (flush_if-grown p d' d.access_unit nal timestamp ((sequence + 1) % 65536)
        (IsFed-ordered d sequence timestamp f) (rw append-nil at accepts))
feed_loop-slices p (next ∷ nals) nal d sequence timestamp f j s n t accepts =
    let unit = d.access_unit ++ (start_code ++ nal) in
    let d' = opened (ordered d sequence timestamp) timestamp unit in
    let fed : IsFed d' ((sequence + 1) % 65536) =
      unfold needs_seed in
      record {
        h264 = f.h264;
        not_mjpeg = f.not_mjpeg;
        no_seed = f.no_seed;
        tracking = refl;
        expected = refl;
      } in
    let join : CanJoin d' timestamp = inr (refl, refl) in
    let step =
      feed_loop-cons p d d' (rtp_packet false sequence timestamp nal)
        (picture_packets ((sequence + 1) % 65536) timestamp next nals)
        (handle_rtp_packet-slice p d sequence timestamp nal false f j s.0 n t
          ∙ (unfold flush_if in refl)) in
    let whole = append_assoc d.access_unit (start_code ++ nal) (unit_of (next ∷ nals)) in
    rw (step, ← whole)
      (feed_loop-slices p nals next d' ((sequence + 1) % 65536) timestamp fed join s.1 (omega arith)
        t (rw whole accepts))

-- An H.264 picture that arrives as RTP packets, a slice in each, numbered on from what was expected,
-- of one time stamp and with the marker on the last, is given to MPP as one packet: a start code and
-- the slice for each, in order. No unit is open after it, and the next number is expected. Before it
-- none is open either, no seed is due, and MPP takes the packet; numbers and time stamp fit their
-- fields.
pub feed_loop-picture :
    (p : Platform) (nals : List Bytes) (nal : Bytes) (d : Decoder) (sequence timestamp : ℕ)
    → IsFed d sequence
    → d.have_access_unit ≡ false
    → d.access_unit ≡ []
    → All (IsSlice false) (nal ∷ nals)
    → sequence < 65536
    → timestamp < 2 ^ 32
    → p.put_packet d.accepted (unit_of (nal ∷ nals)) timestamp ≡ put
    → IsDelivered d.accepted
        (unit_of (nal ∷ nals))
        timestamp
        (number_after sequence nals)
        (feed_loop p d (picture_packets sequence timestamp nal nals))
feed_loop-picture p nals nal d sequence timestamp f h u s n t accepts =
    let behind : d.access_unit ++ unit_of (nal ∷ nals) ≡ unit_of (nal ∷ nals) = rw u in
    rw behind at
      (feed_loop-slices p nals nal d sequence timestamp f (inl (h, u)) s n t (rw behind accepts))
