-- ===== src/Video/Decoder/Feed/Pictures.antt =====
-- Pictures: the slices of one time stamp reach MPP as one packet.
use openhd_glide.Base.{
  ℕ, suc, ◌<◌, ◌≡◌, ◌≢◌, refl, sym, ap, ◌∙◌, Bool, true, false, ◌==◌, List, [], ◌∷◌, ◌++◌, All,
  length, flatten, map, append_assoc, append-nil, Bytes, arith,
}
use openhd_glide.Video.Decoder.{Decoder, Platform, put, and_then}
use openhd_glide.Video.Decoder.Submit.{start_code, submit_packet}
use openhd_glide.Video.Decoder.Nal.{
  is_vcl, collect_vcl, needs_seed, queue_nal, flush_access_unit, flush_if,
}
use openhd_glide.Video.Decoder.H264.{queue_all}

-- A slice: a NAL with some bytes of one of the picture types.
pub record IsSlice (h265 : Bool) (nal : Bytes) : Type 0 where
  pub has_bytes : 0 < length nal
  pub vcl : is_vcl h265 nal ≡ true

abbrev pub unit_of : List Bytes → Bytes
unit_of nals = flatten (map (λ nal. start_code ++ nal) nals)

pub queue_nal-slice :
    (p : Platform) (d : Decoder) (nal : Bytes) (timestamp : ℕ)
    → IsSlice d.h265 nal
    → needs_seed d ≡ false
    → queue_nal p d nal timestamp ≡ (collect_vcl d nal timestamp, true)
unfolding queue_nal
queue_nal-slice p d nal timestamp s n =
    let some_bytes : (length nal == 0) ≡ false = ground (arith, s.has_bytes) in
    rw (some_bytes, n) (rw s.vcl)

-- A slice of the open unit's time stamp is put behind those before it.
pub collect_vcl-same :
    (d : Decoder) (nal : Bytes) (timestamp : ℕ)
    → d.have_access_unit ≡ true
    → d.access_unit_timestamp ≡ timestamp
    → collect_vcl d nal timestamp ≡ record d { access_unit = d.access_unit ++ (start_code ++ nal) }
unfolding collect_vcl
collect_vcl-same d nal timestamp h t = ground arith

needs_seed-unit :
    (d : Decoder) (u : Bytes) → needs_seed (record d { access_unit = u }) ≡ needs_seed d
unfolding needs_seed
needs_seed-unit d u = refl

queue_all-open :
    (p : Platform) (nals : List Bytes) (d : Decoder) (timestamp : ℕ)
    → All (IsSlice d.h265) nals
    → needs_seed d ≡ false
    → d.have_access_unit ≡ true
    → d.access_unit_timestamp ≡ timestamp
    → queue_all p d nals timestamp
      ≡ (record d { access_unit = d.access_unit ++ unit_of nals }, true)
unfolding queue_all
queue_all-open p [] d timestamp s n h t =
    ap (λ (u : Bytes). (record d { access_unit = u }, true)) (sym (append-nil d.access_unit))
queue_all-open p (nal ∷ nals) d timestamp s n h t =
    let d' = record d { access_unit = d.access_unit ++ (start_code ++ nal) } in
    let slice =
      queue_nal-slice p d nal timestamp s.0 n
      ∙ ap (λ (x : Decoder). (x, true)) (collect_vcl-same d nal timestamp h t) in
    let later = queue_all-open p nals d' timestamp s.1 (needs_seed-unit d d'.access_unit ∙ n) h t in
    rw (slice, later, append_assoc d.access_unit (start_code ++ nal) (unit_of nals))

-- The unit that a first slice opens.
abbrev pub opened : Decoder → ℕ → Bytes → Decoder
opened d timestamp u = record d {
  access_unit = u;
  access_unit_timestamp = timestamp;
  have_access_unit = true;
}

needs_seed-opened :
    (d : Decoder) (timestamp : ℕ) (u : Bytes) → needs_seed (opened d timestamp u) ≡ needs_seed d
unfolding needs_seed
needs_seed-opened d timestamp u = refl

pub collect_vcl-first :
    (d : Decoder) (nal : Bytes) (timestamp : ℕ)
    → d.have_access_unit ≡ false
    → d.access_unit ≡ []
    → collect_vcl d nal timestamp ≡ opened d timestamp (start_code ++ nal)
unfolding collect_vcl
collect_vcl-first d nal timestamp h u = ground arith

queue_all-slices :
    (p : Platform) (nal : Bytes) (nals : List Bytes) (d : Decoder) (timestamp : ℕ)
    → All (IsSlice d.h265) (nal ∷ nals)
    → needs_seed d ≡ false
    → d.have_access_unit ≡ false
    → d.access_unit ≡ []
    → queue_all p d (nal ∷ nals) timestamp ≡ (opened d timestamp (unit_of (nal ∷ nals)), true)
unfolding queue_all
queue_all-slices p nal nals d timestamp s n h u =
    let slice =
      queue_nal-slice p d nal timestamp s.0 n
      ∙ ap (λ (x : Decoder). (x, true)) (collect_vcl-first d nal timestamp h u) in
    let later =
      queue_all-open p nals (opened d timestamp (start_code ++ nal)) timestamp s.1
        (needs_seed-opened d timestamp (start_code ++ nal) ∙ n) refl refl in
    rw (slice, later)

-- A marker closes the open unit: it goes to MPP as one packet.
pub flush_if-put :
    (p : Platform) (d : Decoder) (b : ℕ) (rest : Bytes)
    → d.mjpeg ≡ false
    → d.have_access_unit ≡ true
    → d.access_unit ≡ b ∷ rest
    → p.put_packet d.accepted d.access_unit d.access_unit_timestamp ≡ put
    → let r = flush_if p true d in
      (r.1 ≡ true)
      × (r.0.accepted ≡ d.accepted ++ (d.access_unit, d.access_unit_timestamp) ∷ [])
      × (r.0.have_access_unit ≡ false)
      × (r.0.access_unit ≡ [])
unfolding flush_if flush_access_unit submit_packet
flush_if-put p d b rest m h u accepts = ground arith

-- The slices of a picture, with a marker on the last, are given to MPP in one packet: a start code
-- and the slice for each, in order, under their time stamp. No unit is open after it. Before it
-- none is open either, the codec is not MJPEG, no seed is due, and MPP takes the packet.
pub queue_all-picture :
    (p : Platform) (nal : Bytes) (nals : List Bytes) (d : Decoder) (timestamp : ℕ)
    → All (IsSlice d.h265) (nal ∷ nals)
    → needs_seed d ≡ false
    → d.mjpeg ≡ false
    → d.have_access_unit ≡ false
    → d.access_unit ≡ []
    → p.put_packet d.accepted (unit_of (nal ∷ nals)) timestamp ≡ put
    → let r = and_then (queue_all p d (nal ∷ nals) timestamp) (flush_if p true) in
      (r.1 ≡ true)
      × (r.0.accepted ≡ d.accepted ++ (unit_of (nal ∷ nals), timestamp) ∷ [])
      × (r.0.have_access_unit ≡ false)
      × (r.0.access_unit ≡ [])
queue_all-picture p nal nals d timestamp s n m h u accepts =
    rw (queue_all-slices p nal nals d timestamp s n h u)
      (flush_if-put p (opened d timestamp (unit_of (nal ∷ nals))) _ _ m refl refl accepts)

collect_vcl-stale :
    (d : Decoder) (nal : Bytes) (timestamp : ℕ)
    → d.have_access_unit ≡ true
    → d.access_unit_timestamp ≢ timestamp
    → collect_vcl d nal timestamp ≡ record (opened d timestamp (start_code ++ nal)) {
      incomplete_fragments = suc d.incomplete_fragments;
    }
unfolding collect_vcl
collect_vcl-stale d nal timestamp h t = ground arith

-- The first slice of a picture drops the open unit, and the others come behind it.
queue_all-stale :
    (p : Platform) (nal : Bytes) (nals : List Bytes) (d : Decoder) (timestamp : ℕ)
    → All (IsSlice d.h265) (nal ∷ nals)
    → needs_seed d ≡ false
    → d.have_access_unit ≡ true
    → d.access_unit_timestamp ≢ timestamp
    → queue_all p d (nal ∷ nals) timestamp ≡ (
      record (opened d timestamp (unit_of (nal ∷ nals))) {
        incomplete_fragments = suc d.incomplete_fragments;
      },
      true,
    )
unfolding queue_all needs_seed
queue_all-stale p nal nals d timestamp s n h t =
    let d' = record (opened d timestamp (start_code ++ nal)) {
      incomplete_fragments = suc d.incomplete_fragments;
    } in
    let slice =
      queue_nal-slice p d nal timestamp s.0 n
      ∙ ap (λ (x : Decoder). (x, true)) (collect_vcl-stale d nal timestamp h t) in
    let later = queue_all-open p nals d' timestamp s.1 n refl refl in rw (slice, later)

flush_if-incomplete :
    (p : Platform) (d : Decoder) (b : ℕ) (rest : Bytes)
    → d.mjpeg ≡ false
    → d.have_access_unit ≡ true
    → d.access_unit ≡ b ∷ rest
    → p.put_packet d.accepted d.access_unit d.access_unit_timestamp ≡ put
    → (flush_if p true d).0.incomplete_fragments ≡ d.incomplete_fragments
unfolding flush_if flush_access_unit submit_packet
flush_if-incomplete p d b rest m h u accepts = ground arith

-- A picture whose marker is lost, followed by one of another time stamp whose marker arrives: MPP
-- is given the second alone, in one packet of all its slices under its time stamp, the first is
-- counted as incomplete and no byte of it is given, and no unit is open at the end. No unit is open
-- at the start either, the codec is not MJPEG, no seed is due, and MPP takes the packet.
pub queue_all-lost_marker :
    (p : Platform) (lost : Bytes) (more : List Bytes) (nal : Bytes) (nals : List Bytes)
    (d : Decoder) (before timestamp : ℕ)
    → All (IsSlice d.h265) (lost ∷ more)
    → All (IsSlice d.h265) (nal ∷ nals)
    → needs_seed d ≡ false
    → d.mjpeg ≡ false
    → d.have_access_unit ≡ false
    → d.access_unit ≡ []
    → before ≢ timestamp
    → p.put_packet d.accepted (unit_of (nal ∷ nals)) timestamp ≡ put
    → let r =
        and_then
          (and_then
            (queue_all p d (lost ∷ more) before)
            (λ d'. queue_all p d' (nal ∷ nals) timestamp))
          (flush_if p true) in
      (r.1 ≡ true)
      × (r.0.accepted ≡ d.accepted ++ (unit_of (nal ∷ nals), timestamp) ∷ [])
      × (r.0.incomplete_fragments ≡ suc d.incomplete_fragments)
      × (r.0.have_access_unit ≡ false)
      × (r.0.access_unit ≡ [])
queue_all-lost_marker p lost more nal nals d before timestamp l s n m h u t accepts =
    let first = opened d before (unit_of (lost ∷ more)) in
    let second = record (opened first timestamp (unit_of (nal ∷ nals))) {
      incomplete_fragments = suc d.incomplete_fragments;
    } in
    let (goes_on, taken, closed, emptied) = flush_if-put p second _ _ m refl refl accepts in
    rw
      (
        queue_all-slices p lost more d before l n h u,
        queue_all-stale p nal nals first timestamp s (needs_seed-opened d before _ ∙ n) refl t,
      )
      (goes_on, taken, flush_if-incomplete p second _ _ m refl refl accepts, closed, emptied)
