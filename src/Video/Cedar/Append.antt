-- ===== src/Video/Cedar/Append.antt =====
-- `append_h264_payload` of src/video/cedar_rtp_decoder.cpp: what a payload does to the open access
-- unit. `next` is the byte that stands behind the payload in the receive buffer.
pub mod Plain
pub mod Gate
pub mod Payloads
pub mod Waiting
pub mod Dropping
pub mod Recovery
use openhd_glide.Base.{
  ℕ, zero, suc, ◌+◌, ◌*◌, ◌/◌, ◌%◌, Bool, true, false, not, ◌&&◌, ◌||◌, List, [], ◌∷◌, ◌++◌, ltb,
  leb, ◌==◌, if◌then◌else◌, length, get_or, take, drop, Bytes,
}
use openhd_glide.Base.Int.{pos, ltb_ℤ}
use openhd_glide.Video.Rtp.{byte_at, has_bit, sequence_delta}
use openhd_glide.Video.Cedar.{Cedar, Library, and_then}
use openhd_glide.Video.Cedar.Bits.{first_slice_starts_frame}
use openhd_glide.Video.Cedar.Units.{
  append_nal, nal_is_vcl, reset_access_unit, cache_parameter_set, append_cached_parameter_sets,
  submit_access_unit,
}

-- The open unit goes, and the rest of its picture with it.
abbrev pub drop_picture : {S : Type 0} → Cedar S → ℕ → Cedar S
drop_picture d timestamp = record (reset_access_unit d) {
  dropping_timestamp = true;
  drop_timestamp = timestamp;
}

abbrev drop_waiting : {S : Type 0} → Cedar S → ℕ → Cedar S
drop_waiting d timestamp = record (drop_picture d timestamp) {
  dropped_waiting_for_idr = suc d.dropped_waiting_for_idr;
}

abbrev drop_incomplete : {S : Type 0} → Cedar S → ℕ → Cedar S
drop_incomplete d timestamp = record (drop_picture d timestamp) {
  dropped_incomplete_fragments = suc d.dropped_incomplete_fragments;
}

-- A slice of a picture that is decoded; the parameter sets stand in front of an IDR slice.
unfoldable pub open_picture : {S : Type 0} → Cedar S → ℕ → Cedar S
open_picture d kind =
    if kind == 5
    then record (append_cached_parameter_sets d) { require_idr = false; access_unit_has_vcl = true }
    else record d { access_unit_has_vcl = true }

-- The tests that a NAL passes before it is put behind the unit; `false` is an early return.
unfoldable pub admit : {S : Type 0} → Cedar S → Bytes → ℕ → ℕ → Cedar S × Bool
unfolding open_picture
admit d nal kind timestamp =
    if not (nal_is_vcl kind)
    then (d, true)
    else if d.require_idr && not (kind == 5)
    then (drop_waiting d timestamp, false)
    else if not d.access_unit_has_vcl && not (first_slice_starts_frame nal)
    then (drop_incomplete d timestamp, false)
    else (open_picture d kind, true)

abbrev pub with_nal : {S : Type 0} → Cedar S → Bytes → Cedar S × Bool
with_nal d nal = (record d { access_unit = append_nal d.access_unit nal }, true)

unfoldable pub add_nal : {S : Type 0} → Cedar S → Bytes → ℕ → ℕ → Cedar S × Bool
add_nal d nal kind timestamp =
    and_then (admit (cache_parameter_set d nal) nal kind timestamp) (λ d'. with_nal d' nal)

-- The NALs of an aggregation packet: `rest` is the suffix at `offset`. Each round takes two bytes.
unfoldable pub stap_loop : {S : Type 0} → ℕ → Cedar S → Bytes → ℕ → ℕ → Cedar S × Bool
stap_loop zero d rest next timestamp = (d, true)
stap_loop (suc fuel) d rest next timestamp =
    let nal_size = byte_at rest 0 * 256 + byte_at rest 1 in
    let behind = drop 2 rest in
    let kind = get_or behind 0 next % 32 in
    let added =
      and_then (add_nal d (take nal_size behind) kind timestamp)
        (λ d'. stap_loop fuel d' (drop nal_size behind) next timestamp) in
    if ltb (length rest) 2
    then (d, true)
    else if ltb (length behind) nal_size
    then (d, true)
    else added

unfoldable pub start_fragment : {S : Type 0} → Cedar S → ℕ → Bytes → ℕ → Cedar S × Bool
start_fragment d reconstructed bytes timestamp =
    and_then (admit d (reconstructed ∷ bytes) (reconstructed % 32) timestamp) (λ d'.
      with_nal (record d' { fu_started = true; fu_timestamp = timestamp }) (reconstructed ∷ []))

abbrev pub continue_fragment : {S : Type 0} → Cedar S → ℕ → Cedar S × Bool
continue_fragment d timestamp =
    if not d.fu_started || not (d.fu_timestamp == timestamp)
    then (record d { dropped_incomplete_fragments = suc d.dropped_incomplete_fragments }, false)
    else (d, true)

abbrev pub with_bytes : {S : Type 0} → Cedar S → Bytes → Bool → Cedar S × Bool
with_bytes d bytes end = (
  record d {
    access_unit = d.access_unit ++ bytes;
    fu_started = if end then false else d.fu_started;
  },
  true,
)

unfoldable pub append_fragment : {S : Type 0} → Cedar S → Bytes → ℕ → Cedar S × Bool
append_fragment d payload timestamp =
    let header = byte_at payload 1 in
    let reconstructed = byte_at payload 0 / 32 * 32 + header % 32 in
    let started =
      if has_bit header 7
      then start_fragment d reconstructed (drop 2 payload) timestamp
      else continue_fragment d timestamp in
    and_then started (λ d'. with_bytes d' (drop 2 payload) (has_bit header 6))

-- The three forms of a payload.
unfoldable pub append_nals : {S : Type 0} → Cedar S → Bytes → ℕ → ℕ → Cedar S × Bool
append_nals d payload next timestamp =
    let kind = byte_at payload 0 % 32 in
    let closed = record d { fu_started = false } in
    if leb 1 kind && leb kind 23
    then add_nal closed payload kind timestamp
    else if kind == 24
    then stap_loop (length payload) closed (drop 1 payload) next timestamp
    else if kind == 28 && leb 2 (length payload)
    then append_fragment d payload timestamp
    else (d, true)

-- The test against the expected sequence number; `false` for a late packet.
unfoldable pub follow_sequence : {S : Type 0} → Cedar S → ℕ → Cedar S × Bool
follow_sequence d sequence =
    let delta = sequence_delta sequence d.expected_sequence in
    let gap = record (reset_access_unit d) {
      rtp_sequence_gaps = suc d.rtp_sequence_gaps;
      require_idr = true;
      expected_sequence = (sequence + 1) % 65536;
      have_sequence = true;
    } in
    let accepted = record d { expected_sequence = (sequence + 1) % 65536; have_sequence = true } in
    if not d.have_sequence
    then (accepted, true)
    else if ltb_ℤ delta (pos 0)
    then (record d { late_or_duplicate_packets = suc d.late_or_duplicate_packets }, false)
    else if ltb_ℤ (pos 0) delta
    then (gap, true)
    else (accepted, true)

-- A new time stamp ends the open unit; `false` only if the library refuses it.
unfoldable pub close_stale : {S : Type 0} → Library S → Cedar S → ℕ → Cedar S × Bool
close_stale lib d timestamp =
    if d.have_timestamp && not (timestamp == d.current_timestamp) && not (length d.access_unit == 0)
    then if d.fu_started then (reset_access_unit d, true) else submit_access_unit lib d
    else (d, true)

unfoldable pub finish : {S : Type 0} → Library S → Cedar S → Bool → Cedar S × Bool
finish lib d marker =
    if marker && not (length d.access_unit == 0) && not d.fu_started
    then submit_access_unit lib d
    else (d, true)

-- An early return of true, or the rest of the call.
abbrev pub if_used : {S : Type 0} → Cedar S × Bool → (Cedar S → Cedar S × Bool) → Cedar S × Bool
if_used (d, true) k = k d
if_used (d, false) k = (d, true)

unfoldable pub append_in_time :
    {S : Type 0} → Library S → Cedar S → Bytes → ℕ → Bool → ℕ → Cedar S × Bool
append_in_time lib d payload next marker timestamp = and_then (close_stale lib d timestamp) (λ d'.
    if_used
      (append_nals (record d' { current_timestamp = timestamp; have_timestamp = true }) payload next
        timestamp)
      (λ grown. finish lib grown marker))

unfoldable pub append_h264_payload :
    {S : Type 0} → Library S → Cedar S → Bytes → ℕ → Bool → ℕ → ℕ → Cedar S × Bool
unfolding append_in_time
append_h264_payload lib d payload next marker sequence timestamp =
    if length payload == 0
    then (d, true)
    else if d.dropping_timestamp && timestamp == d.drop_timestamp
    then (d, true)
    else if_used (follow_sequence (record d { dropping_timestamp = false }) sequence)
        (λ d'. append_in_time lib d' payload next marker timestamp)
