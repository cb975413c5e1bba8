-- ===== src/Video/Cedar/Units.antt =====
-- Access units of src/video/cedar_rtp_decoder.cpp: what is put in front of a NAL, and
-- `submit_access_unit`, `reset_access_unit`, `cache_parameter_set`, `append_cached_parameter_sets`.
use openhd_glide.Base.{
  ℕ, zero, suc, ◌+◌, ◌%◌, Bool, true, false, [], ◌∷◌, ◌++◌, Option, none, some, ltb, leb, ◌==◌,
  ◌&&◌, if◌then◌else◌, length, take, drop, Bytes, codes,
}
use openhd_glide.Video.Rtp.{byte_at}
use openhd_glide.Video.Cedar.{
  Cedar, Library, Decoded, no_bitstream, no_frame_buffer, unsupported, resolution_change, decoded,
}

abbrev pub start_code : Bytes
start_code = 0 ∷ 0 ∷ 0 ∷ 1 ∷ []

abbrev pub aud : Bytes
aud = 0 ∷ 0 ∷ 0 ∷ 1 ∷ 0x09 ∷ 0x10 ∷ []

unfoldable pub append_aud_if_needed : Bytes → Bytes
append_aud_if_needed [] = aud
append_aud_if_needed (b ∷ bs) = b ∷ bs

-- The three calls that put a NAL behind an access unit.
unfoldable pub append_nal : Bytes → Bytes → Bytes
append_nal unit nal = append_aud_if_needed unit ++ (start_code ++ nal)

unfoldable pub nal_is_vcl : ℕ → Bool
nal_is_vcl kind = leb 1 kind && leb kind 5

unfoldable pub reset_access_unit : {S : Type 0} → Cedar S → Cedar S
reset_access_unit d = record d {
  access_unit = [];
  have_timestamp = false;
  fu_started = false;
  access_unit_has_vcl = false;
  dropped_access_units = suc d.dropped_access_units;
}

unfoldable pub cache_parameter_set : {S : Type 0} → Cedar S → Bytes → Cedar S
cache_parameter_set d nal =
    if length nal == 0
    then d
    else if byte_at nal 0 % 32 == 7
    then record d { sps = nal }
    else if byte_at nal 0 % 32 == 8
    then record d { pps = nal }
    else d

-- A parameter set that is there is put behind the unit.
unfoldable pub append_parameters : Bytes → Bytes → Bytes
append_parameters unit [] = unit
append_parameters unit (b ∷ bs) = append_nal unit (b ∷ bs)

unfoldable pub append_cached_parameter_sets : {S : Type 0} → Cedar S → Cedar S
unfolding append_parameters
append_cached_parameter_sets d = record d {
  access_unit = append_parameters (append_parameters d.access_unit d.sps) d.pps;
}

-- The decoder has nothing to decode, or nowhere to put it.
unfoldable pub is_idle : Decoded → Bool
is_idle no_bitstream = true
is_idle no_frame_buffer = true
is_idle unsupported = false
is_idle resolution_change = false
is_idle decoded = false

-- The four rounds that a full buffer causes.
unfoldable pub flush_loop : {S : Type 0} → Library S → ℕ → S → S
flush_loop lib zero s = s
flush_loop lib (suc n) s =
    let rest = flush_loop lib n (lib.decode s).0 in
    if is_idle (lib.decode s).1 then (lib.decode s).0 else rest

-- How a round of the loop behind a submitted unit ends it: `some false` for an unsupported stream.
unfoldable pub loop_result : Decoded → Option Bool
loop_result no_bitstream = some true
loop_result no_frame_buffer = some true
loop_result unsupported = some false
loop_result resolution_change = some true
loop_result decoded = none

unfoldable pub decode_loop : {S : Type 0} → Library S → ℕ → S → S × Bool
decode_loop lib zero s = (s, true)
decode_loop lib (suc n) s = elim (loop_result (lib.decode s).1) [
  | none ↦ decode_loop lib n (lib.decode s).0
  | some result ↦ ((lib.decode s).0, result)
]

unfoldable pub after_decode : {S : Type 0} → Cedar S → S × Bool → Cedar S × Bool
after_decode d (s, true) = (record d { library = s }, true)
after_decode d (s, false) = (
  record d { library = s; last_error = codes "Cedar decoder reported unsupported H264 stream" },
  false,
)

-- The library has taken the unit.
abbrev pub count_unit : {S : Type 0} → Cedar S → Bytes → Cedar S
count_unit d sent = record d {
  access_units = suc d.access_units;
  access_unit_submitted_this_poll = true;
  access_unit = [];
  have_timestamp = false;
  access_unit_has_vcl = false;
  submitted = d.submitted ++ (sent, d.current_timestamp) ∷ [];
}

-- `sent` is the unit as it stands in the two buffers.
unfoldable pub after_submit : {S : Type 0} → Library S → Cedar S → Bytes → S × Bool → Cedar S × Bool
unfolding after_decode
after_submit lib d sent (s, true) = after_decode (count_unit d sent) (decode_loop lib 8 s)
after_submit lib d sent (s, false) = (
  record d { library = s; last_error = codes "failed to submit H264 access unit to Cedar decoder" },
  false,
)

-- `take` stands for the first copy, which is no longer than the unit.
unfoldable pub after_request :
    {S : Type 0} → Library S → Cedar S → S × Option (ℕ × ℕ) → Cedar S × Bool
unfolding after_submit reset_access_unit
after_request lib d (s, none) =
    (record (reset_access_unit d) { library = flush_loop lib 4 s }, true)
after_request lib d (s, some (buffer_size, ring_buffer_size)) =
    let first = take buffer_size d.access_unit in
    let second = drop buffer_size d.access_unit in
    let requested = length d.access_unit in
    let sent = lib.submit_data s first second requested d.current_timestamp in
    if ltb (buffer_size + ring_buffer_size) requested
    then (record (reset_access_unit d) { library = s }, true)
    else after_submit lib d (first ++ second) sent

unfoldable pub submit_access_unit : {S : Type 0} → Library S → Cedar S → Cedar S × Bool
unfolding after_request
submit_access_unit lib d =
    if length d.access_unit == 0
    then (d, true)
    else after_request lib d (lib.request_buffer d.library (length d.access_unit))
