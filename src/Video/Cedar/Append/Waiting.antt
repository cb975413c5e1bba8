-- ===== src/Video/Cedar/Append/Waiting.antt =====
-- A decoder that waits for an IDR slice gives the library units with no slices only.
use openhd_glide.Base.{
  ℕ, ◌+◌, ◌≡◌, refl, sym, ap, ◌∙◌, Bool, true, false, not, ◌&&◌, List, [], ◌∷◌, ◌++◌, All,
  All-append, All-mono, inl, inr, ◌⊎◌, append-nil, ltb, ◌==◌, if_elim, Option, none, some,
  append_assoc, length, take, drop, take-append-drop, subst, Bytes, arith,
}
use openhd_glide.Base.Int.{pos, ltb_ℤ}
use openhd_glide.Video.Rtp.{sequence_delta}
use openhd_glide.Video.Cedar.{Cedar, Library, and_then, fresh}
use openhd_glide.Video.Cedar.Units.{
  reset_access_unit, decode_loop, count_unit, after_decode, after_submit, after_request,
  submit_access_unit,
}
use openhd_glide.Video.Cedar.Append.{
  append_nals, follow_sequence, close_stale, finish, if_used, append_in_time, append_h264_payload,
}
use openhd_glide.Video.Cedar.Append.Plain.{IsPlain, no_nals, IsWaiting, reset_access_unit-IsWaiting}
use openhd_glide.Video.Cedar.Append.Payloads.{has_idr, append_nals-IsWaiting}

after_decode-IsWaiting :
    {S : Type 0} (P : Bytes → Type 0) (base : List (Bytes × ℕ)) (d : Cedar S) (r : S × Bool)
    → IsWaiting P base d
    → IsWaiting P base (after_decode d r).0
unfolding after_decode
after_decode-IsWaiting P base d (s, true) w = w
after_decode-IsWaiting P base d (s, false) w = w

after_submit-IsWaiting :
    {S : Type 0} (lib : Library S) (P : Bytes → Type 0) (base : List (Bytes × ℕ)) (d : Cedar S)
    (sent : Bytes) (r : S × Bool)
    → IsWaiting P base d
    → d.fu_started ≡ false
    → sent ≡ d.access_unit
    → IsWaiting P base (after_submit lib d sent r).0
unfolding after_submit
after_submit-IsWaiting lib P base d sent (s, false) w f e = w
after_submit-IsWaiting lib P base d sent (s, true) w f e =
    let unit : Bytes × ℕ = (sent, d.current_timestamp) in
    after_decode-IsWaiting P base (count_unit d sent) (decode_loop lib 8 s) (record {
      waits = w.waits;
      no_slices = refl;
      plain = no_nals;
      open_nal = λ o. cc (f, o);
      units = w.units ++ unit ∷ [];
      accepted =
          ap (λ (us : List (Bytes × ℕ)). us ++ unit ∷ []) w.accepted
          ∙ append_assoc base w.units (unit ∷ []);
      units_plain =
          All-append (λ (u : Bytes × ℕ). IsPlain P u.0) w.units (unit ∷ []) w.units_plain
            (subst (IsPlain P) (sym e) w.plain, tt);
    })

after_request-IsWaiting :
    {S : Type 0} (lib : Library S) (P : Bytes → Type 0) (base : List (Bytes × ℕ)) (d : Cedar S)
    (r : S × Option (ℕ × ℕ))
    → IsWaiting P base d
    → d.fu_started ≡ false
    → IsWaiting P base (after_request lib d r).0
unfolding after_request
after_request-IsWaiting lib P base d (s, none) w f = reset_access_unit-IsWaiting P base d w
after_request-IsWaiting {S} lib P base d (s, some (size, ring_size)) w f =
    if_elim (λ (r : Cedar S × Bool). IsWaiting P base r.0)
      (ltb (size + ring_size) (length d.access_unit)) (λ e. reset_access_unit-IsWaiting P base d w)
      (λ e.
        after_submit-IsWaiting lib P base d _
          (lib.submit_data s (take size d.access_unit) (drop size d.access_unit)
            (length d.access_unit) d.current_timestamp)
          w f (take-append-drop size d.access_unit))

submit_access_unit-IsWaiting :
    {S : Type 0} (lib : Library S) (P : Bytes → Type 0) (base : List (Bytes × ℕ)) (d : Cedar S)
    → IsWaiting P base d
    → d.fu_started ≡ false
    → IsWaiting P base (submit_access_unit lib d).0
unfolding submit_access_unit
submit_access_unit-IsWaiting {S} lib P base d w f =
    if_elim (λ (r : Cedar S × Bool). IsWaiting P base r.0) (length d.access_unit == 0) (λ e. w)
      (λ e.
        after_request-IsWaiting lib P base d (lib.request_buffer d.library (length d.access_unit)) w
          f)

IsWaiting-again :
    {S : Type 0} (P : Bytes → Type 0) (base : List (Bytes × ℕ)) (d : Cedar S)
    → IsWaiting P base d
    → IsWaiting P base (record d { require_idr = true })
IsWaiting-again P base d w = record {
  waits = refl;
  no_slices = w.no_slices;
  plain = w.plain;
  open_nal = w.open_nal;
  units = w.units;
  accepted = w.accepted;
  units_plain = w.units_plain;
}

follow_sequence-IsWaiting :
    {S : Type 0} (P : Bytes → Type 0) (base : List (Bytes × ℕ)) (d : Cedar S) (sequence : ℕ)
    → IsWaiting P base d
    → IsWaiting P base (follow_sequence d sequence).0
unfolding follow_sequence
follow_sequence-IsWaiting {S} P base d sequence w =
    let Result : Cedar S × Bool → Type 0 = λ r. IsWaiting P base r.0 in
    let delta = sequence_delta sequence d.expected_sequence in
    if_elim Result (not d.have_sequence) (λ e. w)
      (λ e.
        if_elim Result (ltb_ℤ delta (pos 0)) (λ e'. w)
          (λ e'.
            if_elim Result (ltb_ℤ (pos 0) delta)
              (λ g.
                IsWaiting-again P base (reset_access_unit d)
                  (reset_access_unit-IsWaiting P base d w))
              (λ g. w)))

close_stale-IsWaiting :
    {S : Type 0} (lib : Library S) (P : Bytes → Type 0) (base : List (Bytes × ℕ)) (d : Cedar S)
    (timestamp : ℕ)
    → IsWaiting P base d
    → IsWaiting P base (close_stale lib d timestamp).0
unfolding close_stale
close_stale-IsWaiting {S} lib P base d timestamp w =
    let Result : Cedar S × Bool → Type 0 = λ r. IsWaiting P base r.0 in
    if_elim Result
      (d.have_timestamp
        && not (timestamp == d.current_timestamp)
        && not (length d.access_unit == 0))
      (λ e.
        if_elim Result d.fu_started (λ f. reset_access_unit-IsWaiting P base d w)
          (λ f. submit_access_unit-IsWaiting lib P base d w f))
      (λ e. w)

finish-IsWaiting :
    {S : Type 0} (lib : Library S) (P : Bytes → Type 0) (base : List (Bytes × ℕ)) (d : Cedar S)
    (marker : Bool)
    → IsWaiting P base d
    → IsWaiting P base (finish lib d marker).0
unfolding finish
finish-IsWaiting {S} lib P base d marker w =
    if_elim (λ (r : Cedar S × Bool). IsWaiting P base r.0)
      (marker && not (length d.access_unit == 0) && not d.fu_started)
      (λ e. submit_access_unit-IsWaiting lib P base d w (ground arith)) (λ e. w)

and_then-IsWaiting :
    {S : Type 0} (P : Bytes → Type 0) (base : List (Bytes × ℕ)) (r : Cedar S × Bool)
    (k : Cedar S → Cedar S × Bool)
    → IsWaiting P base r.0
    → ((d : Cedar S) → IsWaiting P base d → IsWaiting P base (k d).0)
    → IsWaiting P base (and_then r k).0
and_then-IsWaiting P base (d, true) k w h = h d w
and_then-IsWaiting P base (d, false) k w h = w

if_used-IsWaiting :
    {S : Type 0} (P : Bytes → Type 0) (base : List (Bytes × ℕ)) (r : Cedar S × Bool)
    (k : Cedar S → Cedar S × Bool)
    → IsWaiting P base r.0
    → ((d : Cedar S) → IsWaiting P base d → IsWaiting P base (k d).0)
    → IsWaiting P base (if_used r k).0
if_used-IsWaiting P base (d, true) k w h = h d w
if_used-IsWaiting P base (d, false) k w h = w

pub append_in_time-IsWaiting :
    {S : Type 0} (lib : Library S) (P : Bytes → Type 0) (base : List (Bytes × ℕ)) (d : Cedar S)
    (payload : Bytes) (next : ℕ) (marker : Bool) (timestamp : ℕ)
    → IsWaiting P base d
    → has_idr payload next ≡ false
    → P payload
    → IsWaiting P base (append_in_time lib d payload next marker timestamp).0
unfolding append_in_time
append_in_time-IsWaiting lib P base d payload next marker timestamp w h q =
    and_then-IsWaiting P base (close_stale lib d timestamp) _
      (close_stale-IsWaiting lib P base d timestamp w)
      (λ d' w'.
        if_used-IsWaiting P base
          (append_nals (record d' { current_timestamp = timestamp; have_timestamp = true }) payload
            next timestamp)
          _
          (append_nals-IsWaiting P base
            (record d' { current_timestamp = timestamp; have_timestamp = true }) payload next
            timestamp w' h q)
          (λ grown w''. finish-IsWaiting lib P base grown marker w''))

append_h264_payload-IsWaiting :
    {S : Type 0} (lib : Library S) (P : Bytes → Type 0) (base : List (Bytes × ℕ)) (d : Cedar S)
    (payload : Bytes) (next : ℕ) (marker : Bool) (sequence timestamp : ℕ)
    → IsWaiting P base d
    → has_idr payload next ≡ false
    → P payload
    → IsWaiting P base (append_h264_payload lib d payload next marker sequence timestamp).0
unfolding append_h264_payload
append_h264_payload-IsWaiting {S} lib P base d payload next marker sequence timestamp w h q =
    let Result : Cedar S × Bool → Type 0 = λ r. IsWaiting P base r.0 in
    if_elim Result (length payload == 0) (λ e. w)
      (λ e.
        if_elim Result (d.dropping_timestamp && timestamp == d.drop_timestamp) (λ e'. w)
          (λ e'.
            if_used-IsWaiting P base
              (follow_sequence (record d { dropping_timestamp = false }) sequence) _
              (follow_sequence-IsWaiting P base (record d { dropping_timestamp = false }) sequence
                w)
              (λ d' w'.
                append_in_time-IsWaiting lib P base d' payload next marker timestamp w' h q)))

-- The arguments of `append_h264_payload` for one packet.
pub record Payload : Type 0 where
  pub bytes : Bytes
  pub next : ℕ
  pub marker : Bool
  pub sequence : ℕ
  pub timestamp : ℕ

-- The calls for the packets of a stream, whatever each returns.
unfoldable pub append_all : {S : Type 0} → Library S → Cedar S → List Payload → Cedar S
append_all lib d [] = d
append_all lib d (p ∷ ps) =
    append_all lib (append_h264_payload lib d p.bytes p.next p.marker p.sequence p.timestamp).0 ps

append_all-IsWaiting :
    {S : Type 0} (lib : Library S) (P : Bytes → Type 0) (base : List (Bytes × ℕ)) (d : Cedar S)
    (payloads : List Payload)
    → IsWaiting P base d
    → All (λ p. has_idr p.bytes p.next ≡ false) payloads
    → All (λ p. P p.bytes) payloads
    → IsWaiting P base (append_all lib d payloads)
unfolding append_all
append_all-IsWaiting lib P base d [] w h q = w
append_all-IsWaiting lib P base d (p ∷ ps) w h q =
    append_all-IsWaiting lib P base
      (append_h264_payload lib d p.bytes p.next p.marker p.sequence p.timestamp).0 ps
      (append_h264_payload-IsWaiting lib P base d p.bytes p.next p.marker p.sequence p.timestamp w
        h.0 q.0)
      h.1 q.1

-- The payload is one of these.
abbrev pub IsOneOf : List Payload → Bytes → Type 0
IsOneOf [] bytes = ⊥
IsOneOf (p ∷ ps) bytes = (bytes ≡ p.bytes) ⊎ IsOneOf ps bytes

pub IsOneOf-all : (payloads : List Payload) → All (λ p. IsOneOf payloads p.bytes) payloads
IsOneOf-all [] = tt
IsOneOf-all (p ∷ ps) = (
  inl refl,
  All-mono (λ q. IsOneOf ps q.bytes) (λ q. IsOneOf (p ∷ ps) q.bytes) ps (λ q h. inr h)
      (IsOneOf-all ps),
)

-- A decoder that waits with an empty unit, from which the log is counted.
pub IsWaiting-start :
    {S : Type 0} (P : Bytes → Type 0) (d : Cedar S)
    → d.require_idr ≡ true
    → d.access_unit_has_vcl ≡ false
    → d.access_unit ≡ []
    → d.fu_started ≡ false
    → IsWaiting P d.submitted d
IsWaiting-start P d w v u f = record {
  waits = w;
  no_slices = v;
  plain = subst (IsPlain P) (sym u) no_nals;
  open_nal = λ e. cc (e, f);
  units = [];
  accepted = sym (append-nil d.submitted);
  units_plain = tt;
}

-- From the start of the decoder, payloads none of which holds an IDR slice or starts one, whatever
-- their order, time stamps, losses and the library's answers: the decoder still waits, and each
-- unit that the library is given is put together of NALs that came in these payloads, none of them
-- a slice.
pub append_all-fresh :
    {S : Type 0} (lib : Library S) (s : S) (payloads : List Payload)
    → All (λ p. has_idr p.bytes p.next ≡ false) payloads
    → let d = append_all lib (fresh s) payloads in
      (d.require_idr ≡ true) × All (λ u. IsPlain (IsOneOf payloads) u.0) d.submitted
append_all-fresh lib s payloads h =
    let P = IsOneOf payloads in
    let start = IsWaiting-start P (fresh s) refl refl refl refl in
    let w = append_all-IsWaiting lib P [] (fresh s) payloads start h (IsOneOf-all payloads) in
    (w.waits, subst (All (λ (u : Bytes × ℕ). IsPlain P u.0)) (sym w.accepted) w.units_plain)
