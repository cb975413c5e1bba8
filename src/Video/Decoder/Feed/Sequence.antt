-- ===== src/Video/Decoder/Feed/Sequence.antt =====
-- Sequence numbers: what `track_sequence` makes of a packet by its distance from the expected one,
-- counted modulo 2 ^ 16.
use native.Mathlib.Decide.{dec_lt}
use openhd_glide.Base.{
  ltb, ◌==◌, if◌then◌else◌, ℕ, suc, ◌+◌, ◌-◌, ◌%◌, ◌^◌, ◌≤◌, ◌<◌, ◌≡◌, Bool, true, false, arith,
}
use openhd_glide.Base.Int.{pos, negsuc}
use openhd_glide.Video.Rtp.{sequence_delta, timestamp_delta}
use openhd_glide.Video.Decoder.{Decoder}
use openhd_glide.Video.Decoder.Feed.{drop_partial, accept_sequence, is_resync, track_sequence}

-- The distance forwards and back, as the code computes it.
delta-ahead :
    (expected k : ℕ)
    → expected < 65536
    → k < 32768
    → sequence_delta ((expected + k) % 65536) expected ≡ pos k
unfolding sequence_delta
delta-ahead expected k h l =
    let e : ((expected + k) % 65536 + 65536 - expected) % 65536 ≡ k = omega arith in
    rw e (ground arith)

delta-behind :
    (expected k : ℕ)
    → expected < 65536
    → 0 < k
    → k ≤ 32768
    → sequence_delta ((expected + 65536 - k) % 65536) expected ≡ negsuc (k - 1)
unfolding sequence_delta
delta-behind expected k h l m =
    let e : ((expected + 65536 - k) % 65536 + 65536 - expected) % 65536 ≡ 65536 - k = omega arith in
    rw e (ground arith)

pub delta-expected : (expected : ℕ) → expected < 65536 → sequence_delta expected expected ≡ pos 0
unfolding sequence_delta
delta-expected expected h = let e : (expected + 65536 - expected) % 65536 ≡ 0 = omega arith in rw e

time-ahead :
    (last j : ℕ) → last < 2 ^ 32 → j < 2 ^ 31 → timestamp_delta ((last + j) % 2 ^ 32) last ≡ pos j
unfolding timestamp_delta
time-ahead last j h l =
    let e : ((last + j) % 2 ^ 32 + 2 ^ 32 - last) % 2 ^ 32 ≡ j = omega arith in rw e (ground arith)

-- What becomes of a packet.
pub data Verdict : Type 0 where
  in_order gap late resync : Verdict

abbrev pub counted : Decoder → Decoder
counted d = record d { rtp_packets = suc d.rtp_packets }

abbrev pub outcome : Decoder → ℕ → ℕ → Verdict → Decoder × Bool
outcome d sequence timestamp in_order = (accept_sequence (counted d) sequence timestamp, true)
outcome d sequence timestamp gap = (
  accept_sequence
      (record (drop_partial (counted d)) { rtp_sequence_gaps = suc d.rtp_sequence_gaps }) sequence
      timestamp,
  true,
)
outcome d sequence timestamp late =
    (record (counted d) { late_or_duplicate_packets = suc d.late_or_duplicate_packets }, false)
outcome d sequence timestamp resync = (
  accept_sequence
      (record (drop_partial (counted d)) { rtp_sequence_resyncs = suc d.rtp_sequence_resyncs })
      sequence timestamp,
  true,
)

module _ (d : Decoder) (timestamp k : ℕ) (have : d.have_sequence ≡ true)
    (range : d.expected_sequence < 65536) where
  -- The expected packet is used, and nothing that was collected is lost.
  pub track_sequence-expected :
      track_sequence d d.expected_sequence timestamp
      ≡ outcome d d.expected_sequence timestamp in_order
  unfolding track_sequence
  track_sequence-expected = rw (have, delta-expected d.expected_sequence range)

  -- A packet up to half the range ahead shows a gap: what was collected so far is dropped.
  pub track_sequence-ahead :
      0 < k
      → k < 32768
      → let sequence = (d.expected_sequence + k) % 65536 in
        track_sequence d sequence timestamp ≡ outcome d sequence timestamp gap
  unfolding track_sequence
  track_sequence-ahead h l = rw (have, delta-ahead d.expected_sequence k range l) (ground arith)

  -- A packet more than a thousand behind starts the stream anew.
  pub track_sequence-far_behind :
      1000 < k
      → k ≤ 32768
      → let sequence = (d.expected_sequence + 65536 - k) % 65536 in
        track_sequence d sequence timestamp ≡ outcome d sequence timestamp resync
  unfolding track_sequence is_resync
  track_sequence-far_behind h l =
      rw (have, delta-behind d.expected_sequence k range (omega arith) l) (ground arith)

-- A packet up to a thousand behind, with a time stamp that is not behind the last one, is late or a
-- duplicate: it is counted, and the decoder is else as it was.
track_sequence-late :
    (d : Decoder) (j k : ℕ)
    → d.have_sequence ≡ true
    → d.have_rtp_timestamp ≡ true
    → d.expected_sequence < 65536
    → d.last_rtp_timestamp < 2 ^ 32
    → j < 2 ^ 31
    → 0 < k
    → k ≤ 1000
    → let sequence = (d.expected_sequence + 65536 - k) % 65536 in
      let timestamp = (d.last_rtp_timestamp + j) % 2 ^ 32 in
      track_sequence d sequence timestamp ≡ outcome d sequence timestamp late
unfolding track_sequence is_resync
track_sequence-late d j k have stamped range last_range a b c =
    rw
      (
        have,
        stamped,
        delta-behind d.expected_sequence k range b (omega arith),
        time-ahead d.last_rtp_timestamp j last_range a,
      )
      (ground arith)

-- The verdict on a packet that is `ahead` after the expected one, counted modulo 2 ^ 16.
abbrev pub verdict_of : ℕ → Verdict
verdict_of ahead =
    if ahead == 0
    then in_order
    else if ltb ahead 32768
    then gap
    else if ltb ahead 64536
    then resync
    else late

-- The rule for every sequence number once a packet has come, while time stamps do not run back by
-- their signed difference: the expected packet is in order, one up to half the range ahead shows a
-- gap, one up to a thousand behind is late, and any other starts the stream anew. The numbers and
-- the time stamps fit their 16 and 32 bits.
pub track_sequence-verdict_of :
    (d : Decoder) (ahead j : ℕ)
    → d.have_sequence ≡ true
    → d.have_rtp_timestamp ≡ true
    → d.expected_sequence < 65536
    → d.last_rtp_timestamp < 2 ^ 32
    → j < 2 ^ 31
    → ahead < 65536
    → let sequence = (d.expected_sequence + ahead) % 65536 in
      let timestamp = (d.last_rtp_timestamp + j) % 2 ^ 32 in
      track_sequence d sequence timestamp ≡ outcome d sequence timestamp (verdict_of ahead)
track_sequence-verdict_of d ahead j have stamped range last_range a b =
    let timestamp = (d.last_rtp_timestamp + j) % 2 ^ 32 in
    elim (dec_lt 0 ahead) [
      | no z ↦
          let at_start : (d.expected_sequence + ahead) % 65536 ≡ d.expected_sequence =
            omega arith in
          let kind : verdict_of ahead ≡ in_order = ground arith in
          rw (at_start, kind) (track_sequence-expected d timestamp ahead have range)
      | yes h ↦ elim (dec_lt ahead 32768) [
        | yes l ↦
            let kind : verdict_of ahead ≡ gap = ground arith in
            rw kind (track_sequence-ahead d timestamp ahead have range h l)
        | no l ↦
            let back : (d.expected_sequence + ahead) % 65536
                ≡ (d.expected_sequence + 65536 - (65536 - ahead)) % 65536 =
              omega arith in
            elim (dec_lt ahead 64536) [
              | yes m ↦
                  let kind : verdict_of ahead ≡ resync = ground arith in
                  rw (back, kind)
                    (track_sequence-far_behind d timestamp (65536 - ahead) have range (omega arith)
                      (omega arith))
              | no m ↦
                  let kind : verdict_of ahead ≡ late = ground arith in
                  rw (back, kind)
                    (track_sequence-late d j (65536 - ahead) have stamped range last_range a
                      (omega arith) (omega arith))
            ]
      ]
    ]
