-- ===== src/Video/Rtp/RoundTrip.antt =====
-- An RTP packet as RFC 3550 has it, with no padding, extension or contributing source.
use openhd_glide.Base.{
  ℕ, ◌+◌, ◌*◌, ◌/◌, ◌%◌, ◌^◌, ◌<◌, ◌≡◌, refl, Bool, true, false, ◌∷◌, [], some, length, take, Bytes,
  arith, ltb, ◌==◌, if◌then◌else◌, ap,
}
use openhd_glide.Video.Rtp.{has_bit, payload_offset, payload_size, read_header, parse_at, parse_rtp}

abbrev pub rtp_packet : Bool → ℕ → ℕ → Bytes → Bytes
rtp_packet marker sequence timestamp payload =
    0x80
    ∷ (if marker then 224 else 96)
    ∷ sequence / 256
    ∷ sequence % 256
    ∷ timestamp / 16777216
    ∷ timestamp / 65536 % 256
    ∷ timestamp / 256 % 256
    ∷ timestamp % 256
    ∷ 0
    ∷ 0
    ∷ 0
    ∷ 1
    ∷ payload

take_whole : (xs : Bytes) → take (length xs) xs ≡ xs
take_whole [] = refl
take_whole (x ∷ xs) = ap (◌∷◌ x) (take_whole xs)

marker_bit : (marker : Bool) → has_bit (if marker then 224 else 96) 7 ≡ marker
marker_bit true = refl
marker_bit false = refl

module _ (marker : Bool) (sequence timestamp : ℕ) (payload : Bytes) where
  abbrev bytes : Bytes
  bytes = rtp_packet marker sequence timestamp payload

  payload_offset-rtp_packet : payload_offset bytes ≡ some 12
  unfolding payload_offset
  payload_offset-rtp_packet = let inside : ltb (length bytes) 12 ≡ false = ground arith in rw inside

  payload_size-rtp_packet : payload_size bytes 12 ≡ length payload
  unfolding payload_size
  payload_size-rtp_packet = omega arith

  -- The packet is read back: its marker, number, time stamp and payload. The number and the time
  -- stamp fit their fields, and there is a payload.
  pub parse_rtp-rtp_packet :
      sequence < 65536
      → timestamp < 2 ^ 32
      → 0 < length payload
      → parse_rtp (rtp_packet marker sequence timestamp payload)
        ≡ some (record {
          marker = marker;
          sequence = sequence;
          timestamp = timestamp;
          payload = payload;
        })
  unfolding parse_rtp parse_at read_header
  parse_rtp-rtp_packet s t k =
      let inside : ltb (length bytes) 12 ≡ false = ground arith in
      let carries : (length payload == 0) ≡ false = ground (arith, k) in
      let number : sequence / 256 * 256 + sequence % 256 ≡ sequence = omega arith in
      let time : timestamp / 16777216 * 16777216
            + timestamp / 65536 % 256 * 65536
            + timestamp / 256 % 256 * 256
            + timestamp % 256
          ≡ timestamp =
        omega (arith, t) in
      rw (inside, payload_offset-rtp_packet)
        (rw (payload_size-rtp_packet, carries)
          (rw (marker_bit marker, number, time, take_whole payload)))
