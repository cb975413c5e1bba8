-- ===== src/Video/Rtp.antt =====
-- The RTP header, from the first half of `handle_rtp_packet` of
-- src/video/rockchip_mpp_rtp_decoder.cpp. Masks and shifts of a byte are remainders and quotients.
pub mod Slice
pub mod RoundTrip
use openhd_glide.Base.{
  ℕ, ◌+◌, ◌-◌, ◌*◌, ◌/◌, ◌%◌, ◌^◌, Bool, true, false, not, ◌&&◌, ◌||◌, Option, none, some, ltb, leb,
  ◌==◌, if◌then◌else◌, length, get_or, take, drop, Bytes,
}
use openhd_glide.Base.Int.{ℤ, signed}

-- Every read of the source lies behind a bounds test; the default is never seen.
abbrev pub byte_at : Bytes → ℕ → ℕ
byte_at packet k = get_or packet k 0

-- Bit `k` of a byte.
abbrev pub has_bit : ℕ → ℕ → Bool
has_bit b k = b / 2 ^ k % 2 == 1

pub record RtpPacket : Type 0 where
  pub marker : Bool
  pub sequence : ℕ
  pub timestamp : ℕ
  pub payload : Bytes

-- `offset` behind the contributing sources and the extension, if it lies inside the packet.
unfoldable pub payload_offset : Bytes → Option ℕ
payload_offset packet =
    let size = length packet in
    let offset = 12 + byte_at packet 0 % 16 * 4 in
    let extension_words = byte_at packet (offset + 2) * 256 + byte_at packet (offset + 3) in
    let behind = offset + (4 + extension_words * 4) in
    if ltb size offset
    then none
    else if not (has_bit (byte_at packet 0) 4)
    then some offset
    else if ltb size (offset + 4)
    then none
    else if ltb size behind
    then none
    else some behind

-- `payload_size`, less the padding that the last byte counts.
unfoldable pub payload_size : Bytes → ℕ → ℕ
payload_size packet offset =
    let size = length packet in
    let padding = byte_at packet (size - 1) in
    let whole = size - offset in
    if has_bit (byte_at packet 0) 5 && ltb 0 whole && leb padding whole
    then whole - padding
    else whole

unfoldable pub read_header : Bytes → ℕ → ℕ → RtpPacket
read_header packet offset size = record {
  marker = has_bit (byte_at packet 1) 7;
  sequence = byte_at packet 2 * 256 + byte_at packet 3;
  timestamp =
      byte_at packet 4 * 16777216
      + byte_at packet 5 * 65536
      + byte_at packet 6 * 256
      + byte_at packet 7;
  payload = take size (drop offset packet);
}

-- `none` stands for the early returns that ignore the packet.
unfoldable pub parse_at : Bytes → Option ℕ → Option RtpPacket
parse_at packet none = none
parse_at packet (some offset) =
    if payload_size packet offset == 0
    then none
    else some (read_header packet offset (payload_size packet offset))

unfoldable pub parse_rtp : Bytes → Option RtpPacket
parse_rtp packet =
    if ltb (length packet) 12 || not (byte_at packet 0 / 64 == 2)
    then none
    else parse_at packet (payload_offset packet)

-- `static_cast<std::int16_t>(sequence - expected_sequence_)`.
unfoldable pub sequence_delta : ℕ → ℕ → ℤ
sequence_delta sequence expected = signed 16 ((sequence + 65536 - expected) % 65536)

-- `static_cast<std::int32_t>(timestamp - last_rtp_timestamp_)`.
unfoldable pub timestamp_delta : ℕ → ℕ → ℤ
timestamp_delta timestamp last = signed 32 ((timestamp + 2 ^ 32 - last) % 2 ^ 32)
