-- ===== src/Video/Rtp/Slice.antt =====
-- Bounds of `parse_rtp`: the payload lies inside the packet, whatever the header says.
use openhd_glide.Base.{
  ℕ, ◌-◌, ◌≤◌, ◌<◌, ◌≡◌, refl, sym, ap, ◌∙◌, ◌++◌, Option, none, some, length, length-take,
  length-drop, take, drop, take-append-drop, Bytes, arith,
}
use openhd_glide.Video.Rtp.{
  RtpPacket, payload_offset, payload_size, read_header, parse_at, parse_rtp,
}

-- `payload` is a stretch of `packet` behind its fixed header, and not empty.
pub record IsSlice (packet payload : Bytes) : Type 0 where
  pub before : Bytes
  pub behind : Bytes
  pub splits : packet ≡ before ++ (payload ++ behind)
  pub past_header : 12 ≤ length before
  pub has_bytes : 0 < length payload

payload_offset_bounds :
    (packet : Bytes) (offset : ℕ)
    → payload_offset packet ≡ some offset
    → (12 ≤ offset) × (offset ≤ length packet)
unfolding payload_offset
payload_offset_bounds packet offset e = ground arith

payload_size-le :
    (packet : Bytes) (offset : ℕ) → payload_size packet offset ≤ length packet - offset
unfolding payload_size
payload_size-le packet offset = ground arith

IsSlice-at :
    (packet : Bytes) (offset size : ℕ)
    → 12 ≤ offset
    → offset ≤ length packet
    → size ≤ length packet - offset
    → 0 < size
    → IsSlice packet (take size (drop offset packet))
IsSlice-at packet offset size h k l n = record {
  before = take offset packet;
  behind = drop size (drop offset packet);
  splits = sym (
      ap (◌++◌ (take offset packet)) (take-append-drop size (drop offset packet))
      ∙ take-append-drop offset packet);
  past_header = omega (arith, length-take offset packet);
  has_bytes = omega (arith, length-take size (drop offset packet), length-drop offset packet);
}

checked :
    (packet : Bytes) (r : RtpPacket)
    → parse_rtp packet ≡ some r
    → parse_at packet (payload_offset packet) ≡ some r
unfolding parse_rtp
checked packet r e = ground arith

parse_at-size :
    (packet : Bytes) (offset : ℕ) (r : RtpPacket)
    → parse_at packet (some offset) ≡ some r
    → 0 < payload_size packet offset
unfolding parse_at
parse_at-size packet offset r e = ground arith

parse_at-header :
    (packet : Bytes) (offset : ℕ) (r : RtpPacket)
    → parse_at packet (some offset) ≡ some r
    → r ≡ read_header packet offset (payload_size packet offset)
unfolding parse_at
parse_at-header packet offset r e = ground arith

-- Where the parts of an accepted packet come from.
abbrev Comes : Bytes → RtpPacket → Option ℕ → Type 0
Comes packet r at =
    (offset : ℕ) × (at ≡ some offset)
    × (0 < payload_size packet offset)
    × (r ≡ read_header packet offset (payload_size packet offset))

parse_at-some :
    (packet : Bytes) (r : RtpPacket) (at : Option ℕ)
    → parse_at packet at ≡ some r
    → Comes packet r at
parse_at-some packet r none e = unfold parse_at in cc e
parse_at-some packet r (some offset) e =
    (offset, refl, parse_at-size packet offset r e, parse_at-header packet offset r e)

parse_rtp-some :
    (packet : Bytes) (r : RtpPacket)
    → parse_rtp packet ≡ some r
    → Comes packet r (payload_offset packet)
parse_rtp-some packet r e = parse_at-some packet r (payload_offset packet) (checked packet r e)

-- The payload of every accepted packet is a stretch of the packet, behind the fixed header.
pub parse_rtp-IsSlice :
    (packet : Bytes) (r : RtpPacket) → parse_rtp packet ≡ some r → IsSlice packet r.payload
parse_rtp-IsSlice packet r e =
    let (offset, at, has_bytes, same) = parse_rtp-some packet r e in
    let (past, inside) = payload_offset_bounds packet offset at in
    rw same (
      unfold read_header in
      IsSlice-at packet offset (payload_size packet offset) past inside
        (payload_size-le packet offset) has_bytes)
