-- ===== src/Mavlink/Packet.antt =====
-- `crc_accumulate`, `put_le`, `put_fixed_string` and `send_packet` of
-- src/common/mavlink_udp_bridge.cpp.
pub mod RoundTrip
pub mod Delivery
pub mod Sequence
use openhd_glide.Base.{
  ℕ, zero, suc, ◌+◌, ◌-◌, ◌*◌, ◌/◌, ◌%◌, bit_xor, Bool, true, false, not, ◌&&◌, ◌||◌, List, [], ◌∷◌,
  ◌++◌, Option, none, some, ltb, ◌==◌, if◌then◌else◌, length, take, replicate, min, Bytes,
}
use openhd_glide.Base.Int.{ℤ, pos, negsuc}
use openhd_glide.Mavlink.Bridge.{UdpBridge, PeerStorage, NetworkTransport, udp, tcp}

-- The shifts of `std::uint8_t` and `std::uint16_t` operands, with the casts as remainders.
unfoldable pub crc_accumulate : ℕ → ℕ → ℕ
crc_accumulate data' crc =
    let folded = bit_xor data' (crc % 256) in
    let d = bit_xor folded (folded * 16 % 256) in
    bit_xor (bit_xor (bit_xor (crc / 256) (d * 256)) (d * 8)) (d / 16) % 65536

unfoldable pub crc_over : Bytes → ℕ → ℕ
crc_over [] crc = crc
crc_over (b ∷ bs) crc = crc_over bs (crc_accumulate b crc)

-- `put_le<T>`: the low byte first, `size` bytes.
unfoldable pub put_le : ℕ → ℕ → Bytes
put_le zero value = []
put_le (suc size) value = value % 256 ∷ put_le size (value / 256)

unfoldable pub put_fixed_string : Bytes → ℕ → Bytes
put_fixed_string value len =
    let copy = min (length value) len in take copy value ++ replicate (len - copy) 0

-- The bytes that the checksum covers, and the magic byte before them.
unfoldable pub packet_body : UdpBridge → ℕ → Bytes → Bytes
packet_body b message_id payload =
    0xfd
    ∷ length payload % 256
    ∷ 0
    ∷ 0
    ∷ b.sequence
    ∷ b.options.system_id
    ∷ b.options.component_id
    ∷ message_id % 256
    ∷ message_id / 256 % 256
    ∷ message_id / 65536 % 256
    ∷ payload

unfoldable pub packet_crc : ℕ → Bytes → ℕ
packet_crc crc_extra [] = crc_accumulate crc_extra 0xffff
packet_crc crc_extra (magic ∷ covered) = crc_accumulate crc_extra (crc_over covered 0xffff)

unfoldable pub packet : UdpBridge → ℕ → ℕ → Bytes → Bytes
packet b message_id crc_extra payload =
    let body = packet_body b message_id payload in
    let crc = packet_crc crc_extra body in body ++ (crc % 256 ∷ crc / 256 % 256 ∷ [])

-- `fd_ < 0`, the payload is too long, or UDP has no valid peer yet.
unfoldable pub cannot_send : UdpBridge → Bytes → Bool
cannot_send b payload =
    (elim b.fd [ none ↦ true | some n ↦ false ])
    || ltb 255 (length payload)
    || elim b.transport [ udp ↦ elim b.peer [ none ↦ true | some p ↦ not p.valid ] | tcp ↦ false ]

-- What `send` and `sendto` return for these bytes: the number sent, or -1. They are given the
-- bridge for its socket, its transport and its peer.
abbrev pub Transmit : Type 0
Transmit = UdpBridge → Bytes → ℤ

-- `sent == static_cast<int>(packet.size())`.
unfoldable pub sent_all : ℤ → Bytes → Bool
sent_all (pos n) bytes = n == length bytes
sent_all (negsuc n) bytes = false

-- The bridge after the call, the packet that was handed to the socket, and the result.
unfoldable pub send_packet : Transmit → UdpBridge → ℕ → ℕ → Bytes → UdpBridge × Option Bytes × Bool
unfolding cannot_send sent_all
send_packet transmit b message_id crc_extra payload =
    let sent_packet = packet b message_id crc_extra payload in
    let b' = record b { sequence = (b.sequence + 1) % 256 } in
    if cannot_send b payload
    then (b, none, false)
    else (b', some sent_packet, sent_all (transmit b' sent_packet) sent_packet)
