-- ===== src/Mavlink/Packet/Sequence.antt =====
-- The sequence numbers of the packets that one bridge sends.
use openhd_glide.Base.{
  true, false, ℕ, suc, ◌+◌, ◌%◌, ◌<◌, ◌≡◌, refl, List, [], ◌∷◌, ◌++◌, Bytes, map, get_or, arith,
  some, none, Option, Bool-cases, inl, inr,
}
use openhd_glide.Mavlink.Bridge.{UdpBridge}
use openhd_glide.Mavlink.Packet.{Transmit, cannot_send, packet, packet_body, send_packet, sent_all}

pub record Message : Type 0 where
  pub id : ℕ
  pub crc_extra : ℕ
  pub payload : Bytes

abbrev handed_bytes : Option Bytes → List Bytes
handed_bytes none = []
handed_bytes (some bytes) = bytes ∷ []

-- One call of `send_packet` after the other: the packets handed to the socket.
unfoldable pub send_each : Transmit → UdpBridge → List Message → List Bytes
send_each transmit b [] = []
send_each transmit b (m ∷ ms) =
    let (b', handed, ok) = send_packet transmit b m.id m.crc_extra m.payload in
    handed_bytes handed ++ send_each transmit b' ms

-- As many numbers of a byte as the list has entries, from `n` on.
abbrev pub count_from : ℕ → List Bytes → List ℕ
count_from n [] = []
count_from n (x ∷ xs) = n % 256 ∷ count_from (suc n) xs

abbrev pub sequence_of : Bytes → ℕ
sequence_of bytes = get_or bytes 4 0

count_from-wrap :
    (n : ℕ) (xs : List Bytes) (m : ℕ) → n % 256 ≡ m % 256 → count_from n xs ≡ count_from m xs
count_from-wrap n [] m h = refl
count_from-wrap n (x ∷ xs) m h = rw (h, count_from-wrap (suc n) xs (suc m) (omega (arith, h)))

sequence_of-packet :
    (b : UdpBridge) (id crc_extra : ℕ) (payload : Bytes)
    → sequence_of (packet b id crc_extra payload) ≡ b.sequence
unfolding packet packet_body
sequence_of-packet b id crc_extra payload = refl

module _ (transmit : Transmit) (b : UdpBridge) (m : Message) (ms : List Message) where
  send_packet-refused :
      cannot_send b m.payload ≡ true
      → send_packet transmit b m.id m.crc_extra m.payload ≡ (b, none, false)
  unfolding send_packet
  send_packet-refused e = rw (e, send_packet)

  send_packet-sent :
      cannot_send b m.payload ≡ false
      → let bytes = packet b m.id m.crc_extra m.payload in
        let b' = record b { sequence = (b.sequence + 1) % 256 } in
        send_packet transmit b m.id m.crc_extra m.payload
        ≡ (b', some bytes, sent_all (transmit b' bytes) bytes)
  unfolding send_packet
  send_packet-sent e = rw (e, send_packet)

  send_each-refused :
      cannot_send b m.payload ≡ true → send_each transmit b (m ∷ ms) ≡ send_each transmit b ms
  unfolding send_each
  send_each-refused e = rw (send_packet-refused e)

  send_each-sent :
      cannot_send b m.payload ≡ false
      → send_each transmit b (m ∷ ms)
        ≡ packet b m.id m.crc_extra m.payload
          ∷ send_each transmit (record b { sequence = (b.sequence + 1) % 256 }) ms
  unfolding send_each
  send_each-sent e = rw (send_packet-sent e)

-- Whatever is sent, refused or lost, the packets that the socket is handed carry consecutive
-- sequence numbers, which wrap at 256, from the bridge's own on, a byte.
pub send_each-count_from :
    (transmit : Transmit) (ms : List Message) (b : UdpBridge)
    → b.sequence < 256
    → let sent = send_each transmit b ms in map sequence_of sent ≡ count_from b.sequence sent
send_each-count_from transmit [] b h = unfold send_each in refl
send_each-count_from transmit (m ∷ ms) b h = elim (Bool-cases (cannot_send b m.payload)) [
  | inl e ↦ rw (send_each-refused transmit b m ms e) (send_each-count_from transmit ms b h)
  | inr e ↦
      let b' = record b { sequence = (b.sequence + 1) % 256 } in
      let sent = send_each transmit b' ms in
      let this : b.sequence % 256 ≡ b.sequence = omega (arith, h) in
      rw (
        send_each-sent transmit b m ms e,
        sequence_of-packet b m.id m.crc_extra m.payload,
        send_each-count_from transmit ms b' (omega arith),
        count_from-wrap b'.sequence sent (suc b.sequence) (omega arith),
        this,
      )
]
