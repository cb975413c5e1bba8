-- ===== src/Mavlink/Poll.antt =====
-- `UdpBridge::poll` of src/common/mavlink_udp_bridge.cpp: what is received until nothing is left.
pub mod Cuts
use openhd_glide.Base.{
  ℕ, Bool, true, false, List, [], ◌∷◌, ◌++◌, Option, none, some, ◌==◌, if◌then◌else◌, take, length,
  Bytes, codes,
}
use openhd_glide.Mavlink.Frame.{Frame, parse_datagram}
use openhd_glide.Mavlink.Stream.{parse_stream}
use openhd_glide.Mavlink.Bridge.{UdpBridge, NetworkTransport, udp, tcp, PeerStorage, close}
use openhd_glide.Mavlink.Heartbeat.{learn}
use openhd_glide.Mavlink.Decode.{Printing, decode_frame}

-- What a call of `recv` or `recvfrom` returns: bytes with the address of the sender, 0, an error that
-- means that nothing is there yet, or another one, with its number as text.
pub data Received : Type 0 where
  packet : Bytes → PeerStorage → Received
  closed would_block : Received
  failed : Bytes → Received

-- The first line of a text and those behind it.
unfoldable pub split_lines : Bytes → Bytes × List Bytes
split_lines [] = ([], [])
split_lines (c ∷ cs) =
    let (first, later) = split_lines cs in
    if c == b'\n' then ([], first ∷ later) else (c ∷ first, later)

unfoldable pub drop_empty : List Bytes → List Bytes
drop_empty [] = []
drop_empty ([] ∷ lines) = drop_empty lines
drop_empty ((c ∷ cs) ∷ lines) = (c ∷ cs) ∷ drop_empty lines

-- The lines of a frame that is decoded.
unfoldable pub lines_of : Option Bytes → List Bytes
lines_of none = []
lines_of (some text) = drop_empty ((split_lines text).0 ∷ (split_lines text).1)

unfoldable pub handle_frame : Printing → UdpBridge → Frame → UdpBridge × List Bytes
unfolding lines_of
handle_frame n b frame =
    let (b', lines) = learn b frame in (b', lines ++ lines_of (decode_frame n frame))

unfoldable pub handle_frames : Printing → UdpBridge → List Frame → UdpBridge × List Bytes
handle_frames n b [] = (b, [])
handle_frames n b (frame ∷ frames) =
    let (b', lines) = handle_frame n b frame in
    let (last, later) = handle_frames n b' frames in (last, lines ++ later)

-- The peer is noted if there is a place for it.
unfoldable pub note_peer : UdpBridge → PeerStorage → UdpBridge
note_peer b address = record b {
  peer = elim b.peer [ none ↦ none | some old ↦ some (record address { valid = true }) ];
}

-- The branch of the transport: the frames of the bytes. A datagram is cut to the buffer's 2048 bytes.
unfoldable pub read_frames :
    NetworkTransport → UdpBridge → Bytes → PeerStorage → UdpBridge × List Frame
unfolding note_peer
read_frames udp b bytes address = (note_peer b address, parse_datagram (take 2048 bytes))
read_frames tcp b bytes address =
    let (frames, left) = parse_stream (b.stream_buffer ++ bytes) in
    (record b { stream_buffer = left }, frames)

-- The two tests behind a call that returned 0.
unfoldable pub on_closed : NetworkTransport → UdpBridge → UdpBridge
on_closed udp b = b
on_closed tcp b = close (record b { last_error = codes "TCP telemetry peer disconnected" })

-- The answers of the socket in order; an empty packet counts as 0.
unfoldable pub poll_loop : Printing → UdpBridge → List Received → UdpBridge × List Bytes
poll_loop n b [] = (b, [])
poll_loop n b (would_block ∷ more) = (b, [])
poll_loop n b (failed error ∷ more) =
    (record b { last_error = codes "telemetry receive error " ++ error }, [])
poll_loop n b (closed ∷ more) = (on_closed b.transport b, [])
poll_loop n b (packet [] address ∷ more) = (on_closed b.transport b, [])
poll_loop n b (packet (c ∷ cs) address ∷ more) =
    let (read, frames) = read_frames b.transport b (c ∷ cs) address in
    let (handled, lines) = handle_frames n read frames in
    let (last, later) = poll_loop n handled more in (last, lines ++ later)

-- Nothing is read without a socket.
unfoldable pub poll_at : Printing → UdpBridge → List Received → Option ℕ → UdpBridge × List Bytes
poll_at n b received none = (b, [])
poll_at n b received (some fd) = poll_loop n b received

unfoldable pub poll : Printing → UdpBridge → List Received → UdpBridge × List Bytes
unfolding poll_at
poll n b received = poll_at n b received b.fd
