-- ===== src/Mavlink/Stream.antt =====
-- `parse_stream` of src/common/mavlink_udp_bridge.cpp, and the reads of a TCP telemetry socket.
pub mod Cases
pub mod Chunks
pub mod Pending
use openhd_glide.Base.{
  ℕ, zero, suc, ◌+◌, not, List, [], ◌∷◌, ◌++◌, ltb, if◌then◌else◌, length, take, drop, Bytes,
}
use openhd_glide.Mavlink.Frame.{Frame, is_magic, header_len, frame_len, read_frame, parse_datagram}

-- `if (!parsed.empty()) frames.push_back(std::move(parsed.front()))`.
abbrev pub front : List Frame → List Frame
front [] = []
front (f ∷ _) = f ∷ []

-- `kept` is the suffix at `consumed`, `rest` the suffix at `i`.
unfoldable pub stream_loop : ℕ → Bytes → Bytes → List Frame × Bytes
stream_loop zero kept rest = ([], kept)
stream_loop (suc fuel) kept [] = ([], kept)
stream_loop (suc fuel) kept (b ∷ tl) =
    let rest : Bytes = b ∷ tl in
    let skipped = stream_loop fuel tl tl in
    let n = frame_len rest in
    let later = stream_loop fuel (drop n rest) (drop n rest) in
    let parsed = parse_datagram (take n rest) in
    if not (is_magic b)
    then skipped
    else if ltb (length rest) (header_len rest + 2)
    then ([], kept)
    else if ltb (length rest) n
    then ([], kept)
    else (front parsed ++ later.0, later.1)

-- The frames, and the bytes left in the buffer when the consumed ones are erased.
unfoldable pub parse_stream : Bytes → List Frame × Bytes
parse_stream bytes = stream_loop (length bytes) bytes bytes

-- The TCP branch of `UdpBridge::poll`, one received chunk after the other: each is put behind the
-- buffer and the buffer is parsed.
unfoldable pub receive : Bytes → List Bytes → List Frame × Bytes
receive buffer [] = ([], buffer)
receive buffer (chunk ∷ chunks) =
    let (frames, left) = parse_stream (buffer ++ chunk) in
    let (later, last) = receive left chunks in (frames ++ later, last)
