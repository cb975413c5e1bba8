-- ===== src/Mavlink/Frame.antt =====
-- `Frame` and `parse_datagram` of src/common/mavlink_udp_bridge.cpp. The index `i` of the loop is the
-- suffix `rest` of the data that starts there: `data[i + k]` is `byte_at rest k`.
pub mod Loop
pub mod Head
pub mod Scan
use openhd_glide.Base.{
  ℕ, zero, suc, ◌+◌, ◌*◌, ◌%◌, Bool, true, false, not, ◌&&◌, ◌||◌, List, [], ◌∷◌, ltb, ◌==◌,
  if◌then◌else◌, length, get_or, take, drop, Bytes,
}

pub record Frame : Type 0 where
  pub sysid : ℕ
  pub compid : ℕ
  pub msgid : ℕ
  pub payload : Bytes

-- Every read of the source lies behind a bounds test; the default is never seen.
abbrev pub byte_at : Bytes → ℕ → ℕ
byte_at rest k = get_or rest k 0

-- `data[i] == 0xfe || data[i] == 0xfd`, the negation of the test that skips a byte.
unfoldable pub is_magic : ℕ → Bool
is_magic b = b == 0xfe || b == 0xfd

unfoldable pub is_mavlink2 : Bytes → Bool
is_mavlink2 rest = byte_at rest 0 == 0xfd

unfoldable pub header_len : Bytes → ℕ
unfolding is_mavlink2
header_len rest = if is_mavlink2 rest then 10 else 6

-- `data[i + 2] & 0x01` is the remainder by two.
unfoldable pub signature_len : Bytes → ℕ
unfolding is_mavlink2
signature_len rest = if is_mavlink2 rest && not (byte_at rest 2 % 2 == 0) then 13 else 0

unfoldable pub frame_len : Bytes → ℕ
unfolding header_len signature_len
frame_len rest = header_len rest + byte_at rest 1 + 2 + signature_len rest

-- The disjoint bit fields of `msgid` add up.
unfoldable pub read_frame : Bytes → Frame
unfolding is_mavlink2
read_frame rest =
    if is_mavlink2 rest
    then record {
      sysid = byte_at rest 5;
      compid = byte_at rest 6;
      msgid = byte_at rest 7 + byte_at rest 8 * 256 + byte_at rest 9 * 65536;
      payload = take (byte_at rest 1) (drop 10 rest);
    }
    else record {
      sysid = byte_at rest 3;
      compid = byte_at rest 4;
      msgid = byte_at rest 5;
      payload = take (byte_at rest 1) (drop 6 rest);
    }

-- The loop on fuel: each round moves on by a byte at least.
unfoldable pub datagram_loop : ℕ → Bytes → List Frame
datagram_loop zero rest = []
datagram_loop (suc fuel) [] = []
datagram_loop (suc fuel) (b ∷ tl) =
    let rest : Bytes = b ∷ tl in
    let skipped = datagram_loop fuel tl in
    let frames = read_frame rest ∷ datagram_loop fuel (drop (frame_len rest) rest) in
    if not (is_magic b)
    then skipped
    else if ltb (length rest) (header_len rest + 2)
    then []
    else if ltb (length rest) (frame_len rest)
    then []
    else frames

unfoldable pub parse_datagram : Bytes → List Frame
parse_datagram data' = datagram_loop (length data') data'
