-- ===== src/Mavlink/Stream/Chunks.antt =====
-- Reassembly of a TCP byte stream: what `parse_stream` returns does not depend on how the bytes
-- were cut into reads, and what it keeps back is bounded.
use openhd_glide.Base.{
  ℕ, ◌≡◌, refl, true, List, [], ◌∷◌, ◌++◌, arith, length, drop, Bytes, ap, flatten, append-nil,
  append_assoc,
}
use openhd_glide.Mavlink.Frame.{
  Frame, is_magic, frame_len, read_frame, parse_datagram, datagram_loop,
}
use openhd_glide.Mavlink.Frame.Head.{
  IsWhole, IsWhole-append, frame_len-pos, read_frame-append, frame_len-append, drop-append,
}
use openhd_glide.Mavlink.Frame.Scan.{scan_rule}
use openhd_glide.Mavlink.Frame.Loop.{
  parse_datagram-frame, parse_datagram-skip, parse_datagram-short,
}
use openhd_glide.Mavlink.Stream.{parse_stream, receive, stream_loop}
use openhd_glide.Mavlink.Stream.Cases.{parse_stream-skip, parse_stream-short, parse_stream-frame}

parse_stream-nil : parse_stream [] ≡ ([], [])
unfolding parse_stream stream_loop
parse_stream-nil = refl

parse_datagram-nil : parse_datagram [] ≡ []
unfolding parse_datagram datagram_loop
parse_datagram-nil = refl

-- `parse_stream` finds the frames that `parse_datagram` finds in the same bytes.
pub parse_stream-parse_datagram : (bytes : Bytes) → (parse_stream bytes).0 ≡ parse_datagram bytes
parse_stream-parse_datagram bytes =
    scan_rule (λ xs. (parse_stream xs).0 ≡ parse_datagram xs)
      (rw (parse_stream-nil, parse_datagram-nil))
      (λ b tl m ih. rw (parse_stream-skip b tl m, parse_datagram-skip b tl m) ih)
      (λ b tl m w. rw (parse_stream-short b tl m w, parse_datagram-short b tl m w))
      (λ b tl m w ih.
        rw (parse_stream-frame b tl m w, parse_datagram-frame b tl m w)
          (ap (◌∷◌ (read_frame (b ∷ tl))) ih))
      (length bytes) bytes (omega arith)

-- One read after another: the frames of the second come behind those of the first, and are read
-- from what the first left in the buffer.
abbrev pub then_read : List Frame × Bytes → Bytes → List Frame × Bytes
then_read (frames, left) more =
    let (later, last) = parse_stream (left ++ more) in (frames ++ later, last)

parse_stream-append-frame :
    (more : Bytes) (b : ℕ) (tl : Bytes)
    → is_magic b ≡ true
    → IsWhole (b ∷ tl)
    → (let rest = drop (frame_len (b ∷ tl)) (b ∷ tl) in
        parse_stream (rest ++ more) ≡ then_read (parse_stream rest) more)
    → parse_stream (b ∷ (tl ++ more)) ≡ then_read (parse_stream (b ∷ tl)) more
parse_stream-append-frame more b tl m w ih = rw (
  parse_stream-frame b (tl ++ more) m (IsWhole-append (b ∷ tl) more w),
  parse_stream-frame b tl m w,
  read_frame-append (b ∷ tl) more w,
  frame_len-append (b ∷ tl) more (omega (arith, frame_len-pos (b ∷ tl), w.has_frame)),
  drop-append (frame_len (b ∷ tl)) (b ∷ tl) more w.has_frame,
  ih,
)

-- Bytes that come later do not change what was read before.
pub parse_stream-append :
    (more bytes : Bytes) → parse_stream (bytes ++ more) ≡ then_read (parse_stream bytes) more
parse_stream-append more bytes =
    scan_rule (λ xs. parse_stream (xs ++ more) ≡ then_read (parse_stream xs) more)
      (rw parse_stream-nil)
      (λ b tl m ih. rw (parse_stream-skip b tl m, parse_stream-skip b (tl ++ more) m) ih)
      (λ b tl m w. rw (parse_stream-short b tl m w)) (parse_stream-append-frame more) (length bytes)
      bytes (omega arith)

-- What a read leaves in the buffer holds no further frame.
parse_stream-left :
    (bytes : Bytes) → let left = (parse_stream bytes).1 in parse_stream left ≡ ([], left)
parse_stream-left bytes =
    scan_rule (λ xs. parse_stream (parse_stream xs).1 ≡ ([], (parse_stream xs).1))
      (rw (parse_stream-nil, parse_stream-nil)) (λ b tl m ih. rw (parse_stream-skip b tl m) ih)
      (λ b tl m w. rw (parse_stream-short b tl m w) (parse_stream-short b tl m w))
      (λ b tl m w ih. rw (parse_stream-frame b tl m w) ih) (length bytes) bytes (omega arith)

receive-flatten :
    (chunks : List Bytes) (buffer : Bytes)
    → parse_stream buffer ≡ ([], buffer)
    → receive buffer chunks ≡ parse_stream (buffer ++ flatten chunks)
unfolding receive
receive-flatten [] buffer h = rw (append-nil, h)
receive-flatten (chunk ∷ chunks) buffer h = rw (
  ← append_assoc buffer chunk (flatten chunks),
  parse_stream-append (flatten chunks) (buffer ++ chunk),
  receive-flatten chunks (parse_stream (buffer ++ chunk)).1 (parse_stream-left (buffer ++ chunk)),
)

-- However the bytes of a connection are cut into reads, the frames and the bytes left over are
-- those of one read of all of them.
pub receive-parse_stream : (chunks : List Bytes) → receive [] chunks ≡ parse_stream (flatten chunks)
receive-parse_stream chunks = receive-flatten chunks [] parse_stream-nil
