-- ===== src/Mavlink/Poll/Cuts.antt =====
-- `UdpBridge::poll` over TCP: the lines depend on the bytes received, not on how they are cut.
use openhd_glide.Base.{
  ℕ, ◌≡◌, refl, sym, ap, ◌∙◌, List, [], ◌∷◌, ◌++◌, append_assoc, flatten, map, some, All, length,
  ◌<◌, Bytes, arith,
}
use openhd_glide.Mavlink.Frame.{Frame}
use openhd_glide.Mavlink.Stream.{parse_stream, receive}
use openhd_glide.Mavlink.Stream.Chunks.{receive-parse_stream}
use openhd_glide.Mavlink.Bridge.{UdpBridge, NetworkTransport, tcp, PeerStorage}
use openhd_glide.Mavlink.Heartbeat.{learn}
use openhd_glide.Mavlink.Decode.{Printing}
use openhd_glide.Mavlink.Poll.{
  Received, packet, handle_frame, handle_frames, read_frames, poll_loop, poll_at, poll,
}

-- The bridge with another stream buffer.
abbrev with_buffer : Bytes → UdpBridge → UdpBridge
with_buffer buffer b = record b { stream_buffer = buffer }

learn-with_buffer :
    (buffer : Bytes) (b : UdpBridge) (frame : Frame)
    → learn (with_buffer buffer b) frame ≡ (with_buffer buffer (learn b frame).0, (learn b frame).1)
unfolding learn
learn-with_buffer buffer b frame = ground arith

learn-transport : (b : UdpBridge) (frame : Frame) → (learn b frame).0.transport ≡ b.transport
unfolding learn
learn-transport b frame = ground arith

handle_frames-with_buffer :
    (n : Printing) (buffer : Bytes) (b : UdpBridge) (frames : List Frame)
    → handle_frames n (with_buffer buffer b) frames
      ≡ (with_buffer buffer (handle_frames n b frames).0, (handle_frames n b frames).1)
unfolding handle_frames handle_frame
handle_frames-with_buffer n buffer b [] = refl
handle_frames-with_buffer n buffer b (frame ∷ frames) =
    rw
      (
        learn-with_buffer buffer b frame,
        handle_frames-with_buffer n buffer (learn b frame).0 frames,
      )
      refl

handle_frames-append :
    (n : Printing) (b : UdpBridge) (frames later : List Frame)
    → handle_frames n b (frames ++ later) ≡ (
      (handle_frames n (handle_frames n b frames).0 later).0,
      (handle_frames n b frames).1 ++ (handle_frames n (handle_frames n b frames).0 later).1,
    )
unfolding handle_frames
handle_frames-append n b [] later = refl
handle_frames-append n b (frame ∷ frames) later =
    rw (handle_frames-append n (handle_frame n b frame).0 frames later) (
      ap
        (λ (lines : List Bytes).
          ((handle_frames n (handle_frames n (handle_frame n b frame).0 frames).0 later).0, lines))
        (sym (
          append_assoc (handle_frame n b frame).1
            (handle_frames n (handle_frame n b frame).0 frames).1
            (handle_frames n (handle_frames n (handle_frame n b frame).0 frames).0 later).1)))

handle_frames-transport :
    (n : Printing) (b : UdpBridge) (frames : List Frame)
    → (handle_frames n b frames).0.transport ≡ b.transport
unfolding handle_frames handle_frame
handle_frames-transport n b [] = refl
handle_frames-transport n b (frame ∷ frames) =
    handle_frames-transport n (learn b frame).0 frames ∙ learn-transport b frame

-- The bridge and the lines once the frames have been handled and `buffer` is left.
abbrev pub handled : Printing → UdpBridge → List Frame × Bytes → UdpBridge × List Bytes
handled n b (frames, buffer) =
    (with_buffer buffer (handle_frames n b frames).0, (handle_frames n b frames).1)

-- A round of the loop, from what the transport's branch read.
abbrev after_read : Printing → List Received → UdpBridge × List Frame → UdpBridge × List Bytes
after_read n more (read, frames) =
    let (b', lines) = handle_frames n read frames in
    ((poll_loop n b' more).0, lines ++ (poll_loop n b' more).1)

-- One packet of a connection, and what follows it.
poll_loop-packet :
    (n : Printing) (b : UdpBridge) (c : ℕ) (cs : Bytes) (address : PeerStorage)
    (more : List Received)
    → b.transport ≡ tcp
    → let (frames, left) = parse_stream (b.stream_buffer ++ (c ∷ cs)) in
      let first = handle_frames n b frames in
      let rest = poll_loop n (with_buffer left first.0) more in
      poll_loop n b (packet (c ∷ cs) address ∷ more) ≡ (rest.0, first.1 ++ rest.1)
unfolding poll_loop read_frames
poll_loop-packet n b c cs address more t =
    let (frames, left) = parse_stream (b.stream_buffer ++ (c ∷ cs)) in
    let read : NetworkTransport → UdpBridge × List Frame =
      λ transport. read_frames transport b (c ∷ cs) address in
    let step : UdpBridge × List Bytes → UdpBridge × List Bytes =
      λ (b', lines). ((poll_loop n b' more).0, lines ++ (poll_loop n b' more).1) in
    ap (λ (transport : NetworkTransport). after_read n more (read transport)) t
    ∙ ap step (handle_frames-with_buffer n left b frames)

handled-append :
    (n : Printing) (b : UdpBridge) (frames : List Frame) (left : Bytes) (r : List Frame × Bytes)
    → let first = handle_frames n b frames in
      let rest = handled n (with_buffer left first.0) r in
      (rest.0, first.1 ++ rest.1) ≡ handled n b (frames ++ r.0, r.1)
handled-append n b frames left (later, last) =
    rw (handle_frames-with_buffer n left (handle_frames n b frames).0 later)
      (rw (handle_frames-append n b frames later) refl)

poll_loop-receive :
    (n : Printing) (chunks : List Bytes) (b : UdpBridge) (address : PeerStorage)
    → b.transport ≡ tcp
    → All (λ chunk. 0 < length chunk) chunks
    → poll_loop n b (map (λ chunk. packet chunk address) chunks)
      ≡ handled n b (receive b.stream_buffer chunks)
unfolding receive
poll_loop-receive n [] b address t h = unfold poll_loop handle_frames in refl
poll_loop-receive n ([] ∷ chunks) b address t h = ground (arith, h)
poll_loop-receive n ((c ∷ cs) ∷ chunks) b address t h =
    let (frames, left) = parse_stream (b.stream_buffer ++ (c ∷ cs)) in
    let first = handle_frames n b frames in
    let b' : UdpBridge = with_buffer left first.0 in
    let later =
      poll_loop-receive n chunks b' address (handle_frames-transport n b frames ∙ t) h.1 in
    poll_loop-packet n b c cs address (map (λ chunk. packet chunk address) chunks) t
    ∙ ap (λ (r : UdpBridge × List Bytes). (r.0, first.1 ++ r.1)) later
    ∙ handled-append n b frames left (receive left chunks)

-- A poll of a TCP connection, however its bytes are cut into reads that are not empty: the bridge
-- reports the lines of the frames that the whole stream holds, in order, learns what they say, and
-- keeps the bytes of the frame that is not complete. It is connected, and no bytes were left over.
pub poll-stream :
    (n : Printing) (b : UdpBridge) (fd : ℕ) (chunks : List Bytes) (address : PeerStorage)
    → b.fd ≡ some fd
    → b.transport ≡ tcp
    → b.stream_buffer ≡ []
    → All (λ chunk. 0 < length chunk) chunks
    → poll n b (map (λ chunk. packet chunk address) chunks)
      ≡ handled n b (parse_stream (flatten chunks))
unfolding poll poll_at
poll-stream n b fd chunks address o t e h =
    let received = map (λ (chunk : Bytes). packet chunk address) chunks in
    ap (poll_at n b received) o
    ∙ poll_loop-receive n chunks b address t h
    ∙ ap (λ (buffer : Bytes). handled n b (receive buffer chunks)) e
    ∙ ap (handled n b) (receive-parse_stream chunks)
