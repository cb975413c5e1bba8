-- ===== src/Ipc/Client/Session.antt =====
-- A client over a series of polls.
use mathlib.Core.Path.{ap₂}
use openhd_glide.Base.{
  ℕ, ◌≡◌, ◌≢◌, refl, ap, ◌∙◌, false, List, [], ◌∷◌, ◌++◌, some, Bytes, flatten, map, append-nil,
  append_assoc, All, arith,
}
use openhd_glide.Ipc.Lines.{drain_lines, line_payload}
use openhd_glide.Ipc.Lines.Framing.{HasNoNewline, drain_lines-done}
use openhd_glide.Ipc.Lines.Reads.{
  IsLine-append, drain_lines-append, drain_lines-HasNoNewline, drain_lines-line_payload,
  drain_lines-payloads, IsLine,
}
use openhd_glide.Ipc.Socket.{Incoming, append_chunks-flatten}
use openhd_glide.Ipc.Client.{Client, close, connect_to, connected_on, poll_lines, fresh_client}

-- The polls of one session, one after the other, each with the reads that it finds.
unfoldable pub polls : Client → List Incoming → Client × List Bytes
polls c [] = (c, [])
polls c (i ∷ is) =
    let (c', lines) = poll_lines c i in let (last, later) = polls c' is in (last, lines ++ later)

abbrev pub received : List Incoming → Bytes
received [] = []
received (i ∷ is) = flatten i.chunks ++ received is

-- The stream ends with the last poll at the earliest.
abbrev pub StaysOpen : List Incoming → Type 0
StaysOpen [] = Unit {0}
StaysOpen (i ∷ []) = Unit {0}
StaysOpen (i ∷ j ∷ is) = (i.ended ≡ false) × StaysOpen (j ∷ is)

poll_lines-open :
    (c : Client) (n : ℕ) (i : Incoming)
    → c.fd ≡ some n
    → (let drained = drain_lines (c.read_buffer ++ flatten i.chunks) in
        ((poll_lines c i).1 ≡ drained.0) × ((poll_lines c i).0.read_buffer ≡ drained.1))
unfolding poll_lines close
poll_lines-open c n i e = ground (arith, append_chunks-flatten c.read_buffer i.chunks)

poll_lines-fd :
    (c : Client) (n : ℕ) (i : Incoming)
    → c.fd ≡ some n
    → i.ended ≡ false
    → (poll_lines c i).0.fd ≡ some n
unfolding poll_lines close
poll_lines-fd c n i e h = ground arith

-- The lines of a session are those of all the bytes that it received.
pub polls-drain_lines :
    (is : List Incoming) (c : Client) (n : ℕ)
    → c.fd ≡ some n
    → HasNoNewline c.read_buffer
    → StaysOpen is
    → (polls c is).1 ≡ (drain_lines (c.read_buffer ++ received is)).0
unfolding polls
polls-drain_lines [] c n e h o = rw (append-nil, drain_lines-done c.read_buffer h)
polls-drain_lines (i ∷ []) c n e h o =
    rw ((poll_lines-open c n i e).0, append-nil (flatten i.chunks)) (append-nil _)
polls-drain_lines (i ∷ j ∷ is) c n e h (o, os) =
    let all = c.read_buffer ++ flatten i.chunks in
    let (lines, left) = poll_lines-open c n i e in
    let kept : HasNoNewline (poll_lines c i).0.read_buffer =
      rw left (drain_lines-HasNoNewline all) in
    ap₂ ◌++◌ lines
      (polls-drain_lines (j ∷ is) (poll_lines c i).0 n (poll_lines-fd c n i e o) kept os)
    ∙ rw (
      left,
      ← append_assoc c.read_buffer (flatten i.chunks) (received (j ∷ is)),
      drain_lines-append (received (j ∷ is)) all,
    )

-- Lines sent to a client that connects for the first time come out of its polls as they were sent,
-- however the bytes are cut. No line holds a newline or ends with a carriage return, and the
-- connection stays open.
pub polls-payloads :
    (lines : List Bytes) (is : List Incoming) (n : ℕ)
    → All IsLine lines
    → received is ≡ flatten (map line_payload lines)
    → StaysOpen is
    → (polls (connect_to fresh_client (connected_on n)).0 is).1 ≡ lines
unfolding connect_to close
polls-payloads lines is n h e o =
    polls-drain_lines is _ n refl tt o ∙ rw (e, drain_lines-payloads lines h)

-- `close` keeps the read buffer, so part of a line that a lost connection left there is put in
-- front of the first line of the next connection, if that line is not empty, holds no newline and
-- does not end with a carriage return.
pub poll_lines-reconnect :
    (c : Client) (n : ℕ) (line : Bytes)
    → HasNoNewline c.read_buffer
    → IsLine line
    → line ≢ []
    → (poll_lines
        (connect_to c (connected_on n)).0
        (record { chunks = line_payload line ∷ []; ended = false })).1
      ≡ (c.read_buffer ++ line) ∷ []
unfolding connect_to close
poll_lines-reconnect c n line h l ne =
    let whole = IsLine-append c.read_buffer line h l ne in
    (poll_lines-open _ n _ refl).0
    ∙ rw append-nil (
        unfold line_payload in
        rw (← append_assoc c.read_buffer line (b'\n' ∷ [])) (
          rw append-nil at (
            ap (λ (r : List Bytes × Bytes). r.0)
              (drain_lines-line_payload (c.read_buffer ++ line) [] whole))
          ∙ rw (drain_lines-done [] tt)))
