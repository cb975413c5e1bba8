-- ===== src/Mavlink/Stream/Pending.antt =====
-- What stays in `stream_buffer_` between two reads of the telemetry socket.
use mathlib.Core.Path.{subst}
use native.Mathlib.Decide.{dec_le}
use openhd_glide.Base.{
  take, append_assoc, take-append-drop, ℕ, ◌+◌, ◌≤◌, ◌<◌, ◌≡◌, refl, ◌∙◌, List, [], ◌∷◌, ◌++◌,
  arith, length, drop, Bytes, ap, flatten, AreBytes, All, All-drop, All-flatten, get_or-lt, inl,
  inr, true, ◌⊎◌,
}
use openhd_glide.Mavlink.Frame.{is_magic, frame_len}
use openhd_glide.Mavlink.Frame.Head.{IsWhole, header_len-le-frame_len}
use openhd_glide.Mavlink.Frame.Scan.{scan_rule}
use openhd_glide.Mavlink.Stream.{parse_stream, stream_loop, receive}
use openhd_glide.Mavlink.Stream.Cases.{parse_stream-skip, parse_stream-short, parse_stream-frame}
use openhd_glide.Mavlink.Stream.Chunks.{receive-parse_stream}

-- The longest frame: header, payload, checksum and signature.
abbrev pub longest_frame : ℕ
longest_frame = 10 + 255 + 2 + 13

-- `left` is the end of `bytes`, starts with a magic byte if it is not empty, and is shorter than
-- the longest frame.
pub record IsPending (bytes left : Bytes) : Type 0 where
  pub consumed : Bytes
  pub splits : consumed ++ left ≡ bytes
  pub starts : (left ≡ []) ⊎ ((b : ℕ) × (tl : Bytes) × (left ≡ b ∷ tl) × (is_magic b ≡ true))
  pub bounded : length left < longest_frame

frame_len-le : (rest : Bytes) → AreBytes rest → frame_len rest ≤ longest_frame
unfolding frame_len
frame_len-le rest h = ground (arith, get_or-lt rest 1 h)

parse_stream-nil : parse_stream [] ≡ ([], [])
unfolding parse_stream stream_loop
parse_stream-nil = refl

IsPending-behind :
    (front' rest left : Bytes) → IsPending rest left → IsPending (front' ++ rest) left
IsPending-behind front' rest left p = record {
  consumed = front' ++ p.consumed;
  splits = append_assoc front' p.consumed left ∙ ap (◌++◌ front') p.splits;
  starts = p.starts;
  bounded = p.bounded;
}

IsPending-short :
    (b : ℕ) (tl : Bytes)
    → is_magic b ≡ true
    → (IsWhole (b ∷ tl) → ⊥)
    → AreBytes (b ∷ tl)
    → IsPending (b ∷ tl) (b ∷ tl)
IsPending-short b tl m w h = record {
  consumed = [];
  splits = refl;
  starts = inr (b, tl, refl, m);
  bounded = elim (dec_le (frame_len (b ∷ tl)) (length (b ∷ tl))) [
    | yes q ↦
        absurd (
          w (record {
            has_header = omega (arith, header_len-le-frame_len (b ∷ tl));
            has_frame = q;
          }))
    | no q ↦ omega (arith, frame_len-le (b ∷ tl) h)
  ];
}

parse_stream-IsPending : (bytes : Bytes) → AreBytes bytes → IsPending bytes (parse_stream bytes).1
parse_stream-IsPending bytes =
    scan_rule (λ xs. AreBytes xs → IsPending xs (parse_stream xs).1)
      (λ h.
        rw parse_stream-nil
          (record { consumed = []; splits = refl; starts = inl refl; bounded = omega arith }))
      (λ b tl m ih h. rw (parse_stream-skip b tl m) (IsPending-behind (b ∷ []) tl _ (ih h.1)))
      (λ b tl m w h. rw (parse_stream-short b tl m w) (IsPending-short b tl m w h))
      (λ b tl m w ih h.
        let n = frame_len (b ∷ tl) in
        let later = ih (All-drop (λ b. b < 256) n (b ∷ tl) h) in
        rw (parse_stream-frame b tl m w) (
          subst (λ (xs : Bytes). IsPending xs (parse_stream (drop n (b ∷ tl))).1)
            (take-append-drop n (b ∷ tl))
            (IsPending-behind (take n (b ∷ tl)) (drop n (b ∷ tl)) _ later)))
      (length bytes) bytes (omega arith)

-- After any reads the buffer holds less than one frame of the longest kind, so it cannot grow
-- without bound, and it is the end of what was received. What was received are bytes.
pub receive-IsPending :
    (chunks : List Bytes) → All AreBytes chunks → IsPending (flatten chunks) (receive [] chunks).1
receive-IsPending chunks h =
    rw receive-parse_stream
      (parse_stream-IsPending (flatten chunks) (All-flatten (λ b. b < 256) chunks h))
