-- ===== src/Mavlink/Stream/Cases.antt =====
-- The loop of `parse_stream` by cases. `consumed` is `i` at every turn, and the frame that
-- `parse_datagram` finds in the slice is the one at the head.
use openhd_glide.Base.{
  ℕ, zero, suc, ◌+◌, ◌-◌, ◌≤◌, ◌<◌, ◌≡◌, refl, true, false, [], ◌∷◌, arith, length, take, drop,
  length-drop, Bytes, ap,
}
use openhd_glide.Mavlink.Frame.{Frame, is_magic, header_len, frame_len, read_frame, parse_datagram}
use openhd_glide.Mavlink.Frame.Head.{IsWhole, frame_len-pos, IsWhole-slice, read_frame-slice}
use openhd_glide.Mavlink.Frame.Loop.{parse_datagram-frame}
use openhd_glide.Mavlink.Stream.{front, stream_loop, parse_stream}

sub-one-suc : (n : ℕ) → suc n - 1 ≡ n
sub-one-suc n = omega arith

take_cons : (n b : ℕ) (tl : Bytes) → 0 < n → take n (b ∷ tl) ≡ b ∷ take (n - 1) tl
take_cons zero b tl h = elim h [ ]
take_cons (suc n) b tl h = rw (sub-one-suc n)

-- The slice that `parse_stream` hands to `parse_datagram` holds one frame, which is kept.
front_slice :
    (b : ℕ) (tl : Bytes)
    → is_magic b ≡ true
    → IsWhole (b ∷ tl)
    → front (parse_datagram (take (frame_len (b ∷ tl)) (b ∷ tl))) ≡ read_frame (b ∷ tl) ∷ []
front_slice b tl m w =
    let n = frame_len (b ∷ tl) in
    let u = take (n - 1) tl in
    let e = take_cons n b tl (omega (arith, frame_len-pos (b ∷ tl))) in
    rw (e, parse_datagram-frame b u m (rw e at (IsWhole-slice (b ∷ tl) w)))
      (ap (λ (f : Frame). f ∷ []) (rw e at (read_frame-slice (b ∷ tl) w)))

-- Fuel beyond the length changes nothing.
pub stream_loop-fuel :
    (f g : ℕ) (rest : Bytes)
    → length rest ≤ f
    → length rest ≤ g
    → stream_loop f rest rest ≡ stream_loop g rest rest
unfolding stream_loop
stream_loop-fuel zero zero rest h k = refl
stream_loop-fuel zero (suc g) [] h k = refl
stream_loop-fuel zero (suc g) (b ∷ tl) h k = elim h [ ]
stream_loop-fuel (suc f) zero [] h k = refl
stream_loop-fuel (suc f) zero (b ∷ tl) h k = elim k [ ]
stream_loop-fuel (suc f) (suc g) [] h k = refl
stream_loop-fuel (suc f) (suc g) (b ∷ tl) h k =
    let n = frame_len (b ∷ tl) in
    let shorter = length-drop n (b ∷ tl) in
    let later =
      stream_loop-fuel f g (drop n (b ∷ tl)) (omega (arith, frame_len-pos (b ∷ tl), shorter))
        (omega (arith, frame_len-pos (b ∷ tl), shorter)) in
    rw (later, stream_loop-fuel f g tl (omega arith) (omega arith))

pub parse_stream-skip :
    (b : ℕ) (tl : Bytes) → is_magic b ≡ false → parse_stream (b ∷ tl) ≡ parse_stream tl
unfolding parse_stream stream_loop
parse_stream-skip b tl m = rw m

pub parse_stream-short :
    (b : ℕ) (tl : Bytes)
    → is_magic b ≡ true
    → (IsWhole (b ∷ tl) → ⊥)
    → parse_stream (b ∷ tl) ≡ ([], b ∷ tl)
unfolding parse_stream stream_loop
parse_stream-short b tl m w = ground (
  arith,
  w,
  λ (p : header_len (b ∷ tl) + 2 ≤ length (b ∷ tl)) (q : frame_len (b ∷ tl) ≤ length (b ∷ tl)).
      w (record { has_header = p; has_frame = q }),
)

pub parse_stream-frame :
    (b : ℕ) (tl : Bytes)
    → is_magic b ≡ true
    → IsWhole (b ∷ tl)
    → let later = parse_stream (drop (frame_len (b ∷ tl)) (b ∷ tl)) in
      parse_stream (b ∷ tl) ≡ (read_frame (b ∷ tl) ∷ later.0, later.1)
unfolding parse_stream stream_loop
parse_stream-frame b tl m w =
    let n = frame_len (b ∷ tl) in
    ground (
      arith,
      front_slice b tl m w,
      stream_loop-fuel (length tl) (length (drop n (b ∷ tl))) (drop n (b ∷ tl))
          (omega (arith, frame_len-pos (b ∷ tl), length-drop n (b ∷ tl))) (omega arith),
    )
