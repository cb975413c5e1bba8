-- ===== src/Mavlink/Frame/Loop.antt =====
-- The loop of `parse_datagram` by cases, and the fuel that it is given suffices.
use openhd_glide.Base.{
  ℕ, zero, suc, ◌+◌, ◌≤◌, ◌≡◌, refl, true, false, [], ◌∷◌, arith, length, drop, length-drop, Bytes,
}
use openhd_glide.Mavlink.Frame.{
  is_magic, header_len, frame_len, read_frame, datagram_loop, parse_datagram,
}
use openhd_glide.Mavlink.Frame.Head.{IsWhole, frame_len-pos}

-- Fuel beyond the length changes nothing.
pub datagram_loop-fuel :
    (f g : ℕ) (rest : Bytes)
    → length rest ≤ f
    → length rest ≤ g
    → datagram_loop f rest ≡ datagram_loop g rest
unfolding datagram_loop
datagram_loop-fuel zero zero rest h k = refl
datagram_loop-fuel zero (suc g) [] h k = refl
datagram_loop-fuel zero (suc g) (b ∷ tl) h k = elim h [ ]
datagram_loop-fuel (suc f) zero [] h k = refl
datagram_loop-fuel (suc f) zero (b ∷ tl) h k = elim k [ ]
datagram_loop-fuel (suc f) (suc g) [] h k = refl
datagram_loop-fuel (suc f) (suc g) (b ∷ tl) h k =
    let n = frame_len (b ∷ tl) in
    let shorter = length-drop n (b ∷ tl) in
    let later =
      datagram_loop-fuel f g (drop n (b ∷ tl)) (omega (arith, frame_len-pos (b ∷ tl), shorter))
        (omega (arith, frame_len-pos (b ∷ tl), shorter)) in
    ground (arith, datagram_loop-fuel f g tl (omega arith) (omega arith), later)

pub parse_datagram-skip :
    (b : ℕ) (tl : Bytes) → is_magic b ≡ false → parse_datagram (b ∷ tl) ≡ parse_datagram tl
unfolding parse_datagram datagram_loop
parse_datagram-skip b tl m = rw m

pub parse_datagram-short :
    (b : ℕ) (tl : Bytes) → is_magic b ≡ true → (IsWhole (b ∷ tl) → ⊥) → parse_datagram (b ∷ tl) ≡ []
unfolding parse_datagram datagram_loop
parse_datagram-short b tl m w = ground (
  arith,
  w,
  λ (p : header_len (b ∷ tl) + 2 ≤ length (b ∷ tl)) (q : frame_len (b ∷ tl) ≤ length (b ∷ tl)).
      w (record { has_header = p; has_frame = q }),
)

pub parse_datagram-frame :
    (b : ℕ) (tl : Bytes)
    → is_magic b ≡ true
    → IsWhole (b ∷ tl)
    → parse_datagram (b ∷ tl)
      ≡ read_frame (b ∷ tl) ∷ parse_datagram (drop (frame_len (b ∷ tl)) (b ∷ tl))
unfolding parse_datagram datagram_loop
parse_datagram-frame b tl m w =
    let n = frame_len (b ∷ tl) in
    ground (
      arith,
      datagram_loop-fuel (length tl) (length (drop n (b ∷ tl))) (drop n (b ∷ tl))
          (omega (arith, frame_len-pos (b ∷ tl), length-drop n (b ∷ tl))) (omega arith),
    )
