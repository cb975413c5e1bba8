-- ===== src/Mavlink/Frame/Head.antt =====
-- What the head of a sequence says of the frame that starts there: the length is decided by the
-- first bytes alone, so later bytes do not change it.
use openhd_glide.Base.{
  length-append, length-drop, length-take, take-append-drop, sym, ◌∙◌, ℕ, zero, suc, ◌+◌, ◌≤◌, ◌<◌,
  ◌≡◌, refl, Bool, true, false, [], ◌∷◌, ◌++◌, arith, leb, length, take, drop, Bytes, ap, ◌⊎◌, inl,
  inr,
}
use openhd_glide.Mavlink.Frame.{read_frame, byte_at, header_len, frame_len}

-- The two bounds tests of the loop, passed: the sequence starts with a whole frame.
pub record IsWhole (rest : Bytes) : Type 0 where
  pub has_header : header_len rest + 2 ≤ length rest
  pub has_frame : frame_len rest ≤ length rest

pub frame_len-pos : (rest : Bytes) → 8 ≤ frame_len rest
unfolding frame_len
frame_len-pos rest = ground arith

pub header_len-le-frame_len : (rest : Bytes) → header_len rest + 2 ≤ frame_len rest
unfolding frame_len
header_len-le-frame_len rest = ground arith

pub header_len-pos : (rest : Bytes) → 6 ≤ header_len rest
unfolding header_len
header_len-pos rest = ground arith

pub IsWhole-cases : (rest : Bytes) → IsWhole rest ⊎ (IsWhole rest → ⊥)
IsWhole-cases rest = go (leb (frame_len rest) (length rest)) refl
  where
    go : (b : Bool) → leb (frame_len rest) (length rest) ≡ b → IsWhole rest ⊎ (IsWhole rest → ⊥)
    go true e = inl (ground (arith, header_len-le-frame_len rest))
    go false e = inr (λ w. ground (arith, w.has_frame))

pub byte_at-append : (xs ys : Bytes) (k : ℕ) → k < length xs → byte_at (xs ++ ys) k ≡ byte_at xs k
byte_at-append [] ys k h = elim h [ ]
byte_at-append (x ∷ xs) ys zero h = refl
byte_at-append (x ∷ xs) ys (suc k) h = byte_at-append xs ys k (omega arith)

pub take-append : (n : ℕ) (xs ys : Bytes) → n ≤ length xs → take n (xs ++ ys) ≡ take n xs
take-append zero xs ys h = refl
take-append (suc n) [] ys h = elim h [ ]
take-append (suc n) (x ∷ xs) ys h = ap (◌∷◌ x) (take-append n xs ys (omega arith))

pub drop-append : (n : ℕ) (xs ys : Bytes) → n ≤ length xs → drop n (xs ++ ys) ≡ drop n xs ++ ys
drop-append zero xs ys h = refl
drop-append (suc n) [] ys h = elim h [ ]
drop-append (suc n) (x ∷ xs) ys h = drop-append n xs ys (omega arith)

-- Three bytes decide the lengths.
pub frame_len-append : (xs ys : Bytes) → 3 ≤ length xs → frame_len (xs ++ ys) ≡ frame_len xs
unfolding frame_len
frame_len-append (a ∷ b ∷ c ∷ xs) ys h = refl
frame_len-append _ ys h = absurd (omega arith)

pub header_len-append : (xs ys : Bytes) → 1 ≤ length xs → header_len (xs ++ ys) ≡ header_len xs
unfolding header_len
header_len-append (a ∷ xs) ys h = refl
header_len-append _ ys h = absurd (omega arith)

-- A whole frame stays whole, and reads the same, with more bytes behind it.
pub IsWhole-append : (xs ys : Bytes) → IsWhole xs → IsWhole (xs ++ ys)
IsWhole-append xs ys w = ground (
  arith,
  length-append xs ys,
  frame_len-pos xs,
  header_len-append xs ys,
  frame_len-append xs ys,
  header_len-pos xs,
)

pub read_frame-append : (xs ys : Bytes) → IsWhole xs → read_frame (xs ++ ys) ≡ read_frame xs
unfolding read_frame header_len frame_len
read_frame-append xs ys w = ground (
  arith,
  byte_at-append xs ys 0,
  byte_at-append xs ys 1,
  byte_at-append xs ys 3,
  byte_at-append xs ys 4,
  byte_at-append xs ys 5,
  byte_at-append xs ys 6,
  byte_at-append xs ys 7,
  byte_at-append xs ys 8,
  byte_at-append xs ys 9,
  drop-append 10 xs ys,
  drop-append 6 xs ys,
  length-drop 10 xs,
  length-drop 6 xs,
  take-append (byte_at xs 1) (drop 10 xs) ys,
  take-append (byte_at xs 1) (drop 6 xs) ys,
)

-- The slice that holds just the frame is whole, and reads the same.
pub length-slice :
    (rest : Bytes) → IsWhole rest → length (take (frame_len rest) rest) ≡ frame_len rest
length-slice rest w = omega (arith, length-take (frame_len rest) rest, w.has_frame)

pub frame_len-slice :
    (rest : Bytes) → IsWhole rest → frame_len (take (frame_len rest) rest) ≡ frame_len rest
frame_len-slice rest w =
    sym (
      frame_len-append (take (frame_len rest) rest) (drop (frame_len rest) rest)
        (omega (arith, length-slice rest w, frame_len-pos rest)))
    ∙ ap frame_len (take-append-drop (frame_len rest) rest)

pub IsWhole-slice : (rest : Bytes) → IsWhole rest → IsWhole (take (frame_len rest) rest)
IsWhole-slice rest w = record {
  has_header = omega (
    arith,
    header_len-le-frame_len (take (frame_len rest) rest),
    frame_len-slice rest w,
    length-slice rest w,
  );
  has_frame = omega (arith, frame_len-slice rest w, length-slice rest w);
}

pub read_frame-slice :
    (rest : Bytes) → IsWhole rest → read_frame (take (frame_len rest) rest) ≡ read_frame rest
read_frame-slice rest w =
    sym (
      read_frame-append (take (frame_len rest) rest) (drop (frame_len rest) rest)
        (IsWhole-slice rest w))
    ∙ ap read_frame (take-append-drop (frame_len rest) rest)
