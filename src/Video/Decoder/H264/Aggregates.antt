-- ===== src/Video/Decoder/H264/Aggregates.antt =====
-- Aggregation packets: the NAL units that were put in come out.
use openhd_glide.Base.{
  ℕ, zero, suc, ◌+◌, ◌*◌, ◌/◌, ◌%◌, ◌≤◌, ◌≡◌, refl, ap, ◌∙◌, Bool, List, [], ◌∷◌, ◌++◌, length,
  flatten, map, Bytes, arith, drop, take, length-append,
}
use openhd_glide.Video.Decoder.{Decoder, Platform, and_then}
use openhd_glide.Video.Decoder.Nal.{flush_if}
use openhd_glide.Video.Decoder.H264.{split_loop, split_aggregate, queue_all, append_h264_payload}

-- RFC 6184, 5.7.1: the size in two bytes, then the NAL.
abbrev pub sized : Bytes → Bytes
sized nal = length nal / 256 ∷ length nal % 256 ∷ nal

take_all : (xs ys : Bytes) → take (length xs) (xs ++ ys) ≡ xs
take_all [] ys = refl
take_all (x ∷ xs) ys = ap (◌∷◌ x) (take_all xs ys)

drop_all : (xs ys : Bytes) → drop (length xs) (xs ++ ys) ≡ ys
drop_all [] ys = refl
drop_all (x ∷ xs) ys = drop_all xs ys

split_loop-sized :
    (fuel : ℕ) (nal rest : Bytes)
    → split_loop (suc fuel) (sized nal ++ rest) ≡ nal ∷ split_loop fuel rest
unfolding split_loop
split_loop-sized fuel nal rest =
    let size : length nal / 256 * 256 + length nal % 256 ≡ length nal = omega arith in
    let fits = length-append nal rest in
    rw (size, take_all nal rest, drop_all nal rest) (ground (arith, fits))

split_loop-all :
    (nals : List Bytes) (fuel : ℕ)
    → length nals ≤ fuel
    → split_loop fuel (flatten (map sized nals)) ≡ nals
split_loop-all [] zero h = unfold split_loop in refl
split_loop-all [] (suc fuel) h = unfold split_loop in refl
split_loop-all (nal ∷ nals) zero h = elim h [ ]
split_loop-all (nal ∷ nals) (suc fuel) h =
    split_loop-sized fuel nal (flatten (map sized nals))
    ∙ ap (◌∷◌ nal) (split_loop-all nals fuel (omega arith))

length-sized : (nals : List Bytes) → length nals ≤ length (flatten (map sized nals))
length-sized [] = omega arith
length-sized (nal ∷ nals) =
    omega (arith, length-append nal (flatten (map sized nals)), length-sized nals)

-- The loop on the sizes finds the NAL units of the packet, each once and in order.
pub split_aggregate-sized : (nals : List Bytes) → split_aggregate (flatten (map sized nals)) ≡ nals
unfolding split_aggregate
split_aggregate-sized nals = split_loop-all nals _ (length-sized nals)

-- An H.264 aggregation packet, whatever the upper three bits of the header whose lower five hold the
-- type 24, queues its NAL units in order, and a marker then closes the picture.
pub append_h264_payload-aggregate :
    (p : Platform) (d : Decoder) (header : ℕ) (nals : List Bytes) (marker : Bool) (timestamp : ℕ)
    → header % 32 ≡ 24
    → append_h264_payload p d (header ∷ flatten (map sized nals)) marker timestamp
      ≡ and_then (queue_all p d nals timestamp) (flush_if p marker)
unfolding append_h264_payload
append_h264_payload-aggregate p d header nals marker timestamp h =
    rw (split_aggregate-sized nals) (ground arith)
