-- ===== src/Video/Decoder/Mjpeg/Queue.antt =====
-- The queue of frames between the two threads of the decoder is bounded.
use openhd_glide.Base.{
  ℕ, suc, ◌≤◌, ◌≡◌, refl, Bool, true, false, List, [], ◌∷◌, ◌++◌, length, Bytes, arith,
  length-append,
}
use openhd_glide.Video.Decoder.{Decoder, MjpegAccessUnit}
use openhd_glide.Video.Decoder.Mjpeg.{
  Fragment, Reading, usable, ignored, unusable, read_fragment, drop_oldest, queue_mjpeg_access_unit,
  queue_unfinished, begin_frame, finish_if, add_fragment, append_mjpeg_payload,
}

abbrev IsShort : Decoder → Type 0
IsShort d = length d.mjpeg_units ≤ 3

drop_oldest-le :
    (units : List MjpegAccessUnit) (dropped : ℕ) → length (drop_oldest units dropped).0 ≤ 2
unfolding drop_oldest
drop_oldest-le [] dropped = omega arith
drop_oldest-le (a ∷ []) dropped = omega arith
drop_oldest-le (a ∷ b ∷ []) dropped = omega arith
drop_oldest-le (a ∷ b ∷ c ∷ units) dropped = drop_oldest-le (b ∷ c ∷ units) (suc dropped)

queue_mjpeg_access_unit-IsShort :
    (d : Decoder) (width height pts : ℕ) → IsShort (queue_mjpeg_access_unit d width height pts)
unfolding queue_mjpeg_access_unit
queue_mjpeg_access_unit-IsShort d width height pts =
    let kept = (drop_oldest d.mjpeg_units d.dropped_decoded_frames).0 in
    omega (arith, drop_oldest-le d.mjpeg_units d.dropped_decoded_frames, length-append kept)

queue_unfinished-IsShort :
    (d : Decoder) (timestamp : ℕ) → IsShort d → IsShort (queue_unfinished d timestamp)
unfolding queue_unfinished
queue_unfinished-IsShort d timestamp h = ground (
  arith,
  h,
  queue_mjpeg_access_unit-IsShort d d.mjpeg_width d.mjpeg_height d.access_unit_timestamp,
)

finish_if-IsShort :
    (marker : Bool) (d : Decoder) (f : Fragment) (timestamp : ℕ)
    → IsShort d
    → IsShort (finish_if marker d f timestamp)
finish_if-IsShort true d f timestamp h =
    queue_mjpeg_access_unit-IsShort d f.width f.height timestamp
finish_if-IsShort false d f timestamp h = h

add_fragment-IsShort :
    (d : Decoder) (f : Fragment) (marker : Bool) (timestamp : ℕ)
    → IsShort d
    → IsShort (add_fragment d f marker timestamp)
unfolding add_fragment begin_frame
add_fragment-IsShort d f marker timestamp h = ground (
  arith,
  finish_if-IsShort marker (begin_frame d f timestamp) f timestamp
      (queue_unfinished-IsShort d timestamp h),
  finish_if-IsShort marker (record d { access_unit = d.access_unit ++ f.scan }) f timestamp h,
  h,
)

append_reading :
    (d : Decoder) (r : Reading) (payload : Bytes) (marker : Bool) (timestamp : ℕ)
    → IsShort d
    → read_fragment payload ≡ r
    → IsShort (append_mjpeg_payload d payload marker timestamp).0
unfolding append_mjpeg_payload
append_reading d ignored payload marker timestamp h e = rw (e, append_mjpeg_payload) h
append_reading d unusable payload marker timestamp h e = rw (e, append_mjpeg_payload) h
append_reading d (usable f) payload marker timestamp h e =
    rw (e, append_mjpeg_payload) (add_fragment-IsShort d f marker timestamp h)

-- However late the other thread is, no payload makes a queue of three frames or fewer longer than
-- three.
pub append_mjpeg_payload-IsShort :
    (d : Decoder) (payload : Bytes) (marker : Bool) (timestamp : ℕ)
    → length d.mjpeg_units ≤ 3
    → length (append_mjpeg_payload d payload marker timestamp).0.mjpeg_units ≤ 3
append_mjpeg_payload-IsShort d payload marker timestamp h =
    append_reading d (read_fragment payload) payload marker timestamp h refl
