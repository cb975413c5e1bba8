-- ===== src/Video/Cedar/Pictures.antt =====
-- `drain_picture`, `picture_to_frame`, `return_picture`, `mark_presented` and the part of `cleanup`
-- that gives pictures back, of src/video/cedar_rtp_decoder.cpp.
pub mod Queue
use openhd_glide.Base.{
  ℕ, zero, suc, ◌+◌, ◌-◌, ◌*◌, ◌/◌, ◌%◌, ◌^◌, Bool, true, false, not, ◌&&◌, ◌||◌, List, [], ◌∷◌,
  ◌++◌, Option, none, some, ltb, leb, ◌==◌, if◌then◌else◌, length, take, drop, Bytes, codes,
}
use openhd_glide.Mavlink.Heartbeat.{to_string}
use openhd_glide.Video.Cedar.{Cedar, Library, VideoPicture, PixelFormat, nv12, nv21, yv12, other}

-- The constants of the DRM headers; `no_format` is 0.
pub data DrmFormat : Type 0 where
  no_format drm_format_nv12 drm_format_nv21 drm_format_yvu420 : DrmFormat

-- The fields of `DmabufVideoFrame` (src/dev/kms_dmabuf_video_plane.hpp) that are set here, of
-- three planes: a descriptor is `none` for -1.
pub record DmabufVideoFrame : Type 0 where
  pub width : ℕ
  pub height : ℕ
  pub drm_format : DrmFormat
  pub plane_count : ℕ
  pub fds : List (Option ℕ)
  pub strides : List ℕ
  pub offsets : List ℕ

abbrev pub wrap : ℕ → ℕ
wrap n = n % 2 ^ 32

-- The stride that the picture states, or else its width.
abbrev pub line_stride_of : VideoPicture → ℕ
line_stride_of picture = if ltb 0 picture.line_stride then picture.line_stride else picture.width

abbrev pub two_planes : VideoPicture → ℕ → DrmFormat → DmabufVideoFrame
two_planes picture fd format = record {
  width = picture.width;
  height = picture.height;
  drm_format = format;
  plane_count = 2;
  fds = some fd ∷ some fd ∷ none ∷ [];
  strides = line_stride_of picture ∷ line_stride_of picture ∷ 0 ∷ [];
  offsets = 0 ∷ wrap (line_stride_of picture * picture.height) ∷ 0 ∷ [];
}

abbrev pub three_planes : VideoPicture → ℕ → DmabufVideoFrame
three_planes picture fd =
    let stride = line_stride_of picture in
    let luma = wrap (stride * picture.height) in
    record (two_planes picture fd drm_format_yvu420) {
      plane_count = 3;
      fds = some fd ∷ some fd ∷ some fd ∷ [];
      strides = stride ∷ stride / 2 ∷ stride / 2 ∷ [];
      offsets = 0 ∷ luma ∷ wrap (luma + stride / 2 * (wrap (picture.height + 1) / 2)) ∷ [];
    }

-- The frame is written also where the format is not supported.
unfoldable pub convert : VideoPicture → ℕ → PixelFormat → DmabufVideoFrame × Option ℕ
convert picture fd nv12 = (two_planes picture fd drm_format_nv12, none)
convert picture fd nv21 = (two_planes picture fd drm_format_nv21, none)
convert picture fd yv12 = (three_planes picture fd, none)
convert picture fd (other n) = (two_planes picture fd no_format, some n)

-- `d` and `frame` behind the call, and what it returns.
abbrev pub Drained : Type 0 → Type 0
Drained S = Cedar S × (DmabufVideoFrame × Bool)

unfoldable pub report : {S : Type 0} → Cedar S → DmabufVideoFrame × Option ℕ → Drained S
report d (frame, none) = (d, (frame, true))
report d (frame, some n) = (
  record d { last_error = codes "unsupported Cedar output pixel format " ++ to_string n },
  (frame, false),
)

unfoldable pub write_frame :
    {S : Type 0} → Cedar S → VideoPicture → Option ℕ → DmabufVideoFrame → Drained S
unfolding convert report
write_frame d picture none frame =
    (record d { last_error = codes "Cedar decoded picture has no DMABUF fd" }, (frame, false))
write_frame d picture (some fd) frame = report d (convert picture fd picture.pixel_format)

unfoldable pub picture_to_frame :
    {S : Type 0} → Cedar S → VideoPicture → DmabufVideoFrame → Drained S
picture_to_frame d picture frame = write_frame d picture picture.buffer frame

unfoldable pub return_all : {S : Type 0} → Library S → List VideoPicture → S → S
return_all lib [] s = s
return_all lib (picture ∷ pictures) s = return_all lib pictures (lib.return_picture s picture)

-- `mark_presented`: the current picture is given back.
unfoldable pub present : {S : Type 0} → Library S → Cedar S → Option VideoPicture → Cedar S
present lib d none = d
present lib d (some picture) = record d {
  library = lib.return_picture d.library picture;
  current_picture = none;
}

unfoldable pub mark_presented : {S : Type 0} → Library S → Cedar S → Cedar S
unfolding present
mark_presented lib d = present lib d d.current_picture

-- The two loops: what is decoded is put behind the queue, and of the queue six stay.
unfoldable pub collect_pictures :
    {S : Type 0} → Library S → Cedar S → S × List VideoPicture → Cedar S
collect_pictures lib d (s, pictures) =
    let queue = d.ready_pictures ++ pictures in
    record d {
      library = return_all lib (take (length queue - 6) queue) s;
      ready_pictures = drop (length queue - 6) queue;
      decoded_frames = d.decoded_frames + length pictures;
    }

-- The oldest picture of the queue becomes the current one, if there is none.
unfoldable pub show_next :
    {S : Type 0} → Cedar S → Option VideoPicture → List VideoPicture → DmabufVideoFrame → Drained S
unfolding picture_to_frame
show_next d (some current) queue frame = (d, (frame, false))
show_next d none [] frame = (d, (frame, false))
show_next d none (picture ∷ queue) frame =
    picture_to_frame (record d { current_picture = some picture; ready_pictures = queue }) picture
      frame

unfoldable pub drain_picture : {S : Type 0} → Library S → Cedar S → DmabufVideoFrame → Drained S
unfolding collect_pictures show_next
drain_picture lib d frame =
    let d' = collect_pictures lib d (lib.request_pictures d.library) in
    show_next d' d'.current_picture d'.ready_pictures frame

-- The pictures that `cleanup` gives back before the decoder is destroyed.
unfoldable pub cleanup : {S : Type 0} → Library S → Cedar S → Cedar S
unfolding mark_presented
cleanup lib d =
    let d' = mark_presented lib d in
    record d' { library = return_all lib d'.ready_pictures d'.library; ready_pictures = [] }
