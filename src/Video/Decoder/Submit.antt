-- ===== src/Video/Decoder/Submit.antt =====
-- `submit_packet`, `update_x20_detection`, `inject_x20_header_if_needed` and `submit_nal`.
use openhd_glide.Base.{
  ℕ, suc, ◌%◌, Bool, true, false, not, ◌&&◌, ◌||◌, List, [], ◌∷◌, ◌++◌, Option, none, some, leb,
  ◌==◌, if◌then◌else◌, length, take, Bytes, codes, same_bytes,
}
use openhd_glide.Video.Rtp.{byte_at}
use openhd_glide.Video.Decoder.{Decoder, Platform, Put, put, stalled, no_packet, stopped, and_then}

abbrev pub start_code : Bytes
start_code = 0 ∷ 0 ∷ 0 ∷ 1 ∷ []

abbrev pub x20_sps : Bytes
x20_sps = 0x67 ∷ 0x4d ∷ 0x00 ∷ 0x29 ∷ 0x96 ∷ 0x54 ∷ 0x02 ∷ 0x80 ∷ 0x2d ∷ 0x88 ∷ []

abbrev pub x20_pps : Bytes
x20_pps = 0x68 ∷ 0xee ∷ 0x31 ∷ 0x12 ∷ []

unfoldable pub is_x21_rv1126_mpp_sps : Bytes → Bool
is_x21_rv1126_mpp_sps nal =
    leb 4 (length nal) && byte_at nal 0 % 32 == 7 && byte_at nal 1 == 0x64 && byte_at nal 3 == 0x2a

-- A packet with no bytes is refused; MPP is initialised while the feed runs.
unfoldable pub after_put : Decoder → Bytes → ℕ → Put → Decoder × Bool
after_put d bytes pts put = (
  record d {
    parsed_units = suc d.parsed_units;
    submitted_packets = suc d.submitted_packets;
    accepted = d.accepted ++ (bytes, pts) ∷ [];
  },
  true,
)
after_put d bytes pts stalled = (record d { submit_stalls = suc d.submit_stalls }, false)
after_put d bytes pts no_packet = (d, false)
after_put d bytes pts stopped = (d, false)

unfoldable pub submit_packet : Platform → Decoder → Bytes → ℕ → Decoder × Bool
unfolding after_put
submit_packet p d bytes pts =
    if length bytes == 0 || d.mjpeg
    then (d, false)
    else after_put d bytes pts (p.put_packet d.accepted bytes pts)

-- The value that `update_x20_detection` returns.
unfoldable pub wants_header : Decoder → Bool
wants_header d =
    (d.x20_sps_seen && d.x20_pps_seen && not d.x20_header_injected)
    || (d.x21_mpp_sps_seen && not d.x20_header_injected)

unfoldable pub detect_nal : Decoder → Bytes → Decoder
unfolding is_x21_rv1126_mpp_sps
detect_nal d nal =
    if byte_at nal 0 % 32 == 7
    then if same_bytes nal x20_sps
      then record d { x20_sps_seen = true }
      else if is_x21_rv1126_mpp_sps nal
      then record d { x21_mpp_sps_seen = true }
      else record d { x20_checked_non_x20 = true }
    else if byte_at nal 0 % 32 == 8
    then if same_bytes nal x20_pps
      then record d { x20_pps_seen = true }
      else record d { x20_checked_non_x20 = true }
    else d

unfoldable pub update_x20_detection : Decoder → Bytes → Decoder × Bool
unfolding wants_header detect_nal
update_x20_detection d nal =
    let d' =
      if d.x20_header_injected || d.x20_checked_non_x20 || length nal == 0
      then d
      else detect_nal d nal in
    (d', wants_header d')

-- The override is used if it is set and not empty.
abbrev override : Option Bytes → List Bytes
override none = []
override (some []) = []
override (some (c ∷ cs)) = (c ∷ cs) ∷ []

unfoldable pub header_paths : Platform → Decoder → List Bytes
header_paths p d =
    if d.x21_mpp_sps_seen
    then override (p.getenv (codes "OPENHD_GLIDE_X21_HEADER"))
      ++ (codes "/usr/share/openhd-glide/x21_header.h264"
          ∷ codes "/usr/local/share/openhd-glide/x21_header.h264"
          ∷ codes "/usr/local/bin/x21_header.h264"
          ∷ [])
    else override (p.getenv (codes "OPENHD_GLIDE_X20_HEADER"))
      ++ (codes "/usr/share/openhd-glide/x20_header.h264"
          ∷ codes "/usr/local/share/openhd-glide/x20_header.h264"
          ∷ codes "/usr/local/bin/x20_header.h264"
          ∷ [])

-- The first file of the list that can be opened and is not empty.
unfoldable pub find_header : Platform → List Bytes → Option Bytes
find_header p [] = none
find_header p (path ∷ paths) = elim (p.read_file path) [
  | none ↦ find_header p paths
  | some [] ↦ find_header p paths
  | some (c ∷ cs) ↦ some (c ∷ cs)
]

abbrev count_injection : Decoder → Decoder × Bool
count_injection d = (
  record d { x20_header_injected = true; x20_header_injections = suc d.x20_header_injections },
  true,
)

unfoldable pub inject_found : Platform → Decoder → Option Bytes → Decoder × Bool
inject_found p d none = (record d { x20_header_missing = true }, true)
inject_found p d (some header) = and_then (submit_packet p d header 0) count_injection

unfoldable pub inject_x20_header_if_needed : Platform → Decoder → Decoder × Bool
unfolding inject_found
inject_x20_header_if_needed p d =
    if d.x20_header_injected || d.x20_header_missing
    then (d, true)
    else inject_found p d (find_header p (header_paths p d))

-- The packet for a NAL: with a start code in front, unless it has one.
unfoldable pub annex_b : Bytes → Bytes
annex_b nal = if same_bytes (take 4 nal) start_code then nal else start_code ++ nal

abbrev inject_if : Platform → Decoder × Bool → Decoder × Bool
inject_if p (d, true) = inject_x20_header_if_needed p d
inject_if p (d, false) = (d, true)

unfoldable pub submit_nal : Platform → Decoder → Bytes → ℕ → Decoder × Bool
unfolding annex_b
submit_nal p d nal pts =
    let seeded = if d.h265 then (d, true) else inject_if p (update_x20_detection d nal) in
    if length nal == 0
    then (d, true)
    else and_then seeded (λ d'. submit_packet p d' (annex_b nal) pts)
