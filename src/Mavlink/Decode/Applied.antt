-- ===== src/Mavlink/Decode/Applied.antt =====
-- From a frame to the snapshot: the numbers that `decode_frame` prints are those that
-- `apply_ipc_line` (src/common/mavlink_state.cpp) stores.
use openhd_glide.Base.{
  ℕ, zero, suc, ◌^◌, ◌<◌, ◌≡◌, refl, ap, ◌∙◌, true, false, List, [], ◌∷◌, map, All, AreBytes,
  All-drop, some, length, drop, Bytes, same_bytes, arith,
}
use openhd_glide.Base.Int.{ℤ, pos}
use openhd_glide.Mavlink.Frame.{Frame}
use openhd_glide.Mavlink.Text.{is_space, skip_spaces, split_word, le_value, read_le}
use openhd_glide.Mavlink.Protocol.{int_to_string}
use openhd_glide.Mavlink.Decode.{Printing, spaced, read_i8, decode_rc, decode_frame}
use openhd_glide.Mavlink.Decode.Numbers.{IsInt, Ends, read_int-field}
use openhd_glide.Mavlink.State.{Snapshot}
use openhd_glide.Mavlink.State.Reader.{Reader, read_word, word_of, read_int}
use openhd_glide.Mavlink.State.Keys.{rc_key, key_of}
use openhd_glide.Mavlink.State.Telemetry.{Floats}
use openhd_glide.Mavlink.State.Lines.{read_channels, apply_key, dispatch, apply_ipc_line}

abbrev pub at : Bytes → Reader
at rest = record { rest = rest; failed = false }

-- The texts of integers behind a word.
abbrev fields : List ℤ → Bytes
fields zs = spaced (map int_to_string zs)

fields-Ends : (zs : List ℤ) → Ends (fields zs)
fields-Ends [] = tt
fields-Ends (z ∷ zs) = refl

read_int-fields :
    (old z : ℤ) (zs : List ℤ) → IsInt z → read_int old (at (fields (z ∷ zs))) ≡ (z, at (fields zs))
read_int-fields old z zs h = read_int-field old z (fields zs) h (fields-Ends zs)

read_channels-fields :
    (olds zs : List ℤ)
    → length olds ≡ length zs
    → All IsInt zs
    → read_channels olds (at (fields zs)) ≡ zs
unfolding read_channels
read_channels-fields [] [] e h = refl
read_channels-fields [] (z ∷ zs) e h = ground (arith, e)
read_channels-fields (old ∷ olds) [] e h = ground (arith, e)
read_channels-fields (old ∷ olds) (z ∷ zs) e h =
    let rest : length olds ≡ length zs = omega (arith, e) in
    rw (read_int-fields old z zs h.0) (ap (◌∷◌ z) (read_channels-fields olds zs rest h.1))

le_value-lt : (size : ℕ) (bytes : Bytes) → AreBytes bytes → le_value size bytes < 256 ^ size
le_value-lt zero bytes h = omega arith
le_value-lt (suc size) [] h = omega (arith, le_value-lt size [] h)
le_value-lt (suc size) (b ∷ bytes) h = omega (arith, h.0, le_value-lt size bytes h.1)

read_le-lt :
    (size : ℕ) (payload : Bytes) (offset : ℕ)
    → AreBytes payload
    → read_le size payload offset < 256 ^ size
unfolding read_le
read_le-lt size payload offset h = ground (
  arith,
  le_value-lt size (drop offset payload) (All-drop (λ b. b < 256) offset payload h),
  le_value-lt size [] tt,
)

u16-IsInt :
    (payload : Bytes) (offset : ℕ) → AreBytes payload → IsInt (pos (read_le 2 payload offset))
u16-IsInt payload offset h = omega (arith, read_le-lt 2 payload offset h)

i8-IsInt : (payload : Bytes) (offset : ℕ) → AreBytes payload → IsInt (read_i8 payload offset)
i8-IsInt payload offset h = ground (arith, read_le-lt 1 payload offset h)

-- The channels as the frame holds them.
abbrev pub channels : Bytes → List ℤ
channels p =
    pos (read_le 2 p 4) ∷ pos (read_le 2 p 6) ∷ pos (read_le 2 p 8) ∷ pos (read_le 2 p 10) ∷ []

decode_rc-reader :
    (f : Floats) (s : Snapshot) (p : Bytes)
    → apply_ipc_line f s (decode_rc p) ≡ apply_key f s rc_key (at (fields (channels p)))
unfolding apply_ipc_line dispatch read_word word_of skip_spaces split_word is_space same_bytes
    key_of decode_rc int_to_string
decode_rc-reader f s p = refl

decode_frame-rc :
    (n : Printing) (frame : Frame)
    → frame.msgid ≡ 65
    → decode_frame n frame ≡ some (decode_rc frame.payload)
unfolding decode_frame
decode_frame-rc n frame e = rw e refl

-- The path of the remote control's channels: a frame RC_CHANNELS is decoded into a line, and that
-- line, given to any snapshot of four channels, sets them to the numbers of the frame and changes
-- nothing else. The payload consists of bytes.
pub decode_frame-apply_ipc_line :
    (n : Printing) (f : Floats) (s : Snapshot) (frame : Frame)
    → frame.msgid ≡ 65
    → AreBytes frame.payload
    → length s.rc_channels ≡ 4
    → (decode_frame n frame ≡ some (decode_rc frame.payload))
      × (apply_ipc_line f s (decode_rc frame.payload)
          ≡ (record s { rc_channels = channels frame.payload }, true))
unfolding apply_key
decode_frame-apply_ipc_line n f s frame e h four =
    let p = frame.payload in
    let ints : All IsInt (channels p) =
      (u16-IsInt p 4 h, (u16-IsInt p 6 h, (u16-IsInt p 8 h, (u16-IsInt p 10 h, tt)))) in
    let read = read_channels-fields s.rc_channels (channels p) four ints in
    (
      decode_frame-rc n frame e,
      decode_rc-reader f s p ∙ ap (λ (cs : List ℤ). (record s { rc_channels = cs }, true)) read,
    )
