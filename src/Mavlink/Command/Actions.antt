-- ===== src/Mavlink/Command/Actions.antt =====
-- An action line on its way to the frame that its receiver reads.
use openhd_glide.Base.{
  ℕ, zero, suc, ◌/◌, ◌^◌, ◌≤◌, ◌<◌, ◌≡◌, ◌≢◌, refl, ap, ◌∙◌, [], ◌∷◌, ◌++◌, Bytes, length, All,
  arith, true, false, ltb, length-append, length-replicate, append-nil, some, none, Option,
  same_bytes, map,
}
use openhd_glide.Mavlink.State.{format_action_set_param}
use openhd_glide.Mavlink.Bridge.{UdpBridge}
use openhd_glide.Mavlink.Frame.{parse_datagram, datagram_loop}
use openhd_glide.Mavlink.Packet.{
  Transmit, sent_all, cannot_send, packet, put_le, put_fixed_string, send_packet,
}
use openhd_glide.Mavlink.Packet.RoundTrip.{sent_frame, parse_datagram-packet}
use openhd_glide.Mavlink.Text.{extract, c_string, is_space, split_word, skip_spaces}
use openhd_glide.Mavlink.Text.Strings.{
  IsWord, extract-word, extract-space, get_line-space, length-put_fixed_string,
  c_string-put_fixed_string,
}
use openhd_glide.Mavlink.Command.{
  ParseFloat, Sent, send, or_else, targets, ext_value, integer_pattern, param_ext_set_payload,
  send_param_ext_set, send_param_set, handle_set, handle_action_line,
}

length-put_le : (size value : ℕ) → length (put_le size value) ≡ size
unfolding put_le
length-put_le zero value = refl
length-put_le (suc size) value = ap suc (length-put_le size (value / 256))

length-ext_value : (value : Bytes) (pattern : Option ℕ) → length (ext_value value pattern) ≡ 129
unfolding ext_value
length-ext_value value (some pattern) = omega (
  arith,
  length-append (put_le 4 pattern),
  length-put_le 4 pattern,
  length-replicate {0} {A = ℕ} 124 0,
)
length-ext_value value none =
    omega (arith, length-append (put_fixed_string value 128), length-put_fixed_string value 128)

length-param_ext_set_payload :
    (b : UdpBridge) (target name value : Bytes)
    → length (param_ext_set_payload b target name value) ≡ 147
unfolding param_ext_set_payload
length-param_ext_set_payload b target name value = omega (
  arith,
  length-append (put_fixed_string name 16),
  length-put_fixed_string name 16,
  length-ext_value value (integer_pattern value),
)

-- The socket takes whole packets, and the bridge can send.
pub record IsUp (transmit : Transmit) (b : UdpBridge) : Type 0 where
  pub can_send : cannot_send b [] ≡ false
  pub takes_all : (b' : UdpBridge) (bytes : Bytes) → sent_all (transmit b' bytes) bytes ≡ true

cannot_send-short :
    (b : UdpBridge) (payload : Bytes)
    → cannot_send b [] ≡ false
    → length payload ≤ 255
    → cannot_send b payload ≡ false
unfolding cannot_send
cannot_send-short b payload h k =
    let fits : ltb 255 (length payload) ≡ false = ground (arith, k) in rw fits h

send-IsUp :
    (transmit : Transmit) (b : UdpBridge) (message_id crc_extra : ℕ) (payload : Bytes)
    → IsUp transmit b
    → length payload ≤ 255
    → (send transmit b message_id crc_extra payload).packets
        ≡ packet b message_id crc_extra payload ∷ []
      × ((send transmit b message_id crc_extra payload).ok ≡ true)
unfolding send_packet
send-IsUp transmit b message_id crc_extra payload h k =
    rw (cannot_send-short b payload h.can_send k) (refl, h.takes_all _ _)

format_action_set_param-stream :
    (parse_float : ParseFloat) (transmit : Transmit) (b : UdpBridge) (target name value : Bytes)
    → handle_action_line parse_float transmit b (format_action_set_param target name value)
      ≡ handle_set parse_float transmit b (32 ∷ (target ++ 32 ∷ (name ++ 32 ∷ value)))
unfolding handle_action_line extract split_word skip_spaces is_space same_bytes
format_action_set_param-stream parse_float transmit b target name value = refl

handle_set-fields :
    (parse_float : ParseFloat) (transmit : Transmit) (b : UdpBridge) (target name value : Bytes)
    → IsWord target
    → IsWord name
    → All (λ c. c ≢ 10) value
    → handle_set parse_float transmit b (32 ∷ (target ++ 32 ∷ (name ++ 32 ∷ value)))
      ≡ or_else
          (send_param_ext_set transmit b target name value)
          (λ b'. send_param_set parse_float transmit b' target name value)
unfolding handle_set
handle_set-fields parse_float transmit b target name value t n v = rw (
  extract-space (target ++ 32 ∷ (name ++ 32 ∷ value)),
  extract-word target (name ++ 32 ∷ value) t,
  extract-space (name ++ 32 ∷ value),
  extract-word name value n,
  get_line-space value v,
)

-- The name in the payload.
read_name :
    (b : UdpBridge) (target name value : Bytes)
    → IsWord name
    → length name ≤ 16
    → c_string (param_ext_set_payload b target name value) 2 16 ≡ name
unfolding param_ext_set_payload
read_name b target name value n k =
    c_string-put_fixed_string (targets b target) name (ext_value value (integer_pattern value)) 16 n
      k

or_else-ok :
    (first : Sent) (second : UdpBridge → Sent) → first.ok ≡ true → or_else first second ≡ first
or_else-ok first second e = rw e

parse_datagram-whole :
    (b : UdpBridge) (message_id crc_extra : ℕ) (payload : Bytes)
    → length payload ≤ 255
    → message_id < 2 ^ 24
    → parse_datagram (packet b message_id crc_extra payload) ≡ sent_frame b message_id payload ∷ []
parse_datagram-whole b message_id crc_extra payload h k =
    rw append-nil at (parse_datagram-packet b message_id crc_extra payload [] h k)
    ∙ ap (◌∷◌ (sent_frame b message_id payload)) (unfold parse_datagram datagram_loop in refl)

-- A settings line as `format_action_set_param` makes it, given to the bridge, sends one packet, and
-- its receiver reads one PARAM_EXT_SET frame of 147 bytes from it, from this bridge and with the
-- line's name in it. The target and the name are words, the name of sixteen letters at most, the
-- value stands on one line, and the bridge can send.
pub handle_action_line-format_action_set_param :
    (parse_float : ParseFloat) (transmit : Transmit) (b : UdpBridge) (target name value : Bytes)
    → IsUp transmit b
    → IsWord target
    → IsWord name
    → length name ≤ 16
    → All (λ c. c ≢ 10) value
    → let sent =
        handle_action_line parse_float transmit b (format_action_set_param target name value) in
      let payload = param_ext_set_payload b target name value in
      (sent.ok ≡ true)
      × (map parse_datagram sent.packets ≡ (sent_frame b 323 payload ∷ []) ∷ [])
      × (length payload ≡ 147)
      × (c_string payload 2 16 ≡ name)
unfolding send_param_ext_set
handle_action_line-format_action_set_param parse_float transmit b target name value up t n k v =
    let payload = param_ext_set_payload b target name value in
    let size = length-param_ext_set_payload b target name value in
    let (sent, ok) = send-IsUp transmit b 323 78 payload up (omega (arith, size)) in
    let frame = parse_datagram-whole b 323 78 payload (omega (arith, size)) (omega arith) in
    let second : UdpBridge → Sent =
      λ b'. send_param_set parse_float transmit b' target name value in
    rw
      (
        format_action_set_param-stream parse_float transmit b target name value,
        handle_set-fields parse_float transmit b target name value t n v,
        or_else-ok (send_param_ext_set transmit b target name value) second ok,
      )
      (ok, rw (sent, frame), size, read_name b target name value n k)
