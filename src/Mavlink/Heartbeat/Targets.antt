-- ===== src/Mavlink/Heartbeat/Targets.antt =====
-- Where the bridge sends what is meant for the flight controller.
use openhd_glide.Base.{
  ℕ, ◌≡◌, refl, ◌∙◌, true, false, List, [], ◌∷◌, ◌++◌, Bytes, codes, same_bytes, All, arith,
}
use openhd_glide.Mavlink.Frame.{Frame}
use openhd_glide.Mavlink.Bridge.{UdpBridge}
use openhd_glide.Mavlink.Command.{targets, target_system_for, target_component_for}
use openhd_glide.Mavlink.Heartbeat.{is_fc_heartbeat, learn, learn_all}

abbrev fc : Bytes
fc = codes "fc"

targets-fc :
    (b : UdpBridge)
    → targets b fc ≡ b.flight_controller_system_id ∷ b.flight_controller_component_id ∷ []
unfolding target_system_for target_component_for same_bytes
targets-fc b = refl

record Holds (b : UdpBridge) (system component : ℕ) : Type 0 where
  system_id : b.flight_controller_system_id ≡ system
  component_id : b.flight_controller_component_id ≡ component

learn-fc :
    (b : UdpBridge) (frame : Frame)
    → is_fc_heartbeat frame ≡ true
    → Holds (learn b frame).0 frame.sysid frame.compid
unfolding learn is_fc_heartbeat
learn-fc b frame h = record { system_id = ground (arith, h); component_id = ground (arith, h) }

learn-other :
    (b : UdpBridge) (frame : Frame) (system component : ℕ)
    → is_fc_heartbeat frame ≡ false
    → Holds b system component
    → Holds (learn b frame).0 system component
unfolding learn is_fc_heartbeat
learn-other b frame system component h k = record {
  system_id = ground (arith, h, k.system_id);
  component_id = ground (arith, h, k.component_id);
}

learn_all-other :
    (frames : List Frame) (b : UdpBridge) (system component : ℕ)
    → All (λ frame. is_fc_heartbeat frame ≡ false) frames
    → Holds b system component
    → Holds (learn_all b frames).0 system component
unfolding learn_all
learn_all-other [] b system component h k = k
learn_all-other (frame ∷ frames) b system component h k =
    learn_all-other frames (learn b frame).0 system component h.1
      (learn-other b frame system component h.0 k)

learn_all-last :
    (before : List Frame) (frame : Frame) (after : List Frame) (b : UdpBridge)
    → is_fc_heartbeat frame ≡ true
    → All (λ frame. is_fc_heartbeat frame ≡ false) after
    → Holds (learn_all b (before ++ frame ∷ after)).0 frame.sysid frame.compid
unfolding learn_all
learn_all-last [] frame after b h k =
    learn_all-other after (learn b frame).0 frame.sysid frame.compid k (learn-fc b frame h)
learn_all-last (first ∷ before) frame after b h k =
    learn_all-last before frame after (learn b first).0 h k

-- Whatever frames came before, what is meant for the flight controller goes to the one whose
-- heartbeat was heard last, whatever other frames came after it.
pub learn_all-targets :
    (before : List Frame) (frame : Frame) (after : List Frame) (b : UdpBridge)
    → is_fc_heartbeat frame ≡ true
    → All (λ frame. is_fc_heartbeat frame ≡ false) after
    → targets (learn_all b (before ++ frame ∷ after)).0 (codes "fc")
      ≡ frame.sysid ∷ frame.compid ∷ []
learn_all-targets before frame after b h k =
    let last = learn_all-last before frame after b h k in
    targets-fc (learn_all b (before ++ frame ∷ after)).0 ∙ rw (last.system_id, last.component_id)
