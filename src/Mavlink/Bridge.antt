-- ===== src/Mavlink/Bridge.antt =====
-- The state of `UdpBridge` (src/common/mavlink_udp_bridge.hpp). `fd` is `none` for the value -1, `peer`
-- for the null pointer. A socket address is the bytes of its `sockaddr_storage`.
use openhd_glide.Base.{ℕ, Bool, false, Option, none, some, [], Bytes}

pub data NetworkTransport : Type 0 where
  udp tcp : NetworkTransport

pub record UdpBridgeOptions : Type 0 where
  pub listen_port : ℕ
  pub system_id : ℕ
  pub component_id : ℕ

pub record PeerStorage : Type 0 where
  pub address : Bytes
  pub length : ℕ
  pub valid : Bool

pub record UdpBridge : Type 0 where
  pub fd : Option ℕ
  pub options : UdpBridgeOptions
  pub transport : NetworkTransport
  pub remote_host : Bytes
  pub remote_port : ℕ
  pub listening : Bool
  pub stream_buffer : Bytes
  pub sequence : ℕ
  pub flight_controller_system_id : ℕ
  pub flight_controller_component_id : ℕ
  pub air_system_id : ℕ
  pub air_component_id : ℕ
  pub ground_system_id : ℕ
  pub ground_component_id : ℕ
  pub last_error : Bytes
  pub peer : Option PeerStorage

abbrev pub default_options : UdpBridgeOptions
default_options = record { listen_port = 14550; system_id = 255; component_id = 190 }

-- The default member initialisers.
abbrev pub fresh_bridge : UdpBridge
fresh_bridge = record {
  fd = none;
  options = default_options;
  transport = udp;
  remote_host = [];
  remote_port = 0;
  listening = false;
  stream_buffer = [];
  sequence = 0;
  flight_controller_system_id = 1;
  flight_controller_component_id = 1;
  air_system_id = 1;
  air_component_id = 1;
  ground_system_id = 100;
  ground_component_id = 1;
  last_error = [];
  peer = none;
}

unfoldable pub close : UdpBridge → UdpBridge
close b = record b {
  fd = none;
  peer = none;
  stream_buffer = [];
  remote_host = [];
  remote_port = 0;
  listening = false;
}

unfoldable pub running : UdpBridge → Bool
running b = elim b.fd [ none ↦ false | some n ↦ Bool.true ]
