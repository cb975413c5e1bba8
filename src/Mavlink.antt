-- ===== src/Mavlink.antt =====
-- src/common/mavlink_udp_bridge.cpp: the MAVLink side of the controller.
pub mod Frame
pub mod Stream
pub mod Bridge
pub mod Packet
pub mod Text
pub mod Command
pub mod Heartbeat
pub mod Protocol
pub mod Decode
pub mod Poll
pub mod State
