-- ===== src/Lib.antt =====
-- OpenHD-Glide is the ground station display of OpenHD. Its workers (a user interface, an OSD
-- renderer, a video player and a supervisor) are processes that talk over a Unix socket in lines of
-- text, take telemetry from MAVLink over UDP or TCP, and decode a video stream that arrives as RTP.
-- This library models the parts that carry bytes and decisions between those processes:
--
-- Mavlink: src/common/mavlink_udp_bridge.cpp. Frame is the frame parser `parse_datagram`, Stream
--   is `parse_stream` with the TCP reads of `UdpBridge::poll`, Bridge the state of `UdpBridge`, and
--   Packet is `send_packet` with its checksum. The loops run on fuel, the number of bytes: each
--   round takes a byte at least, and the lemmas of Frame.Scan and Stream.Cases show that no result
--   depends on the fuel. Text and Command are `handle_action_line` with the messages that it
--   sends: a float is its bit pattern, `strtof` is an argument, and `long` has 64 bits. Heartbeat is
--   what `UdpBridge::poll` learns of heartbeats, Decode is `decode_frame` with the printing of floats
--   as an argument, and Poll is the whole of `UdpBridge::poll`. State is
--   src/common/mavlink_state.cpp: the snapshot that the OSD and the interface keep, and how
--   `apply_ipc_line` changes it; State.Reader is what the source uses of `std::istringstream`, with the reading of a float as an argument. Protocol is the tables of
--   src/common/openhd_protocol.hpp.
-- Control: src/common/preview_control.cpp, the settings that the processes share through small files.
--   The files are a function from paths to texts, and which of them can be written is an argument.
-- Ipc: src/common/ipc.cpp, its Linux branch. Lines is `drain_lines`, Client and Server are the
--   classes of those names. What the operating system answers (`accept`, `recv`, `send`, `bind`,
--   `listen`) is an argument; the descriptors closed are part of a result. Client ids are
--   natural numbers: the `int` of the source agrees with them up to 2 to the 31 less one, a bound that
--   the invariant of the server states. `drain_lines` runs on fuel, the length of the buffer, since
--   each line takes a byte at least.
-- Network: src/common/network_discovery.cpp, its Linux branch: the probes and answers by which stations
--   find each other, and the list of peers. Datagrams, the local addresses and the clock are
--   arguments.
-- Platform: src/platform/core_assignment.cpp. Cores is `assign_worker_cores`, which the supervisor
--   uses to pin the workers. Topology is src/platform/cpu_topology.cpp, which finds the cores: the
--   directory in /sys and its files are an argument, as is the size of `unsigned long`, which has 32
--   bits on the ARMHF builds; an exception is `none`.
-- Video: src/video/rockchip_mpp_rtp_decoder.cpp, the thread that feeds the decoder. Rtp parses the
--   header, Decoder.Feed tracks sequence numbers and time stamps, Decoder.H264 takes NAL units out
--   of H.264 and H.265 payloads, Decoder.Nal collects the slices of a picture, and Decoder.Submit
--   hands packets to MPP and seeds it with a recovery header. MPP, the files and the environment are
--   the record `Platform`; the packets that MPP accepts are kept in the state. Decoder.Mjpeg puts the
--   fragments of a JPEG frame together, and Decoder.Jpeg is the header in front of it. Decoded frames,
--   error texts and the MPP set-up are not modelled.
--
--   Cedar is src/video/cedar_rtp_decoder.cpp: Bits reads the slice header, Units builds and submits
--   access units, Append is `append_h264_payload`, Pictures is `drain_picture` with the frames, and
--   Feed is `handle_rtp_packet` and `poll`. The Cedar library is the record `Library` over a state of
--   any type; the byte that the receive buffer holds behind a packet is an argument, since the
--   aggregation loop may read it. The bit reader runs on fuel, one round for each byte.
--
-- Base holds the shared names, the lemmas on lists, and the integers. Numbers are natural; casts to
-- fixed widths are written as remainders. Not modelled, since they draw or call a device: the user
-- interface, the OSD widgets, the compositor, and the probes of DRM and of processes.
mod Base
pub mod Control
pub mod Ipc
pub mod Mavlink
pub mod Network
pub mod Platform
pub mod Video
mod Tests
