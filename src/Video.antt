-- ===== src/Video.antt =====
-- video/: from RTP packets to decoder input.
pub mod Rtp
pub mod Decoder
pub mod Cedar
