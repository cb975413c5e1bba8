-- ===== src/Ipc.antt =====
-- src/common/ipc.cpp: the line protocol between the controller and the workers.
pub mod Lines
pub mod Socket
pub mod Client
pub mod Server
