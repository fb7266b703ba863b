-- ===== src/Ipc.antt =====
-- The `ipc` package: framing and transport of frames, the protocol, its client and its server.
pub mod Framing
pub mod Transport
pub mod Waiting
pub mod Protocol
pub mod Client
pub mod Server
