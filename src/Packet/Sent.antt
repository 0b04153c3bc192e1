-- ===== src/Packet/Sent.antt =====
-- internal/protocol/packet: the clientbound packets and their `Encode`.
pub mod Login
pub mod Configuration
pub mod Play
pub mod Entity
pub mod Chat
