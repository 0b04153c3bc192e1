-- ===== src/Packet.antt =====
-- internal/protocol/packet: the packets and their dispatch.
pub mod Joining
pub mod Playing
pub mod Registry
pub mod Dispatch
pub mod Safe
pub mod Sent
pub mod Clientbound
pub mod Trailing
pub mod Layout
pub mod Moved
pub mod Ids
pub mod Received
mod Examples
