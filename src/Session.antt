-- ===== src/Session.antt =====
-- internal/net/session: one connection, driven through the protocol's states.
pub mod State
pub mod Chunks
pub mod Login
pub mod Play
pub mod Handle
pub mod Keeps
pub mod Sending
pub mod Blind
pub mod Deaf
pub mod Dispatched
pub mod States
pub mod View
pub mod Loops
pub mod Near
pub mod Streamed
pub mod Total
pub mod Serving
pub mod Synced
pub mod Hotbar
pub mod Beats
pub mod Calm
pub mod Orderly
pub mod Unkeyed
pub mod Trusted
pub mod Running
pub mod Beside
pub mod Online
mod Examples
