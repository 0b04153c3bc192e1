-- ===== src/Codec/Safe.antt =====
-- What holds of every read on every input: the offset stays in bounds and never moves back, and
-- once an error is set nothing changes any more.
mod Rules
mod Methods
pub use Rules.*
pub use Methods.*
