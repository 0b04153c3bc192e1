-- ===== src/Frame.antt =====
-- internal/protocol/frame: `Cfb8` is the cipher of cfb8.go, `Conn` the framing of frame.go; the
-- modules below them prove.
pub mod Cfb8
pub mod Conn
mod Examples
