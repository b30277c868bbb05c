-- ===== src/Network/TcpSession.antt =====
-- Src/Network/TcpSession.hpp: framed messages over a byte stream, with or without TLS. The TLS session is
-- an interface; what the session does to the outside is a list of effects.
mod Defs
pub mod Framing
pub mod Lifecycle
mod Examples
unfoldable pub use Defs.*
