-- ===== src/Core.antt =====
-- Core.cpp: what the messages do to the stores and models.
mod Handlers
pub mod ByIp
pub mod Images
mod Examples
unfoldable pub use Handlers.*
