-- ===== src/Domain/ServerStatus.antt =====
-- Src/Domain/ServerStatus.hpp and ServerStatus.cpp.
mod Store
pub mod History
mod Examples
unfoldable pub use Store.*
