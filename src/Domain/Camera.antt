-- ===== src/Domain/Camera.antt =====
-- Src/Domain/Camera.hpp and Camera.cpp.
mod Data
mod Store
pub mod TableInfo
mod CameraList
pub mod Latest
mod Examples
pub use Data.*
unfoldable pub use Store.*
