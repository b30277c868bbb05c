-- ===== src/Domain/Device.antt =====
-- Src/Domain/Device.hpp and Device.cpp.
mod Data
mod Packets
pub mod CameraId
pub mod History
mod Bounds
pub mod Bounded
pub mod View
mod Examples
pub mod Available
unfoldable pub use Data.*
unfoldable pub use Packets.*
