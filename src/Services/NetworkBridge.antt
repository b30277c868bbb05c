-- ===== src/Services/NetworkBridge.antt =====
-- Qt/Back/Services/NetworkBridge.hpp and NetworkBridge.cpp. `to_std` is `QString::toStdString`, and a
-- call of the service is recorded with its message type and its body.
mod Body
mod Device
mod Answers
pub mod ReadBack
pub mod Status
mod Examples
unfoldable pub use Body.*
unfoldable pub use Answers.*
unfoldable pub use Device.*
