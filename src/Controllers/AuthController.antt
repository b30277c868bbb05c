-- ===== src/Controllers/AuthController.antt =====
-- Qt/Back/Controllers/AuthController.hpp and AuthController.cpp. A bridge may be missing, and the signals
-- of a bridge are queued: no call of it comes back into the controller before it returns.
mod Session
pub mod Sends
mod Examples
unfoldable pub use Session.*
