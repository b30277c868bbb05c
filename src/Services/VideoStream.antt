-- ===== src/Services/VideoStream.antt =====
-- Qt/Back/Services/VideoStream.hpp and VideoStream.cpp: the workers of the cameras, and the streams that QML shows them
-- with. A worker is known by a serial number, as by its address; decoding stands behind `starts` and `stops`.
mod Manager
mod Stream
pub mod Attach
mod Examples
unfoldable pub use Manager.*
unfoldable pub use Stream.*
