-- ===== src/Services.antt =====
-- The services under Qt/Back/Services.
pub mod NetworkBridge
pub mod ServerStatus
pub mod VideoStream
