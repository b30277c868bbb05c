-- ===== src/Domain.antt =====
-- The domain stores under Src/Domain.
pub mod Json
pub mod Camera
pub mod Device
pub mod ServerStatus
pub mod Alarm
