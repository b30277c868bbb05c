-- ===== src/Controllers.antt =====
-- The controllers under Qt/Back/Controllers.
pub mod AuthController
pub mod AlarmController
pub mod SettingsController
pub mod AppController
