-- ===== src/Models.antt =====
-- The list models under Qt/Back/Models.
pub mod CameraModel
pub mod AiImageModel
pub mod DeviceModel
pub mod UserModel
