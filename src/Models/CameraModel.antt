-- ===== src/Models/CameraModel.antt =====
-- Qt/Back/Models/CameraModel.hpp and CameraModel.cpp.
pub mod Entry
pub mod CropRect
pub mod Split
pub mod Merge
pub mod AutoSplit
pub mod Update
pub mod Store
pub mod Lookup
pub mod Tiling
pub mod Commands
pub mod Swap
mod Examples
pub mod SlotIds
pub mod WellFormed
pub mod SplitResult
pub mod MergeResult
pub mod RowData
pub mod Edited
