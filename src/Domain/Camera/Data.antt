-- ===== src/Domain/Camera/Data.antt =====
-- The data of Src/Domain/Camera.hpp. `R` stands for `double`.
use with_boost.Common.{ℕ, Bool, Text, List, ℤ}

pub record DeviceInfo (R : Type 0) : Type 0 where
  pub hum : R
  pub light : R
  pub tilt : R
  pub tmp : R

-- A default-constructed `DeviceInfo`, from the zero of `double`.
abbrev pub no_reading : {R : Type 0} → R → DeviceInfo R
no_reading zero = record { hum = zero; light = zero; tilt = zero; tmp = zero }

pub record CameraData (R : Type 0) : Type 0 where
  pub title : Text
  pub camera_type : Text
  pub is_online : Bool
  pub camera_id : Text
  pub device_info : DeviceInfo R

pub record AiInfo : Type 0 where
  pub img : List Text
  pub person_count : List ℤ

pub record CameraStruct (R : Type 0) : Type 0 where
  pub device_info : DeviceInfo R
  pub ai_info : AiInfo
  pub source_url : Text

pub data SplitDirection : Type 0 where
  none col row grid : SplitDirection

-- `static_cast<int>(direction)`.
pub direction_code : SplitDirection → ℕ
direction_code none = 0
direction_code col = 1
direction_code row = 2
direction_code grid = 3
