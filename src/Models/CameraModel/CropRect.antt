-- ===== src/Models/CameraModel/CropRect.antt =====
-- `CameraModel::computeCropRect` and the tile counts that a direction admits.
use with_boost.Common.{
  ℕ, ◌+◌, ◌-◌, ◌*◌, ◌/◌, ◌%◌, ◌≤◌, ◌<◌, ◌≡◌, Bool, true, false, ◌||◌, ◌&&◌, ltb, leb, ◌==◌,
  if◌then◌else◌, arith,
}
use with_boost.Domain.Camera.{SplitDirection}
use with_boost.Models.CameraModel.Entry.{CropRect, one, full_frame}

-- One tile of an axis cut in `count` equal parts; the last one ends at the border. The quotient is the double nearest to
-- it for two, three and four parts, and the multiple, the sum and the difference that are then used
-- are doubles: they are not rounded. The last sum, which would be, is not used.
unfoldable pub axis_tile : ℕ → ℕ → ℕ × ℕ
axis_tile index count =
    let w = one / count in
    let x = index * w in let end = if index == count - 1 then one else x + w in (x, end - x)

abbrev pub half : ℕ
half = 9007199254740992

unfoldable pub compute_crop_rect : ℕ → ℕ → SplitDirection → CropRect
unfolding axis_tile
compute_crop_rect index count SplitDirection.col =
    let (x, w) = axis_tile index count in
    if ltb count 2 || ltb 4 count
    then full_frame
    else record { x = x; y = 0; width = w; height = one }
compute_crop_rect index count SplitDirection.row =
    let (y, h) = axis_tile index count in
    if ltb count 2 || ltb 3 count
    then full_frame
    else record { x = 0; y = y; width = one; height = h }
compute_crop_rect index count SplitDirection.grid =
    if count == 4
    then record { x = (index % 2) * half; y = (index / 2) * half; width = half; height = half }
    else full_frame
compute_crop_rect index count SplitDirection.none = full_frame

-- `validCount` of `_splitSlotAtIndex`.
unfoldable pub valid_count : SplitDirection → ℕ → Bool
valid_count SplitDirection.col count = leb 2 count && leb count 4
valid_count SplitDirection.row count = (count == 2) || (count == 3)
valid_count SplitDirection.grid count = count == 4
valid_count SplitDirection.none count = false

-- The point (px, py) of the frame, in the unit of `one`, lies in the tile.
abbrev pub Covers : CropRect → ℕ → ℕ → Type 0
Covers r px py = (r.x ≤ px) × (px < r.x + r.width) × (r.y ≤ py) × (py < r.y + r.height)

pub valid_count_range :
    (direction : SplitDirection) (n : ℕ) → valid_count direction n ≡ true → (2 ≤ n) × (n ≤ 4)
unfolding valid_count
valid_count_range direction n h = ground arith
