-- ===== src/Models/CameraModel/Tiling.antt =====
-- The tiles of a split cover the frame once.
use with_boost.Common.{
  ℕ, zero, suc, ◌+◌, ◌-◌, ◌*◌, ◌/◌, leb, if◌then◌else◌, ◌<◌, ◌≡◌, ◌↔◌, true, arith,
}
use with_boost.Domain.Camera.{SplitDirection}
use with_boost.Models.CameraModel.Entry.{one}
use with_boost.Models.CameraModel.CropRect.{compute_crop_rect, half, valid_count, Covers}

-- The part of an axis that a coordinate lies in, the rest that the rounding leaves with the last part.
abbrev pub part_at : ℕ → ℕ → ℕ
part_at count p = let part = p / (one / count) in if leb count part then count - 1 else part

-- The tile that a point lies in.
abbrev pub tile_at : SplitDirection → ℕ → ℕ → ℕ → ℕ
tile_at SplitDirection.none count px py = 0
tile_at SplitDirection.col count px py = part_at count px
tile_at SplitDirection.row count px py = part_at count py
tile_at SplitDirection.grid count px py = py / half * 2 + px / half

-- The tile `j` holds the point if and only if it is the tile `tile_at`, which is one of the split.
abbrev pub IsCoveredOnce : SplitDirection → ℕ → ℕ → ℕ → ℕ → Type 0
IsCoveredOnce direction count px py j =
    (tile_at direction count px py < count)
    × (Covers (compute_crop_rect j count direction) px py ↔ (j ≡ tile_at direction count px py))

col_tile :
    (n px py j : ℕ)
    → n < 3
    → px < one
    → py < one
    → j < suc (suc n)
    → IsCoveredOnce SplitDirection.col (suc (suc n)) px py j
unfolding compute_crop_rect
col_tile zero px py j h p q l = (ground arith, ((λ c. ground arith), (λ e. ground arith)))
col_tile (suc zero) px py j h p q l = (ground arith, ((λ c. ground arith), (λ e. ground arith)))
col_tile (suc (suc zero)) px py j h p q l =
    (ground arith, ((λ c. ground arith), (λ e. ground arith)))
col_tile (suc (suc (suc n))) px py j h p q l = absurd (omega arith)

row_tile :
    (n px py j : ℕ)
    → n < 2
    → px < one
    → py < one
    → j < suc (suc n)
    → IsCoveredOnce SplitDirection.row (suc (suc n)) px py j
unfolding compute_crop_rect
row_tile zero px py j h p q l = (ground arith, ((λ c. ground arith), (λ e. ground arith)))
row_tile (suc zero) px py j h p q l = (ground arith, ((λ c. ground arith), (λ e. ground arith)))
row_tile (suc (suc n)) px py j h p q l = absurd (omega arith)

grid_tile :
    (px py j : ℕ) → px < one → py < one → j < 4 → IsCoveredOnce SplitDirection.grid 4 px py j
unfolding compute_crop_rect
grid_tile px py j p q l = (omega arith, ((λ c. omega arith), (λ e. omega arith)))

-- For each direction and each number of tiles that it admits, every point of the frame whose coordinates are counted in
-- the unit of `one` lies in exactly one of the tiles: in the tile `tile_at`, and in no other. Along the
-- axis that is cut, the rest that the rounding of a part leaves belongs to the last tile.
pub tiles_partition :
    (direction : SplitDirection) (count px py j : ℕ)
    → valid_count direction count ≡ true
    → px < one
    → py < one
    → j < count
    → IsCoveredOnce direction count px py j
unfolding valid_count
tiles_partition SplitDirection.none count px py j v p q l = cc
tiles_partition SplitDirection.col zero px py j v p q l = cc
tiles_partition SplitDirection.col (suc zero) px py j v p q l = cc
tiles_partition SplitDirection.col (suc (suc n)) px py j v p q l =
    col_tile n px py j (ground arith) p q l
tiles_partition SplitDirection.row zero px py j v p q l = cc
tiles_partition SplitDirection.row (suc zero) px py j v p q l = cc
tiles_partition SplitDirection.row (suc (suc n)) px py j v p q l =
    row_tile n px py j (ground arith) p q l
tiles_partition SplitDirection.grid count px py j v p q l =
    let four : count ≡ 4 = ground arith in rw four (grid_tile px py j p q (omega arith))
