-- ===== src/Domain/Orientation.antt =====
-- ExifOrientation.h and ExifOrientation.cpp: the raw Exif values, and the transform that makes an
-- image upright.
pub mod Symmetry
use jpg_spinner.Prelude.{ℕ, Option, none, some, ◌==◌, if◌then◌else◌}
use jpg_spinner.Domain.Geometry.{LosslessTransform}

pub data ExifOrientation : Type 0 where
  top_left top_right bottom_right bottom_left : ExifOrientation
  left_top right_top right_bottom left_bottom : ExifOrientation

-- The enumerators' underlying values.
pub raw_value : ExifOrientation → ℕ
raw_value top_left = 1
raw_value top_right = 2
raw_value bottom_right = 3
raw_value bottom_left = 4
raw_value left_top = 5
raw_value right_top = 6
raw_value right_bottom = 7
raw_value left_bottom = 8

pub try_parse_exif_orientation : ℕ → Option ExifOrientation
try_parse_exif_orientation raw =
    if raw == 1
    then some top_left
    else if raw == 2
    then some top_right
    else if raw == 3
    then some bottom_right
    else if raw == 4
    then some bottom_left
    else if raw == 5
    then some left_top
    else if raw == 6
    then some right_top
    else if raw == 7
    then some right_bottom
    else if raw == 8
    then some left_bottom
    else none

unfoldable pub lossless_transform_for : ExifOrientation → LosslessTransform
lossless_transform_for top_left = LosslessTransform.none
lossless_transform_for top_right = LosslessTransform.flip_horizontal
lossless_transform_for bottom_right = LosslessTransform.rotate_180
lossless_transform_for bottom_left = LosslessTransform.flip_vertical
lossless_transform_for left_top = LosslessTransform.transpose
lossless_transform_for right_top = LosslessTransform.rotate_90_clockwise
lossless_transform_for right_bottom = LosslessTransform.transverse
lossless_transform_for left_bottom = LosslessTransform.rotate_270_clockwise
