-- ===== src/Domain/Orientation/Symmetry.antt =====
-- What the transforms do to the sides of an image. TurboJPEG's operations are named for the motion
-- of the picture, and an Exif orientation is named for the display sides at which the stored image's
-- 0th row and 0th column belong.
use jpg_spinner.Prelude.{ℕ, ◌≡◌, refl, ◌↔◌, some, arith}
use jpg_spinner.Domain.Geometry.{
  LosslessTransform, flip_horizontal, rotate_180, flip_vertical, transpose, rotate_90_clockwise,
  transverse, rotate_270_clockwise,
}
use jpg_spinner.Domain.Orientation.{
  ExifOrientation, top_left, top_right, bottom_right, bottom_left, left_top, right_top,
  right_bottom, left_bottom, raw_value, try_parse_exif_orientation, lossless_transform_for,
}

pub data Side : Type 0 where
  top right bottom left : Side

-- Where a side of the picture lies after the motion.
abbrev pub moved : LosslessTransform → Side → Side
moved LosslessTransform.none s = s
moved flip_horizontal s = elim s [ top ↦ top | right ↦ left | bottom ↦ bottom | left ↦ right ]
moved flip_vertical s = elim s [ top ↦ bottom | right ↦ right | bottom ↦ top | left ↦ left ]
moved rotate_180 s = elim s [ top ↦ bottom | right ↦ left | bottom ↦ top | left ↦ right ]
moved rotate_90_clockwise s = elim s [ top ↦ right | right ↦ bottom | bottom ↦ left | left ↦ top ]
moved rotate_270_clockwise s = elim s [ top ↦ left | right ↦ top | bottom ↦ right | left ↦ bottom ]
-- About the main diagonal, and about the other one.
moved transpose s = elim s [ top ↦ left | right ↦ bottom | bottom ↦ right | left ↦ top ]
moved transverse s = elim s [ top ↦ right | right ↦ top | bottom ↦ left | left ↦ bottom ]

-- The two words of an enumerator's name.
abbrev pub row_side : ExifOrientation → Side
row_side top_left = top
row_side top_right = top
row_side bottom_right = bottom
row_side bottom_left = bottom
row_side left_top = left
row_side right_top = right
row_side right_bottom = right
row_side left_bottom = left

abbrev pub column_side : ExifOrientation → Side
column_side top_left = left
column_side top_right = right
column_side bottom_right = right
column_side bottom_left = left
column_side left_top = top
column_side right_top = top
column_side right_bottom = bottom
column_side left_bottom = bottom

-- The chosen transform carries the stored image's first row and first column to the display sides
-- that the orientation names.
pub lossless_transform_for-upright :
    (o : ExifOrientation)
    → (moved (lossless_transform_for o) top ≡ row_side o)
      × (moved (lossless_transform_for o) left ≡ column_side o)
unfolding lossless_transform_for
lossless_transform_for-upright top_left = (refl, refl)
lossless_transform_for-upright _ = (refl, refl)

-- A transform that carries the stored image's first row and first column to the display sides that
-- the orientation names is the chosen one.
pub lossless_transform_for_unique :
    (o : ExifOrientation) (t : LosslessTransform)
    → moved t top ≡ row_side o
    → moved t left ≡ column_side o
    → t ≡ lossless_transform_for o
unfolding lossless_transform_for
lossless_transform_for_unique o t r c = ground arith

-- A raw value is accepted exactly when it is the encoding of an orientation, and then is read as
-- that one.
pub try_parse_iff :
    (raw : ℕ) (o : ExifOrientation)
    → (try_parse_exif_orientation raw ≡ some o) ↔ (raw_value o ≡ raw)
unfolding try_parse_exif_orientation raw_value
try_parse_iff raw o = (λ h. ground arith, λ h. ground arith)
