-- ===== src/Domain/Planner/Refusals.antt =====
-- When planning refuses a request, and with which error.
use jpg_spinner.Prelude.{
  ℕ, ◌-◌, ◌*◌, ◌%◌, ◌≤◌, ◌<◌, ◌≡◌, Option, ◌⊎◌, ◌∙◌, arith, some, none, if◌then◌else◌,
}
use jpg_spinner.Domain.Failure.{
  JpegResourceLimits, ImageProcessingError, pixel_count, success, failure, plain_error, limit_error,
  malformed_jpeg_structure, pixel_count_limit_exceeded, perfect_coefficient_transform_unavailable,
  transform_planning,
}
use jpg_spinner.Domain.Geometry.{
  LosslessTransform, transpose, require_perfect_coefficient_transform,
}
use jpg_spinner.Domain.Orientation.{lossless_transform_for}
use jpg_spinner.Domain.Orientation.Symmetry.{right, bottom, moved}
use jpg_spinner.Domain.Planner.Plans.{is_start, product_fits}
use jpg_spinner.Domain.Planner.{
  JpegTransformRequest, JpegTransformPlan, create_plan, plan_edges, build_plan, u64_modulus,
}

-- Every extent of the request is positive.
pub record HasExtents (r : JpegTransformRequest) : Type 0 where
  pub width : 0 < r.source_dimensions.width
  pub height : 0 < r.source_dimensions.height
  pub imcu_width : 0 < r.source_imcu_dimensions.width
  pub imcu_height : 0 < r.source_imcu_dimensions.height

-- The pixels of a partial block that transform `t` would move to a start edge.
abbrev pub right_loss : JpegTransformRequest → LosslessTransform → ℕ
right_loss r t =
    if is_start (moved t right)
    then r.source_dimensions.width % r.source_imcu_dimensions.width
    else 0

abbrev pub bottom_loss : JpegTransformRequest → LosslessTransform → ℕ
bottom_loss r t =
    if is_start (moved t bottom)
    then r.source_dimensions.height % r.source_imcu_dimensions.height
    else 0

-- The loss is allowed by the policy and leaves something of each axis.
abbrev pub Tolerates : JpegTransformRequest → LosslessTransform → Type 0
Tolerates r t =
    (r.edge_handling_policy ≡ require_perfect_coefficient_transform
      → (right_loss r t ≡ 0) × (bottom_loss r t ≡ 0))
    × (right_loss r t < r.source_dimensions.width)
    × (bottom_loss r t < r.source_dimensions.height)

-- The policy forbids the loss, or it takes a whole axis.
abbrev pub Spoils : JpegTransformRequest → LosslessTransform → Type 0
Spoils r t =
    ((r.edge_handling_policy ≡ require_perfect_coefficient_transform)
      × ((0 < right_loss r t) ⊎ (0 < bottom_loss r t)))
    ⊎ (right_loss r t ≡ r.source_dimensions.width)
    ⊎ (bottom_loss r t ≡ r.source_dimensions.height)

-- Some extent of the request is zero.
abbrev pub LacksExtent : JpegTransformRequest → Type 0
LacksExtent r =
    (r.source_dimensions.width ≡ 0)
    ⊎ (r.source_dimensions.height ≡ 0)
    ⊎ (r.source_imcu_dimensions.width ≡ 0)
    ⊎ (r.source_imcu_dimensions.height ≡ 0)

-- A request with an extent of zero is refused as a malformed structure.
create_plan_malformed :
    (r : JpegTransformRequest) (l : JpegResourceLimits)
    → LacksExtent r
    → create_plan r l ≡ failure (plain_error malformed_jpeg_structure transform_planning)
unfolding create_plan
create_plan_malformed r l z = ground arith

abbrev pub pixel_count_error : JpegResourceLimits → Option ℕ → ImageProcessingError
pixel_count_error l observed = limit_error pixel_count_limit_exceeded transform_planning (record {
  resource_limit = pixel_count;
  observed_value = observed;
  maximum_value = l.maximum_pixel_count;
})

-- With positive extents, a pixel count that does not fit 64 bits is refused with no observed value.
pub create_plan_unrepresentable :
    (r : JpegTransformRequest) (l : JpegResourceLimits)
    → HasExtents r
    → u64_modulus ≤ r.source_dimensions.width * r.source_dimensions.height
    → create_plan r l ≡ failure (pixel_count_error l none)
unfolding create_plan
create_plan_unrepresentable r l x big =
    ground
      (arith, product_fits r.source_dimensions.width r.source_dimensions.height (u64_modulus - 1))

-- With positive extents, a pixel count that fits 64 bits and is above the limit is refused with its
-- exact value.
pub create_plan_above_limit :
    (r : JpegTransformRequest) (l : JpegResourceLimits)
    → HasExtents r
    → r.source_dimensions.width * r.source_dimensions.height < u64_modulus
    → l.maximum_pixel_count < r.source_dimensions.width * r.source_dimensions.height
    → create_plan r l
      ≡ failure
          (pixel_count_error l (some (r.source_dimensions.width * r.source_dimensions.height)))
unfolding create_plan
create_plan_above_limit r l x small above =
    ground
      (arith, product_fits r.source_dimensions.width r.source_dimensions.height (u64_modulus - 1))

create_plan-plan_edges :
    (r : JpegTransformRequest) (l : JpegResourceLimits)
    → HasExtents r
    → r.source_dimensions.width * r.source_dimensions.height < u64_modulus
    → r.source_dimensions.width * r.source_dimensions.height ≤ l.maximum_pixel_count
    → create_plan r l ≡ plan_edges r (lossless_transform_for r.source_orientation)
unfolding create_plan
create_plan-plan_edges r l x small within =
    ground
      (arith, product_fits r.source_dimensions.width r.source_dimensions.height (u64_modulus - 1))

plan_edges_available :
    (t : LosslessTransform) (r : JpegTransformRequest)
    → Tolerates r t
    → plan_edges r t ≡ success (build_plan r t (right_loss r t) (bottom_loss r t))
unfolding plan_edges
plan_edges_available transpose r a = ground arith
plan_edges_available _ r a = ground arith

plan_edges_unavailable :
    (t : LosslessTransform) (r : JpegTransformRequest)
    → Spoils r t
    → plan_edges r t
      ≡ failure (plain_error perfect_coefficient_transform_unavailable transform_planning)
unfolding plan_edges
plan_edges_unavailable transpose r a = ground arith
plan_edges_unavailable _ r a = ground arith

-- With positive extents and a pixel count within the limit, planning succeeds where the partial
-- blocks that would be moved to a start edge are tolerable.
pub create_plan_available :
    (r : JpegTransformRequest) (l : JpegResourceLimits)
    → HasExtents r
    → r.source_dimensions.width * r.source_dimensions.height < u64_modulus
    → r.source_dimensions.width * r.source_dimensions.height ≤ l.maximum_pixel_count
    → Tolerates r (lossless_transform_for r.source_orientation)
    → (p : JpegTransformPlan) × (create_plan r l ≡ success p)
create_plan_available r l x small within a =
    let t = lossless_transform_for r.source_orientation in
    (
      build_plan r t (right_loss r t) (bottom_loss r t),
      create_plan-plan_edges r l x small within ∙ plan_edges_available t r a,
    )

-- With positive extents and a pixel count within the limit, planning refuses the transform as
-- unavailable where the policy forbids the partial blocks that would be moved to a start edge, or
-- where they take a whole axis.
pub create_plan_unavailable :
    (r : JpegTransformRequest) (l : JpegResourceLimits)
    → HasExtents r
    → r.source_dimensions.width * r.source_dimensions.height < u64_modulus
    → r.source_dimensions.width * r.source_dimensions.height ≤ l.maximum_pixel_count
    → Spoils r (lossless_transform_for r.source_orientation)
    → create_plan r l
      ≡ failure (plain_error perfect_coefficient_transform_unavailable transform_planning)
create_plan_unavailable r l x small within s =
    create_plan-plan_edges r l x small within
    ∙ plan_edges_unavailable (lossless_transform_for r.source_orientation) r s
