-- ===== src/Domain/Planner/Plans.antt =====
-- What a plan promises.
use jpg_spinner.Prelude.{
  ℕ, ◌+◌, ◌*◌, ◌%◌, ◌/◌, ◌-◌, ◌≤◌, ◌<◌, ◌≡◌, ◌⊎◌, refl, Bool, true, false, arith, if◌then◌else◌,
}
use jpg_spinner.Domain.Failure.{JpegResourceLimits, success}
use jpg_spinner.Domain.Geometry.{LosslessTransform, transpose, trim_partial_minimum_coded_units}
use jpg_spinner.Domain.Orientation.{lossless_transform_for}
use jpg_spinner.Domain.Orientation.Symmetry.{Side, top, right, bottom, left, moved}
use jpg_spinner.Domain.Planner.{
  JpegTransformRequest, JpegTransformPlan, affected_source_edges_for, swaps_axes, create_plan,
  plan_edges, u64_modulus, is_perfect_transform_available,
}

-- Blocks are counted from the top and from the left, so a partial block there is out of place.
abbrev pub is_start : Side → Bool
is_start top = true
is_start left = true
is_start right = false
is_start bottom = false

abbrev pub is_vertical : Side → Bool
is_vertical left = true
is_vertical right = true
is_vertical top = false
is_vertical bottom = false

-- The right or bottom edge is affected exactly when the motion of the picture carries it to the
-- top or the left, and the axes are swapped exactly when it carries the top to a vertical side.
pub affected_source_edges_for-moved :
    (t : LosslessTransform)
    → ((affected_source_edges_for t).affects_right_edge ≡ is_start (moved t right))
      × ((affected_source_edges_for t).affects_bottom_edge ≡ is_start (moved t bottom))
      × (swaps_axes t ≡ is_vertical (moved t top))
unfolding affected_source_edges_for swaps_axes
affected_source_edges_for-moved transpose = (refl, refl, refl)
affected_source_edges_for-moved _ = (refl, refl, refl)

-- The plan that a request deserves, said of the motion of the sides.
pub record IsPlanFor (r : JpegTransformRequest) (maximum : ℕ) (p : JpegTransformPlan) : Type 0 where
  pub transform_is : p.transform ≡ lossless_transform_for r.source_orientation
  pub source_kept : p.source_dimensions ≡ r.source_dimensions
  pub policy_kept : p.edge_handling_policy ≡ r.edge_handling_policy
  pub organization_kept : p.output_scan_organization ≡ r.output_scan_organization
  pub imcu_kept : p.source_imcu_dimensions ≡ r.source_imcu_dimensions
  pub bounded : r.source_dimensions.width * r.source_dimensions.height ≤ maximum
  pub right_edge : p.discarded_source_edge_pixels.right_edge_width ≡ (
      if is_start (moved p.transform right)
      then r.source_dimensions.width % r.source_imcu_dimensions.width
      else 0)
  pub bottom_edge : p.discarded_source_edge_pixels.bottom_edge_height ≡ (
      if is_start (moved p.transform bottom)
      then r.source_dimensions.height % r.source_imcu_dimensions.height
      else 0)
  pub output_width :
      (if is_vertical (moved p.transform top)
          then p.output_dimensions.height
          else p.output_dimensions.width)
        + p.discarded_source_edge_pixels.right_edge_width
      ≡ r.source_dimensions.width
  pub output_height :
      (if is_vertical (moved p.transform top)
          then p.output_dimensions.width
          else p.output_dimensions.height)
        + p.discarded_source_edge_pixels.bottom_edge_height
      ≡ r.source_dimensions.height
  pub output_positive : (0 < p.output_dimensions.width) × (0 < p.output_dimensions.height)
  pub perfect :
      (r.edge_handling_policy ≡ trim_partial_minimum_coded_units)
      ⊎ (is_perfect_transform_available p ≡ true)

-- The guard by a division is the question whether the product fits 64 bits.
pub product_fits : (w h m : ℕ) → 0 < h → (w ≤ m / h → w * h ≤ m) × (m / h < w → m < w * h)
product_fits w h m p = (λ q. grind arith, λ q. grind arith)

plan_edges-IsPlanFor :
    (t : LosslessTransform) (r : JpegTransformRequest) (m : ℕ) (p : JpegTransformPlan)
    → t ≡ lossless_transform_for r.source_orientation
    → 0 < r.source_dimensions.width
    → 0 < r.source_dimensions.height
    → r.source_dimensions.width * r.source_dimensions.height ≤ m
    → plan_edges r t ≡ success p
    → IsPlanFor r m p
unfolding plan_edges is_perfect_transform_available
plan_edges-IsPlanFor transpose r m p e w h b q = ground arith
plan_edges-IsPlanFor _ r m p e w h b q = ground arith

-- What a request has been through whose planning returned a plan.
create_plan_run :
    (r : JpegTransformRequest) (l : JpegResourceLimits) (p : JpegTransformPlan)
    → create_plan r l ≡ success p
    → (0 < r.source_dimensions.width)
      × (0 < r.source_dimensions.height)
      × (r.source_dimensions.width * r.source_dimensions.height ≤ l.maximum_pixel_count)
      × (plan_edges r (lossless_transform_for r.source_orientation) ≡ success p)
unfolding create_plan
create_plan_run r l p h =
    ground
      (arith, product_fits r.source_dimensions.width r.source_dimensions.height (u64_modulus - 1))

-- Every plan that planning returns for a request has the transform of its orientation, trims from
-- the right and the bottom exactly the partial blocks that the transform would move to a start
-- edge, has as its output what is left with the axes swapped where the transform turns them,
-- positive and within the pixel limit at the source, and trims nothing unless the policy is to
-- trim.
pub create_plan-IsPlanFor :
    (r : JpegTransformRequest) (l : JpegResourceLimits) (p : JpegTransformPlan)
    → create_plan r l ≡ success p
    → IsPlanFor r l.maximum_pixel_count p
create_plan-IsPlanFor r l p h =
    let (w, t, bound, run) = create_plan_run r l p h in
    plan_edges-IsPlanFor (lossless_transform_for r.source_orientation) r l.maximum_pixel_count p
      refl w t bound run
