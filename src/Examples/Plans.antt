-- ===== src/Examples/Plans.antt =====
-- Plans of small images.
use jpg_spinner.Prelude.{ℕ, ◌<◌, ◌≡◌, ◌↔◌, refl, inl, inr, some, none, arith}
use jpg_spinner.Domain.Failure.{
  production, success, failure, plain_error, perfect_coefficient_transform_unavailable,
  transform_planning,
}
use jpg_spinner.Domain.Geometry.{
  rotate_90_clockwise, EdgeHandlingPolicy, require_perfect_coefficient_transform,
  trim_partial_minimum_coded_units, preserve_source,
}
use jpg_spinner.Domain.Orientation.Symmetry.{
  top, right, bottom, left, moved, row_side, column_side, lossless_transform_for-upright,
  lossless_transform_for_unique, try_parse_iff,
}
use jpg_spinner.Domain.Orientation.{
  right_top, raw_value, try_parse_exif_orientation, lossless_transform_for,
}
use jpg_spinner.Domain.Planner.Plans.{
  is_start, is_vertical, IsPlanFor, affected_source_edges_for-moved, create_plan-IsPlanFor,
}
use jpg_spinner.Domain.Planner.Refusals.{
  HasExtents, pixel_count_error, create_plan_unrepresentable, create_plan_above_limit,
  create_plan_available, create_plan_unavailable,
}
use jpg_spinner.Domain.Planner.{
  JpegTransformRequest, JpegTransformPlan, create_plan, plan_edges, build_plan,
  affected_source_edges_for, swaps_axes,
}

-- An image that is to be turned by a quarter, with blocks of 16 by 8 pixels.
abbrev request : ℕ → ℕ → EdgeHandlingPolicy → JpegTransformRequest
request width height policy = record {
  source_orientation = right_top;
  source_dimensions = record { width = width; height = height };
  source_imcu_dimensions = record { width = 16; height = 8 };
  edge_handling_policy = policy;
  output_scan_organization = preserve_source;
}

request-HasExtents : (w h : ℕ) (p : EdgeHandlingPolicy) → 0 < w → 0 < h → HasExtents (request w h p)
request-HasExtents w h p a b = record {
  width = a;
  height = b;
  imcu_width = omega arith;
  imcu_height = omega arith;
}

-- 40 by 21 pixels: five rows are trimmed, and the axes are swapped.
abbrev trimmed : JpegTransformPlan
trimmed = record {
  transform = rotate_90_clockwise;
  source_dimensions = record { width = 40; height = 21 };
  output_dimensions = record { width = 16; height = 40 };
  edge_handling_policy = trim_partial_minimum_coded_units;
  output_scan_organization = preserve_source;
  source_imcu_dimensions = record { width = 16; height = 8 };
  discarded_source_edge_pixels = record { right_edge_width = 0; bottom_edge_height = 5 };
}

planned : create_plan (request 40 21 trim_partial_minimum_coded_units) production ≡ success trimmed
unfolding create_plan plan_edges build_plan affected_source_edges_for swaps_axes
    lossless_transform_for
planned = refl

create_plan-IsPlanFor_example :
    IsPlanFor (request 40 21 trim_partial_minimum_coded_units) 268435456 trimmed
create_plan-IsPlanFor_example =
    create_plan-IsPlanFor (request 40 21 trim_partial_minimum_coded_units) production trimmed
      planned

create_plan_available_example :
    (p : JpegTransformPlan) × (create_plan
        (request 40 24 require_perfect_coefficient_transform)
        production
      ≡ success p)
unfolding lossless_transform_for
create_plan_available_example =
    create_plan_available (request 40 24 require_perfect_coefficient_transform) production
      (request-HasExtents 40 24 require_perfect_coefficient_transform (omega arith) (omega arith))
      (omega arith) (omega arith) (λ _. (omega arith, omega arith), omega arith, omega arith)

create_plan_unavailable_example :
    create_plan (request 40 21 require_perfect_coefficient_transform) production
    ≡ failure (plain_error perfect_coefficient_transform_unavailable transform_planning)
unfolding lossless_transform_for
create_plan_unavailable_example =
    create_plan_unavailable (request 40 21 require_perfect_coefficient_transform) production
      (request-HasExtents 40 21 require_perfect_coefficient_transform (omega arith) (omega arith))
      (omega arith) (omega arith) (inl (refl, inr (omega arith)))

create_plan_unrepresentable_example :
    create_plan (request 4294967296 4294967296 trim_partial_minimum_coded_units) production
    ≡ failure (pixel_count_error production none)
create_plan_unrepresentable_example =
    create_plan_unrepresentable (request 4294967296 4294967296 trim_partial_minimum_coded_units)
      production
      (request-HasExtents 4294967296 4294967296 trim_partial_minimum_coded_units (omega arith)
        (omega arith))
      (omega arith)

create_plan_above_limit_example :
    create_plan (request 65535 65535 trim_partial_minimum_coded_units) production
    ≡ failure (pixel_count_error production (some 4294836225))
create_plan_above_limit_example =
    create_plan_above_limit (request 65535 65535 trim_partial_minimum_coded_units) production
      (request-HasExtents 65535 65535 trim_partial_minimum_coded_units (omega arith) (omega arith))
      (omega arith) (omega arith)

affected_source_edges_for-moved_example :
    ((affected_source_edges_for rotate_90_clockwise).affects_right_edge
      ≡ is_start (moved rotate_90_clockwise right))
    × ((affected_source_edges_for rotate_90_clockwise).affects_bottom_edge
        ≡ is_start (moved rotate_90_clockwise bottom))
    × (swaps_axes rotate_90_clockwise ≡ is_vertical (moved rotate_90_clockwise top))
affected_source_edges_for-moved_example = affected_source_edges_for-moved rotate_90_clockwise

lossless_transform_for-upright_example :
    (moved (lossless_transform_for right_top) top ≡ row_side right_top)
    × (moved (lossless_transform_for right_top) left ≡ column_side right_top)
lossless_transform_for-upright_example = lossless_transform_for-upright right_top

lossless_transform_for_unique_example : rotate_90_clockwise ≡ lossless_transform_for right_top
unfolding lossless_transform_for
lossless_transform_for_unique_example =
    lossless_transform_for_unique right_top rotate_90_clockwise refl refl

try_parse_iff_example : (try_parse_exif_orientation 6 ≡ some right_top) ↔ (raw_value right_top ≡ 6)
try_parse_iff_example = try_parse_iff 6 right_top
