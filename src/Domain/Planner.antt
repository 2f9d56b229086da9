-- ===== src/Domain/Planner.antt =====
-- JpegTransformRequest.h, JpegTransformPlan.h and JpegTransformPlanner.cpp: pure transform planning.
-- A `std::terminate` behind a switch over a closed enumeration has no counterpart here.
pub mod Plans
pub mod Refusals
use jpg_spinner.Prelude.{
  ℕ, ◌-◌, ◌*◌, ◌/◌, ◌%◌, ◌^◌, Bool, true, false, not, ◌&&◌, ◌||◌, Option, none, some, ltb, ◌==◌,
  if◌then◌else◌,
}
use jpg_spinner.Domain.Failure.{
  JpegResourceLimits, pixel_count, ImageProcessingResult, success, failure, plain_error,
  limit_error, malformed_jpeg_structure, pixel_count_limit_exceeded,
  perfect_coefficient_transform_unavailable, transform_planning,
}
use jpg_spinner.Domain.Geometry.{
  ImageDimensions, InterleavedMinimumCodedUnitDimensions, DiscardedSourceEdgePixels,
  LosslessTransform, flip_horizontal, rotate_180, flip_vertical, transpose, rotate_90_clockwise,
  transverse, rotate_270_clockwise, EdgeHandlingPolicy, require_perfect_coefficient_transform,
  trim_partial_minimum_coded_units, OutputScanOrganization,
}
use jpg_spinner.Domain.Orientation.{ExifOrientation, lossless_transform_for}

pub record JpegTransformRequest : Type 0 where
  pub source_orientation : ExifOrientation
  pub source_dimensions : ImageDimensions
  pub source_imcu_dimensions : InterleavedMinimumCodedUnitDimensions
  pub edge_handling_policy : EdgeHandlingPolicy
  pub output_scan_organization : OutputScanOrganization

pub record JpegTransformPlan : Type 0 where
  pub transform : LosslessTransform
  pub source_dimensions : ImageDimensions
  pub output_dimensions : ImageDimensions
  pub edge_handling_policy : EdgeHandlingPolicy
  pub output_scan_organization : OutputScanOrganization
  pub source_imcu_dimensions : InterleavedMinimumCodedUnitDimensions
  pub discarded_source_edge_pixels : DiscardedSourceEdgePixels

pub will_discard_edge_pixels : JpegTransformPlan → Bool
will_discard_edge_pixels p =
    not (p.discarded_source_edge_pixels.right_edge_width == 0)
    || not (p.discarded_source_edge_pixels.bottom_edge_height == 0)

pub is_perfect_transform_available : JpegTransformPlan → Bool
unfolding will_discard_edge_pixels
is_perfect_transform_available p = not (will_discard_edge_pixels p)

pub record AffectedSourceEdges : Type 0 where
  pub affects_right_edge : Bool
  pub affects_bottom_edge : Bool

abbrev edges : Bool → Bool → AffectedSourceEdges
edges r b = record { affects_right_edge = r; affects_bottom_edge = b }

unfoldable pub affected_source_edges_for : LosslessTransform → AffectedSourceEdges
affected_source_edges_for LosslessTransform.none = edges false false
affected_source_edges_for transpose = edges false false
affected_source_edges_for flip_horizontal = edges true false
affected_source_edges_for rotate_270_clockwise = edges true false
affected_source_edges_for flip_vertical = edges false true
affected_source_edges_for rotate_90_clockwise = edges false true
affected_source_edges_for rotate_180 = edges true true
affected_source_edges_for transverse = edges true true

unfoldable pub swaps_axes : LosslessTransform → Bool
swaps_axes transpose = true
swaps_axes rotate_90_clockwise = true
swaps_axes transverse = true
swaps_axes rotate_270_clockwise = true
swaps_axes LosslessTransform.none = false
swaps_axes flip_horizontal = false
swaps_axes rotate_180 = false
swaps_axes flip_vertical = false

pub malformed_geometry_error : ImageProcessingResult JpegTransformPlan
malformed_geometry_error = failure (plain_error malformed_jpeg_structure transform_planning)

pub pixel_count_limit_error : Option ℕ → ℕ → ImageProcessingResult JpegTransformPlan
pixel_count_limit_error observed maximum = failure (
    limit_error pixel_count_limit_exceeded transform_planning
      (record { resource_limit = pixel_count; observed_value = observed; maximum_value = maximum }))

pub perfect_transform_unavailable_error : ImageProcessingResult JpegTransformPlan
perfect_transform_unavailable_error =
    failure (plain_error perfect_coefficient_transform_unavailable transform_planning)

abbrev is_perfect : EdgeHandlingPolicy → Bool
is_perfect require_perfect_coefficient_transform = true
is_perfect trim_partial_minimum_coded_units = false

-- The first half of the result: what the edges lose, and what is left.
unfoldable pub build_plan : JpegTransformRequest → LosslessTransform → ℕ → ℕ → JpegTransformPlan
build_plan request transform right bottom = record {
  transform = transform;
  source_dimensions = request.source_dimensions;
  output_dimensions =
      if swaps_axes transform
      then record { width = retained.height; height = retained.width }
      else retained;
  edge_handling_policy = request.edge_handling_policy;
  output_scan_organization = request.output_scan_organization;
  source_imcu_dimensions = request.source_imcu_dimensions;
  discarded_source_edge_pixels = record { right_edge_width = right; bottom_edge_height = bottom };
}
  where
    retained : ImageDimensions
    retained = record {
      width = request.source_dimensions.width - right;
      height = request.source_dimensions.height - bottom;
    }

-- The part of createPlan behind the pixel-count checks.
unfoldable pub plan_edges :
    JpegTransformRequest → LosslessTransform → ImageProcessingResult JpegTransformPlan
unfolding affected_source_edges_for swaps_axes build_plan perfect_transform_unavailable_error
plan_edges request transform =
    if (not (right == 0) || not (bottom == 0)) && is_perfect request.edge_handling_policy
    then perfect_transform_unavailable_error
    else if right == request.source_dimensions.width || bottom == request.source_dimensions.height
    then perfect_transform_unavailable_error
    else success (build_plan request transform right bottom)
  where
    right : ℕ
    right =
        if (affected_source_edges_for transform).affects_right_edge
        then request.source_dimensions.width % request.source_imcu_dimensions.width
        else 0

    bottom : ℕ
    bottom =
        if (affected_source_edges_for transform).affects_bottom_edge
        then request.source_dimensions.height % request.source_imcu_dimensions.height
        else 0

abbrev pub u64_modulus : ℕ
u64_modulus = 2 ^ 64

unfoldable pub create_plan :
    JpegTransformRequest → JpegResourceLimits → ImageProcessingResult JpegTransformPlan
unfolding malformed_geometry_error pixel_count_limit_error
create_plan request limits =
    let w = request.source_dimensions.width in
    let h = request.source_dimensions.height in
    let pixels = w * h % u64_modulus in
    if w == 0
      || h == 0
      || request.source_imcu_dimensions.width == 0
      || request.source_imcu_dimensions.height == 0
    then malformed_geometry_error
    else if ltb ((u64_modulus - 1) / h) w
    then pixel_count_limit_error none limits.maximum_pixel_count
    else if ltb limits.maximum_pixel_count pixels
    then pixel_count_limit_error (some pixels) limits.maximum_pixel_count
    else plan_edges request (lossless_transform_for request.source_orientation)
