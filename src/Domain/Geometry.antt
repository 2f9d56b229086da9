-- ===== src/Domain/Geometry.antt =====
-- ImageDimensions.h, JpegFrameProperties.h and the three policy enumerations. Extents are 64-bit
-- values; the strong types PixelWidth and PixelHeight are the fields `width` and `height`.
use jpg_spinner.Prelude.{ℕ, Bool, true, false}

pub record ImageDimensions : Type 0 where
  pub width : ℕ
  pub height : ℕ

pub record InterleavedMinimumCodedUnitDimensions : Type 0 where
  pub width : ℕ
  pub height : ℕ

pub record DiscardedSourceEdgePixels : Type 0 where
  pub right_edge_width : ℕ
  pub bottom_edge_height : ℕ

pub data JpegCodingProcess : Type 0 where
  baseline_dct_huffman extended_sequential_dct_huffman progressive_dct_huffman : JpegCodingProcess
  extended_sequential_dct_arithmetic progressive_dct_arithmetic : JpegCodingProcess

pub record JpegComponentDescription : Type 0 where
  pub component_identifier : ℕ
  pub horizontal_sampling_factor : ℕ
  pub vertical_sampling_factor : ℕ
  pub quantization_table_selector : ℕ

pub data LosslessTransform : Type 0 where
  none flip_horizontal rotate_180 flip_vertical : LosslessTransform
  transpose rotate_90_clockwise transverse rotate_270_clockwise : LosslessTransform

pub data EdgeHandlingPolicy : Type 0 where
  require_perfect_coefficient_transform trim_partial_minimum_coded_units : EdgeHandlingPolicy

pub data OutputScanOrganization : Type 0 where
  preserve_source sequential_dct progressive_dct : OutputScanOrganization

-- The comparison of a plan's transform with `LosslessTransform::None`.
abbrev pub is_identity : LosslessTransform → Bool
is_identity LosslessTransform.none = true
is_identity _ = false
