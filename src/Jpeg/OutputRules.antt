-- ===== src/Jpeg/OutputRules.antt =====
-- The rules of JpegOutputValidator::validate about the frame and the quantization tables, and the bytes of its evidence.
use jpg_spinner.Jpeg.Output.{is_arithmetic, QuantizationTable}
use jpg_spinner.Domain.Failure.{
  ImageProcessingErrorCode, JpegOutputValidationRule, complete_jpeg_structure, planned_dimensions,
  sample_precision, component_organization, scan_organization, entropy_coding_mode,
  no_unsupported_asset_bindings, multi_picture_jpeg_not_supported,
  content_credentials_would_be_invalidated, unsupported_jumbf_metadata,
}
use jpg_spinner.Domain.Geometry.{
  is_identity, JpegCodingProcess, JpegComponentDescription, OutputScanOrganization, preserve_source,
  sequential_dct, progressive_dct,
}
use jpg_spinner.Domain.Planner.{JpegTransformPlan, swaps_axes}
use jpg_spinner.Jpeg.Bytes.{Bytes, copy_n}
use jpg_spinner.Jpeg.Inventory.{JpegMarkerReference, IccProfileChunkReference, JpegFrameHeader}
use jpg_spinner.Jpeg.Markers.{is_progressive_coding_process}
use jpg_spinner.Jpeg.Outcome.{Outcome, success, ◌>>=◌}
use jpg_spinner.Prelude.{
  is_same_flag, ℕ, zero, suc, ◌+◌, ◌*◌, ◌%◌, ◌^◌, Bool, true, false, not, ◌&&◌, ◌||◌, Option, none,
  some, List, [], ◌∷◌, ◌++◌, length, leb, ◌==◌, if◌then◌else◌,
}

unfoldable pub is_same_component : JpegComponentDescription → JpegComponentDescription → Bool
is_same_component a b =
    a.component_identifier == b.component_identifier
    && a.horizontal_sampling_factor == b.horizontal_sampling_factor
    && a.vertical_sampling_factor == b.vertical_sampling_factor
    && a.quantization_table_selector == b.quantization_table_selector

unfoldable pub is_same_components :
    List JpegComponentDescription → List JpegComponentDescription → Bool
is_same_components [] [] = true
is_same_components (a ∷ xs) (b ∷ ys) = is_same_component a b && is_same_components xs ys
is_same_components _ _ = false

-- The source's component as the transform leaves it, of how many.
abbrev pub expected_component : ℕ → Bool → JpegComponentDescription → JpegComponentDescription
expected_component count exchanges_axes c =
    let normal = count == 1 in
    record c {
      horizontal_sampling_factor =
          if normal
          then 1
          else if exchanges_axes
          then c.vertical_sampling_factor
          else c.horizontal_sampling_factor;
      vertical_sampling_factor =
          if normal
          then 1
          else if exchanges_axes
          then c.horizontal_sampling_factor
          else c.vertical_sampling_factor;
    }

abbrev pub expected_components :
    ℕ → Bool → List JpegComponentDescription → List JpegComponentDescription
expected_components count exchanges_axes [] = []
expected_components count exchanges_axes (c ∷ cs) =
    expected_component count exchanges_axes c ∷ expected_components count exchanges_axes cs

abbrev pub is_progressive_planned : OutputScanOrganization → JpegCodingProcess → Bool
is_progressive_planned progressive_dct process = true
is_progressive_planned preserve_source process = is_progressive_coding_process process
is_progressive_planned sequential_dct process = false

-- The rules about the frame, in the order of the code: the first one that the output breaks.
unfoldable pub broken_frame_rule :
    JpegTransformPlan → JpegFrameHeader → JpegFrameHeader → Option JpegOutputValidationRule
broken_frame_rule plan source frame =
    let count = length source.components in
    if not (
      frame.dimensions.width == plan.output_dimensions.width
      && frame.dimensions.height == plan.output_dimensions.height)
    then some planned_dimensions
    else if not (frame.sample_precision_bits == source.sample_precision_bits)
    then some sample_precision
    else if not (
          is_same_components frame.components
            (expected_components count (swaps_axes plan.transform) source.components))
        && not (
            count == 1
            && is_identity plan.transform
            && is_same_components frame.components source.components)
    then some component_organization
    else if not (
        is_same_flag (is_progressive_coding_process frame.coding_process)
          (is_progressive_planned plan.output_scan_organization source.coding_process))
    then some scan_organization
    else if not
        (is_same_flag (is_arithmetic frame.coding_process) (is_arithmetic source.coding_process))
    then some entropy_coding_mode
    else none

-- The rule that an error of the scan of the output breaks.
unfoldable pub rule_of_scan_error : ImageProcessingErrorCode → JpegOutputValidationRule
rule_of_scan_error multi_picture_jpeg_not_supported = no_unsupported_asset_bindings
rule_of_scan_error content_credentials_would_be_invalidated = no_unsupported_asset_bindings
rule_of_scan_error unsupported_jumbf_metadata = no_unsupported_asset_bindings
rule_of_scan_error _ = complete_jpeg_structure

abbrev pub is_same_interval : Option ℕ → Option ℕ → Bool
is_same_interval (some a) (some b) = a == b
is_same_interval _ _ = false

-- `for (index < n)`, in any order.
abbrev pub all_below : ℕ → (ℕ → Bool) → Bool
all_below zero p = true
all_below (suc n) p = p n && all_below n p

-- The entry of the source's table that the output's entry has to repeat.
abbrev pub source_index : Bool → ℕ → ℕ → ℕ
source_index exchanges_axes vertical horizontal =
    if exchanges_axes then horizontal * 8 + vertical else vertical * 8 + horizontal

unfoldable pub is_same_table : Bool → QuantizationTable → QuantizationTable → Bool
is_same_table exchanges_axes source output = all_below 8 λ vertical. all_below 8 λ horizontal.
    source (source_index exchanges_axes vertical horizontal) == output (vertical * 8 + horizontal)

unfoldable pub is_same_tables : Bool → List QuantizationTable → List QuantizationTable → Bool
is_same_tables exchanges_axes [] [] = true
is_same_tables exchanges_axes (a ∷ xs) (b ∷ ys) =
    is_same_table exchanges_axes a b && is_same_tables exchanges_axes xs ys
is_same_tables exchanges_axes _ _ = false

abbrev pub is_evidence_marker : ℕ → Bool
is_evidence_marker code = leb 0xE0 code && leb code 0xEF || code == 0xFE

-- The encoded metadata markers of the output, and the logical profile.
unfoldable pub metadata_bytes : Bytes → List JpegMarkerReference → Outcome Bytes
metadata_bytes output [] = success []
metadata_bytes output (marker ∷ markers) =
    let rest = metadata_bytes output markers in
    if is_evidence_marker marker.marker_code
    then (copy_n output marker.encoded_range.offset_bytes marker.encoded_range.length_bytes >>= λ b.
        rest >>= λ bs. success (b ++ bs))
    else rest

unfoldable pub metadata_marker_count : List JpegMarkerReference → ℕ
metadata_marker_count [] = 0
metadata_marker_count (marker ∷ markers) =
    let rest = metadata_marker_count markers in
    if is_evidence_marker marker.marker_code then (rest + 1) % 2 ^ 32 else rest

unfoldable pub profile_bytes : Bytes → List IccProfileChunkReference → Outcome Bytes
profile_bytes output [] = success []
profile_bytes output (chunk ∷ chunks) =
    copy_n output chunk.profile_data_range.offset_bytes chunk.profile_data_range.length_bytes
    >>= λ b. profile_bytes output chunks >>= λ bs. success (b ++ bs)
