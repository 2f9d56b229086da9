-- ===== src/Jpeg/Validator.antt =====
-- JpegOutputValidator::validate, in the order of the code.
pub mod Frame
pub mod Tables
pub mod Parts
pub mod Approved
use jpg_spinner.Jpeg.OutputRules.{
  is_same_interval, broken_frame_rule, rule_of_scan_error, is_same_tables, metadata_bytes,
  metadata_marker_count, profile_bytes,
}
use jpg_spinner.Jpeg.Output.{
  reject, cancel, constant_restart_interval, QuantizationTable, DecodeOutcome, complete, failed,
  cancelled_decode, JpegOutputMetadataEvidence, ValidatedJpegOutput, Readers, StopRequests,
}
use jpg_spinner.Domain.Failure.{
  ImageProcessingError, ImageProcessingErrorCode, ImageProcessingResult, JpegResourceLimits,
  JpegOutputValidationRule, complete_jpeg_structure, planned_dimensions, sample_precision,
  component_organization, scan_organization, entropy_coding_mode, quantization_table_preservation,
  restart_interval_preservation, full_decode, no_unsupported_asset_bindings, encoded_output_digest,
  no_native_error, validation_rule, plain_error, cancelled, output_validation_failed,
  output_validation, multi_picture_jpeg_not_supported, content_credentials_would_be_invalidated,
  unsupported_jumbf_metadata,
}
use jpg_spinner.Domain.Geometry.{
  ImageDimensions, JpegCodingProcess, extended_sequential_dct_arithmetic,
  progressive_dct_arithmetic, JpegComponentDescription, LosslessTransform, OutputScanOrganization,
  preserve_source, sequential_dct, progressive_dct,
}
use jpg_spinner.Domain.Planner.{JpegTransformPlan, swaps_axes}
use jpg_spinner.Jpeg.Bytes.{Bytes, byte_at, copy_n}
use jpg_spinner.Jpeg.Inventory.{
  JpegMarkerInventory, JpegMarkerReference, IccProfileChunkReference, JpegFrameHeader,
  is_contained_within, trailing_data_range,
}
use jpg_spinner.Jpeg.Markers.{is_progressive_coding_process}
use jpg_spinner.Jpeg.Outcome.{Outcome, success, failure, out_of_bounds, out_of_fuel, ◌>>=◌}
use jpg_spinner.Jpeg.Scanner.{scan}
use jpg_spinner.Prelude.{
  ℕ, zero, suc, ◌+◌, ◌*◌, ◌%◌, ◌^◌, Bool, true, false, not, ◌&&◌, ◌||◌, Option, none, some, List,
  [], ◌∷◌, ◌++◌, length, leb, ltb, ◌==◌, if◌then◌else◌,
}

-- The arguments of a validation, with the code outside and the answers of the stop token.
pub record Validation : Type 0 where
  pub readers : Readers
  pub stops : StopRequests
  pub source : Bytes
  pub source_inventory : JpegMarkerInventory
  pub plan : JpegTransformPlan
  pub output : Bytes
  pub limits : JpegResourceLimits

-- The digest of the profile, where the output has one.
unfoldable pub profile_digest : Validation → JpegMarkerInventory → Bytes → Outcome (Option (List ℕ))
profile_digest v inventory profile = elim inventory.metadata_segments.icc_profile_chunks [
  | [] ↦ success none
  | _ ∷ _ ↦ elim (v.readers.calculate_sha256_digest profile) [
    | none ↦ reject encoded_output_digest
    | some digest ↦ success (some digest)
  ]
]

unfoldable pub digest_of : Validation → Bytes → Outcome (List ℕ)
digest_of v bytes = elim (v.readers.calculate_sha256_digest bytes) [
  | none ↦ reject encoded_output_digest
  | some digest ↦ success digest
]

-- The evidence of an output that keeps every rule.
unfoldable pub collect_evidence :
    Validation → JpegMarkerInventory → JpegOutputMetadataEvidence → Outcome ValidatedJpegOutput
collect_evidence v inventory evidence = metadata_bytes v.output inventory.markers >>= λ metadata.
    profile_bytes v.output inventory.metadata_segments.icc_profile_chunks >>= λ profile.
    digest_of v v.output >>= λ digest. digest_of v metadata >>= λ marker_digest.
    profile_digest v inventory profile >>= λ icc_digest.
    if v.stops.at_end
    then cancel
    else success record {
      encoded_bytes = v.output;
      encoded_sha256 = digest;
      output_properties = record {
        coding_process = inventory.frame_header.coding_process;
        sample_precision_bits = inventory.frame_header.sample_precision_bits;
        dimensions = inventory.frame_header.dimensions;
        components = inventory.frame_header.components;
      };
      metadata_evidence = evidence;
      marker_evidence = record {
        metadata_marker_count = metadata_marker_count inventory.markers;
        encoded_metadata_sha256 = marker_digest;
        icc_profile_sha256 = icc_digest;
      };
    }

-- One reading by the codec: its tables, or the refusal.
unfoldable pub read_tables : DecodeOutcome → Bool → Outcome (List QuantizationTable)
read_tables cancelled_decode is_stopped = cancel
read_tables failed is_stopped = if is_stopped then cancel else reject full_decode
read_tables (complete tables) is_stopped = if is_stopped then cancel else success tables

unfoldable pub validate_tables :
    Validation → JpegMarkerInventory → JpegOutputMetadataEvidence → Outcome ValidatedJpegOutput
validate_tables v inventory evidence =
    read_tables (v.readers.read_jpeg_coding_parameters v.source true) v.stops.behind_source
    >>= λ source_tables.
        read_tables (v.readers.read_jpeg_coding_parameters v.output false) v.stops.behind_output
        >>= λ output_tables.
            if is_same_tables (swaps_axes v.plan.transform) source_tables output_tables
            then collect_evidence v inventory evidence
            else reject quantization_table_preservation

unfoldable pub validate_metadata : Validation → JpegMarkerInventory → Outcome ValidatedJpegOutput
validate_metadata v inventory =
    elim (v.readers.validate_reconciled_metadata v.source v.source_inventory v.output inventory
      v.plan) [
        | ImageProcessingResult.failure error ↦ failure error
        | ImageProcessingResult.success evidence ↦
            if v.readers.validate_source_asset_bindings v.output inventory
            then validate_tables v inventory evidence
            else reject no_unsupported_asset_bindings
      ]

unfoldable pub validate_inventory : Validation → JpegMarkerInventory → Outcome ValidatedJpegOutput
validate_inventory v inventory =
    if not ((trailing_data_range inventory).length_bytes == 0)
    then reject complete_jpeg_structure
    else elim (broken_frame_rule v.plan v.source_inventory.frame_header inventory.frame_header) [
      | some rule ↦ reject rule
      | none ↦ constant_restart_interval v.source v.source_inventory >>= λ source_interval.
          constant_restart_interval v.output inventory >>= λ output_interval.
          if is_same_interval source_interval output_interval
          then validate_metadata v inventory
          else reject restart_interval_preservation
    ]

unfoldable pub validate : Validation → Outcome ValidatedJpegOutput
validate v =
    if v.stops.at_entry
    then cancel
    else if not (v.source_inventory.encoded_source_length_bytes == length v.source)
    then reject complete_jpeg_structure
    else elim (scan v.output v.limits) [
      | success inventory ↦ validate_inventory v inventory
      | failure error ↦ reject (rule_of_scan_error error.code)
      | out_of_bounds ↦ out_of_bounds
      | out_of_fuel ↦ out_of_fuel
    ]
