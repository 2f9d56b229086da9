-- ===== src/Jpeg/Output.antt =====
-- JpegOutputValidator.cpp and ValidatedJpegOutput.h: the approval of a completed output, rule by rule. The codec's
-- reader, the metadata reconciler with its toolkits, and the digest of the system are parameters.
pub mod Restarts
use jpg_spinner.Domain.Failure.{
  ImageProcessingError, ImageProcessingErrorCode, ImageProcessingResult, JpegResourceLimits,
  JpegOutputValidationRule, complete_jpeg_structure, planned_dimensions, sample_precision,
  component_organization, scan_organization, entropy_coding_mode, quantization_table_preservation,
  restart_interval_preservation, full_decode, no_unsupported_asset_bindings, encoded_output_digest,
  no_native_error, validation_rule, plain_error, cancelled, output_validation_failed,
  output_validation, multi_picture_jpeg_not_supported, content_credentials_would_be_invalidated,
  unsupported_jumbf_metadata,
}
use jpg_spinner.Domain.Geometry.{
  ImageDimensions, JpegCodingProcess, extended_sequential_dct_arithmetic,
  progressive_dct_arithmetic, JpegComponentDescription, LosslessTransform, OutputScanOrganization,
  preserve_source, sequential_dct, progressive_dct,
}
use jpg_spinner.Domain.Planner.{JpegTransformPlan, swaps_axes}
use jpg_spinner.Jpeg.Bytes.{Bytes, byte_at, copy_n}
use jpg_spinner.Jpeg.Inventory.{
  JpegMarkerInventory, JpegMarkerReference, IccProfileChunkReference, JpegFrameHeader,
  is_contained_within, trailing_data_range,
}
use jpg_spinner.Jpeg.Markers.{is_progressive_coding_process}
use jpg_spinner.Jpeg.Outcome.{Outcome, success, failure, out_of_bounds, out_of_fuel, ◌>>=◌}
use jpg_spinner.Jpeg.Scanner.{scan}
use jpg_spinner.Prelude.{
  ℕ, zero, suc, ◌+◌, ◌*◌, ◌%◌, ◌^◌, Bool, true, false, not, ◌&&◌, ◌||◌, Option, none, some, List,
  [], ◌∷◌, ◌++◌, length, leb, ltb, ◌==◌, if◌then◌else◌,
}

abbrev pub reject_error : JpegOutputValidationRule → ImageProcessingError
reject_error rule = record {
  code = output_validation_failed;
  stage = output_validation;
  native_error_projection = no_native_error;
  diagnostic_context = validation_rule rule;
}

abbrev pub reject {ℓ} : {A : Type ℓ} → JpegOutputValidationRule → Outcome A
reject rule = failure (reject_error rule)

abbrev pub cancel {ℓ} : {A : Type ℓ} → Outcome A
cancel = failure (plain_error cancelled output_validation)

unfoldable pub is_arithmetic : JpegCodingProcess → Bool
is_arithmetic extended_sequential_dct_arithmetic = true
is_arithmetic progressive_dct_arithmetic = true
is_arithmetic _ = false

-- The loop over the markers with its two locals, whether a scan has started and the interval in force.
unfoldable pub restart_interval_from :
    Bytes → List JpegMarkerReference → Bool → ℕ → Outcome (Option ℕ)
restart_interval_from bytes [] scan_started interval = success (some interval)
restart_interval_from bytes (marker ∷ markers) scan_started interval =
    let started = scan_started || marker.marker_code == 0xDA in
    if not (marker.marker_code == 0xDD)
    then restart_interval_from bytes markers started interval
    else if not (marker.payload_range.length_bytes == 2)
        || not (is_contained_within marker.payload_range (length bytes))
    then success none
    else byte_at bytes marker.payload_range.offset_bytes >>= λ high.
        byte_at bytes (marker.payload_range.offset_bytes + 1) >>= λ low.
        let next = high * 256 + low in
        if started && not (next == interval)
        then success none
        else restart_interval_from bytes markers started next

unfoldable pub constant_restart_interval : Bytes → JpegMarkerInventory → Outcome (Option ℕ)
constant_restart_interval bytes inventory = restart_interval_from bytes inventory.markers false 0

-- A quantization table of 64 entries, by index.
abbrev pub QuantizationTable : Type 0
QuantizationTable = ℕ → ℕ

-- How readJpegCodingParameters ends, with the tables that it observed.
pub data DecodeOutcome : Type 0 where
  complete : List QuantizationTable → DecodeOutcome
  failed cancelled_decode : DecodeOutcome

pub record JpegOutputMetadataEvidence : Type 0 where
  pub has_exif_orientation : Bool
  pub has_standard_xmp_orientation : Bool
  pub removed_embedded_thumbnail : Bool

pub record PreservedJpegMarkerEvidence : Type 0 where
  pub metadata_marker_count : ℕ
  pub encoded_metadata_sha256 : List ℕ
  pub icc_profile_sha256 : Option (List ℕ)

pub record JpegFrameProperties : Type 0 where
  pub coding_process : JpegCodingProcess
  pub sample_precision_bits : ℕ
  pub dimensions : ImageDimensions
  pub components : List JpegComponentDescription

pub record ValidatedJpegOutput : Type 0 where
  pub encoded_bytes : Bytes
  pub encoded_sha256 : List ℕ
  pub output_properties : JpegFrameProperties
  pub metadata_evidence : JpegOutputMetadataEvidence
  pub marker_evidence : PreservedJpegMarkerEvidence

-- The code outside: the metadata reconciler, the codec's reader (the coefficients only, or a full decode) and
-- the digest.
pub record Readers : Type 0 where
  pub validate_reconciled_metadata :
      Bytes
      → JpegMarkerInventory
      → Bytes
      → JpegMarkerInventory
      → JpegTransformPlan
      → ImageProcessingResult JpegOutputMetadataEvidence
  pub validate_source_asset_bindings : Bytes → JpegMarkerInventory → Bool
  pub read_jpeg_coding_parameters : Bytes → Bool → DecodeOutcome
  pub calculate_sha256_digest : Bytes → Option (List ℕ)

-- What the stop token answers each time that it is asked.
pub record StopRequests : Type 0 where
  pub at_entry : Bool
  pub behind_source : Bool
  pub behind_output : Bool
  pub at_end : Bool
