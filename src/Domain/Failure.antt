-- ===== src/Domain/Failure.antt =====
-- ImageProcessingError.h, ImageProcessingResult.h and JpegResourceLimits.h: error codes, the stage
-- that saw a failure, what a failure carries, and the limits on untrusted input.
use jpg_spinner.Prelude.{ℕ, ◌*◌, Option}

pub data ImageProcessingErrorCode : Type 0 where
  source_access_denied source_sharing_violation source_revision_capture_failed :
      ImageProcessingErrorCode
  source_discovery_failed invalid_batch_processing_request source_changed_after_analysis :
      ImageProcessingErrorCode
  destination_access_denied encoded_file_too_large pixel_count_limit_exceeded :
      ImageProcessingErrorCode
  metadata_length_limit_exceeded progressive_scan_count_limit_exceeded : ImageProcessingErrorCode
  malformed_jpeg_structure malformed_image_metadata metadata_preservation_failed :
      ImageProcessingErrorCode
  invalid_orientation_metadata unsupported_jpeg_coding_process : ImageProcessingErrorCode
  unsupported_jpeg_sample_precision unsupported_jpeg_component_organization :
      ImageProcessingErrorCode
  unsupported_jpeg_deferred_height unsupported_jpeg_restart_interval_changes :
      ImageProcessingErrorCode
  multi_picture_jpeg_not_supported motion_photo_not_supported unsupported_trailing_payload :
      ImageProcessingErrorCode
  content_credentials_would_be_invalidated unsupported_jumbf_metadata : ImageProcessingErrorCode
  unsupported_embedded_preview_metadata extended_xmp_mutation_not_supported :
      ImageProcessingErrorCode
  perfect_coefficient_transform_unavailable coefficient_transformation_failed :
      ImageProcessingErrorCode
  output_buffer_too_small working_memory_allocation_failed insufficient_storage_space :
      ImageProcessingErrorCode
  output_relative_path_collision staging_file_creation_failed staging_write_failed :
      ImageProcessingErrorCode
  staging_flush_failed staging_close_failed staged_output_verification_failed :
      ImageProcessingErrorCode
  staged_output_hash_mismatch output_validation_failed : ImageProcessingErrorCode
  corrected_copy_destination_creation_failed corrected_copy_commit_failed : ImageProcessingErrorCode
  backup_creation_failed backup_verification_failed original_replacement_failed :
      ImageProcessingErrorCode
  journal_persistence_failed storage_provider_recovery_contract_not_established :
      ImageProcessingErrorCode
  journal_store_busy recovery_conflict windows_long_path_support_unavailable cancelled :
      ImageProcessingErrorCode

pub data ImageProcessingStage : Type 0 where
  candidate_discovery source_revision_capture jpeg_structure_validation metadata_analysis :
      ImageProcessingStage
  metadata_reconciliation transform_planning coefficient_transformation output_validation :
      ImageProcessingStage
  staging_file_creation staging_write staging_flush staging_close staged_output_verification :
      ImageProcessingStage
  source_revision_revalidation corrected_copy_destination_creation corrected_copy_commit :
      ImageProcessingStage
  backup_creation backup_verification original_replacement journal_persistence :
      ImageProcessingStage
  transaction_recovery transaction_recoverability_preflight journal_store_lease_acquisition :
      ImageProcessingStage

pub data JpegResourceLimit : Type 0 where
  encoded_file_length_bytes pixel_count metadata_length_bytes : JpegResourceLimit
  progressive_scan_count : JpegResourceLimit

-- `observed_value` is absent where the product does not fit 64 bits.
pub record JpegResourceLimitViolation : Type 0 where
  pub resource_limit : JpegResourceLimit
  pub observed_value : Option ℕ
  pub maximum_value : ℕ

pub record JpegResourceLimits : Type 0 where
  pub maximum_encoded_file_length_bytes : ℕ
  pub maximum_pixel_count : ℕ
  pub maximum_metadata_length_bytes : ℕ
  pub maximum_progressive_scan_count : ℕ

abbrev pub production : JpegResourceLimits
production = record {
  maximum_encoded_file_length_bytes = 512 * 1024 * 1024;
  maximum_pixel_count = 268435456;
  maximum_metadata_length_bytes = 32 * 1024 * 1024;
  maximum_progressive_scan_count = 100;
}

-- A native code is kept as its bit pattern.
pub data NativeErrorProjection : Type 0 where
  no_native_error : NativeErrorProjection
  error_code windows_hresult : ℕ → NativeErrorProjection

pub data JpegOutputValidationRule : Type 0 where
  complete_jpeg_structure planned_dimensions sample_precision component_organization :
      JpegOutputValidationRule
  scan_organization entropy_coding_mode quantization_table_preservation : JpegOutputValidationRule
  restart_interval_preservation full_decode canonical_exif_orientation : JpegOutputValidationRule
  canonical_standard_xmp_orientation derived_dimensions metadata_preservation :
      JpegOutputValidationRule
  preserved_marker_sequence icc_profile_preservation extended_xmp_preservation :
      JpegOutputValidationRule
  removed_embedded_thumbnails no_unsupported_asset_bindings encoded_output_digest :
      JpegOutputValidationRule

pub data CoefficientTransformationExecutionState : Type 0 where
  not_started started : CoefficientTransformationExecutionState

pub data ImageProcessingDiagnosticContext : Type 0 where
  no_context : ImageProcessingDiagnosticContext
  limit_violation : JpegResourceLimitViolation → ImageProcessingDiagnosticContext
  validation_rule : JpegOutputValidationRule → ImageProcessingDiagnosticContext
  execution_state : CoefficientTransformationExecutionState → ImageProcessingDiagnosticContext

pub record ImageProcessingError : Type 0 where
  pub code : ImageProcessingErrorCode
  pub stage : ImageProcessingStage
  pub native_error_projection : NativeErrorProjection
  pub diagnostic_context : ImageProcessingDiagnosticContext

-- An error with no native code and no context, and one that reports a limit.
abbrev pub plain_error : ImageProcessingErrorCode → ImageProcessingStage → ImageProcessingError
plain_error c s = record {
  code = c;
  stage = s;
  native_error_projection = no_native_error;
  diagnostic_context = no_context;
}

abbrev pub limit_error :
    ImageProcessingErrorCode
    → ImageProcessingStage
    → JpegResourceLimitViolation
    → ImageProcessingError
limit_error c s v = record {
  code = c;
  stage = s;
  native_error_projection = no_native_error;
  diagnostic_context = limit_violation v;
}

pub data ImageProcessingResult {ℓ} (A : Type ℓ) : Type ℓ where
  success : A → ImageProcessingResult A
  failure : ImageProcessingError → ImageProcessingResult A
