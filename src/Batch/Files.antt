-- ===== src/Batch/Files.antt =====
-- BatchFileOutcome.h, BatchProcessingProgress.h, BatchExecutionLimits.h, AnalyzedImageBatch.h and the helpers in
-- front of the coordinator in BatchProcessingCoordinator.cpp.
use jpg_spinner.Prelude.{
  ℕ, ◌+◌, ◌-◌, Bool, true, false, ◌&&◌, List, Option, ◌==◌, if◌then◌else◌, is_same_list,
}
use jpg_spinner.Domain.Failure.{
  ImageProcessingErrorCode, encoded_file_too_large, pixel_count_limit_exceeded,
  metadata_length_limit_exceeded, progressive_scan_count_limit_exceeded, malformed_jpeg_structure,
  malformed_image_metadata, invalid_orientation_metadata, unsupported_jpeg_coding_process,
  unsupported_jpeg_sample_precision, unsupported_jpeg_component_organization,
  unsupported_jpeg_deferred_height, unsupported_jpeg_restart_interval_changes,
  multi_picture_jpeg_not_supported, motion_photo_not_supported, unsupported_trailing_payload,
  content_credentials_would_be_invalidated, unsupported_jumbf_metadata,
  unsupported_embedded_preview_metadata, extended_xmp_mutation_not_supported,
  perfect_coefficient_transform_unavailable, cancelled, recovery_conflict, ImageProcessingError,
}
use jpg_spinner.Domain.Geometry.{LosslessTransform}
use jpg_spinner.Storage.Records.{
  SourceFileRevision, OutputDisposition, create_corrected_copy,
  replace_original_with_verified_backup, replace_original_without_retained_backup,
}

pub data BatchFileOutcome : Type 0 where
  corrected_copy_created original_replaced_with_verified_backup : BatchFileOutcome
  no_orientation_normalization_required unsupported_source_skipped processing_failed :
      BatchFileOutcome
  cancelled_before_transformation cancelled_before_commit : BatchFileOutcome
  original_replaced_without_retained_backup : BatchFileOutcome

-- The relative path of the row is that of the file with the row's index.
pub record BatchFileProcessingResult : Type 0 where
  pub outcome : BatchFileOutcome
  pub error : Option ImageProcessingError

pub record BatchProcessingProgress : Type 0 where
  pub discovered : ℕ
  pub analyzed : ℕ
  pub eligible : ℕ
  pub completed : ℕ
  pub failed : ℕ
  pub skipped : ℕ
  pub cancelled_count : ℕ
  pub remaining : ℕ
  pub discovery_complete : Bool

pub record BatchExecutionLimits : Type 0 where
  pub maximum_concurrent_image_count : ℕ
  pub estimated_working_memory_budget_bytes : Option ℕ

-- What the analysis left of a file. The captured revision and the transform of the plan are read only where there is
-- no error.
pub record BatchFileAnalysis : Type 0 where
  pub error : Option ImageProcessingError
  pub source_revision : SourceFileRevision
  pub transform : LosslessTransform

-- The identifier and the discovery's issues go through the coordinator unread and are left out here, as the JPEG
-- limits are, which only the capture gets.
pub record AnalyzedImageBatch : Type 0 where
  pub disposition : OutputDisposition
  pub execution_limits : BatchExecutionLimits
  pub files : List BatchFileAnalysis
  pub is_discovery_complete : Bool
  pub analyzed_count : ℕ

unfoldable pub is_unsupported_source : ImageProcessingErrorCode → Bool
is_unsupported_source encoded_file_too_large = true
is_unsupported_source pixel_count_limit_exceeded = true
is_unsupported_source metadata_length_limit_exceeded = true
is_unsupported_source progressive_scan_count_limit_exceeded = true
is_unsupported_source malformed_jpeg_structure = true
is_unsupported_source malformed_image_metadata = true
is_unsupported_source invalid_orientation_metadata = true
is_unsupported_source unsupported_jpeg_coding_process = true
is_unsupported_source unsupported_jpeg_sample_precision = true
is_unsupported_source unsupported_jpeg_component_organization = true
is_unsupported_source unsupported_jpeg_deferred_height = true
is_unsupported_source unsupported_jpeg_restart_interval_changes = true
is_unsupported_source multi_picture_jpeg_not_supported = true
is_unsupported_source motion_photo_not_supported = true
is_unsupported_source unsupported_trailing_payload = true
is_unsupported_source content_credentials_would_be_invalidated = true
is_unsupported_source unsupported_jumbf_metadata = true
is_unsupported_source unsupported_embedded_preview_metadata = true
is_unsupported_source extended_xmp_mutation_not_supported = true
is_unsupported_source perfect_coefficient_transform_unavailable = true
is_unsupported_source _ = false

abbrev pub is_cancelled : ImageProcessingErrorCode → Bool
is_cancelled cancelled = true
is_cancelled _ = false

abbrev pub is_recovery_conflict : ImageProcessingErrorCode → Bool
is_recovery_conflict recovery_conflict = true
is_recovery_conflict _ = false

-- The outcome that `recordError` gives to an error.
unfoldable pub outcome_of_error : ImageProcessingErrorCode → Bool → BatchFileOutcome
outcome_of_error code transformation_entered =
    if is_cancelled code
    then (if transformation_entered
        then cancelled_before_commit
        else cancelled_before_transformation)
    else if is_unsupported_source code
    then unsupported_source_skipped
    else processing_failed

-- The outcome of a save that was reported.
unfoldable pub outcome_of_disposition : OutputDisposition → BatchFileOutcome
outcome_of_disposition create_corrected_copy = corrected_copy_created
outcome_of_disposition replace_original_with_verified_backup =
    original_replaced_with_verified_backup
outcome_of_disposition replace_original_without_retained_backup =
    original_replaced_without_retained_backup

-- The observer is called with the value returned.
unfoldable pub report_progress : BatchProcessingProgress → BatchProcessingProgress
report_progress p = record p { remaining = p.discovered - p.completed }

-- The count of one outcome, behind `++progress.completed`.
unfoldable pub count_outcome : BatchFileOutcome → BatchProcessingProgress → BatchProcessingProgress
count_outcome processing_failed p = record p { failed = p.failed + 1 }
count_outcome unsupported_source_skipped p = record p { skipped = p.skipped + 1 }
count_outcome no_orientation_normalization_required p = record p { skipped = p.skipped + 1 }
count_outcome cancelled_before_transformation p = record p {
  cancelled_count = p.cancelled_count + 1;
}
count_outcome cancelled_before_commit p = record p { cancelled_count = p.cancelled_count + 1 }
count_outcome _ p = p

unfoldable pub is_same_revision : SourceFileRevision → SourceFileRevision → Bool
is_same_revision a b =
    a.encoded_length_bytes == b.encoded_length_bytes
    && a.last_write_time_utc == b.last_write_time_utc
    && is_same_list a.encoded_sha256 b.encoded_sha256
