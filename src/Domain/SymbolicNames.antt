-- ===== src/Domain/SymbolicNames.antt =====
-- ImageProcessingSymbolicNames.h: symbolicName of the codes, the stages and the limits. The symbol of an unknown numeric
-- value has no counterpart, since the enumerations are closed here.
pub mod Found
use Prim.Native.String.{String}
use jpg_spinner.Domain.Failure.{
  ImageProcessingErrorCode, ImageProcessingStage, JpegResourceLimit, backup_creation,
  backup_creation_failed, backup_verification, backup_verification_failed, cancelled,
  candidate_discovery, coefficient_transformation, coefficient_transformation_failed,
  content_credentials_would_be_invalidated, corrected_copy_commit, corrected_copy_commit_failed,
  corrected_copy_destination_creation, corrected_copy_destination_creation_failed,
  destination_access_denied, encoded_file_length_bytes, encoded_file_too_large,
  extended_xmp_mutation_not_supported, insufficient_storage_space, invalid_batch_processing_request,
  invalid_orientation_metadata, journal_persistence, journal_persistence_failed, journal_store_busy,
  journal_store_lease_acquisition, jpeg_structure_validation, malformed_image_metadata,
  malformed_jpeg_structure, metadata_analysis, metadata_length_bytes,
  metadata_length_limit_exceeded, metadata_preservation_failed, metadata_reconciliation,
  motion_photo_not_supported, multi_picture_jpeg_not_supported, original_replacement,
  original_replacement_failed, output_buffer_too_small, output_relative_path_collision,
  output_validation, output_validation_failed, perfect_coefficient_transform_unavailable,
  pixel_count, pixel_count_limit_exceeded, progressive_scan_count,
  progressive_scan_count_limit_exceeded, recovery_conflict, source_access_denied,
  source_changed_after_analysis, source_discovery_failed, source_revision_capture,
  source_revision_capture_failed, source_revision_revalidation, source_sharing_violation,
  staged_output_hash_mismatch, staged_output_verification, staged_output_verification_failed,
  staging_close, staging_close_failed, staging_file_creation, staging_file_creation_failed,
  staging_flush, staging_flush_failed, staging_write, staging_write_failed,
  storage_provider_recovery_contract_not_established, transaction_recoverability_preflight,
  transaction_recovery, transform_planning, unsupported_embedded_preview_metadata,
  unsupported_jpeg_coding_process, unsupported_jpeg_component_organization,
  unsupported_jpeg_deferred_height, unsupported_jpeg_restart_interval_changes,
  unsupported_jpeg_sample_precision, unsupported_jumbf_metadata, unsupported_trailing_payload,
  windows_long_path_support_unavailable, working_memory_allocation_failed,
}
use text.Mathlib.Text.{◌==◌}
use jpg_spinner.Prelude.{
  ◌≡◌, refl, sym, ap, ◌∙◌, List, [], ◌∷◌, Option, none, some, if◌then◌else◌, arith,
}

unfoldable pub symbolic_name_of_code : ImageProcessingErrorCode → String
symbolic_name_of_code source_access_denied = "SourceAccessDenied"
symbolic_name_of_code source_sharing_violation = "SourceSharingViolation"
symbolic_name_of_code source_revision_capture_failed = "SourceRevisionCaptureFailed"
symbolic_name_of_code source_discovery_failed = "SourceDiscoveryFailed"
symbolic_name_of_code invalid_batch_processing_request = "InvalidBatchProcessingRequest"
symbolic_name_of_code source_changed_after_analysis = "SourceChangedAfterAnalysis"
symbolic_name_of_code destination_access_denied = "DestinationAccessDenied"
symbolic_name_of_code encoded_file_too_large = "EncodedFileTooLarge"
symbolic_name_of_code pixel_count_limit_exceeded = "PixelCountLimitExceeded"
symbolic_name_of_code metadata_length_limit_exceeded = "MetadataLengthLimitExceeded"
symbolic_name_of_code progressive_scan_count_limit_exceeded = "ProgressiveScanCountLimitExceeded"
symbolic_name_of_code malformed_jpeg_structure = "MalformedJpegStructure"
symbolic_name_of_code malformed_image_metadata = "MalformedImageMetadata"
symbolic_name_of_code metadata_preservation_failed = "MetadataPreservationFailed"
symbolic_name_of_code invalid_orientation_metadata = "InvalidOrientationMetadata"
symbolic_name_of_code unsupported_jpeg_coding_process = "UnsupportedJpegCodingProcess"
symbolic_name_of_code unsupported_jpeg_sample_precision = "UnsupportedJpegSamplePrecision"
symbolic_name_of_code unsupported_jpeg_component_organization =
    "UnsupportedJpegComponentOrganization"
symbolic_name_of_code unsupported_jpeg_deferred_height = "UnsupportedJpegDeferredHeight"
symbolic_name_of_code unsupported_jpeg_restart_interval_changes =
    "UnsupportedJpegRestartIntervalChanges"
symbolic_name_of_code multi_picture_jpeg_not_supported = "MultiPictureJpegNotSupported"
symbolic_name_of_code motion_photo_not_supported = "MotionPhotoNotSupported"
symbolic_name_of_code unsupported_trailing_payload = "UnsupportedTrailingPayload"
symbolic_name_of_code content_credentials_would_be_invalidated =
    "ContentCredentialsWouldBeInvalidated"
symbolic_name_of_code unsupported_jumbf_metadata = "UnsupportedJumbfMetadata"
symbolic_name_of_code unsupported_embedded_preview_metadata = "UnsupportedEmbeddedPreviewMetadata"
symbolic_name_of_code extended_xmp_mutation_not_supported = "ExtendedXmpMutationNotSupported"
symbolic_name_of_code perfect_coefficient_transform_unavailable =
    "PerfectCoefficientTransformUnavailable"
symbolic_name_of_code coefficient_transformation_failed = "CoefficientTransformationFailed"
symbolic_name_of_code output_buffer_too_small = "OutputBufferTooSmall"
symbolic_name_of_code working_memory_allocation_failed = "WorkingMemoryAllocationFailed"
symbolic_name_of_code insufficient_storage_space = "InsufficientStorageSpace"
symbolic_name_of_code output_relative_path_collision = "OutputRelativePathCollision"
symbolic_name_of_code staging_file_creation_failed = "StagingFileCreationFailed"
symbolic_name_of_code staging_write_failed = "StagingWriteFailed"
symbolic_name_of_code staging_flush_failed = "StagingFlushFailed"
symbolic_name_of_code staging_close_failed = "StagingCloseFailed"
symbolic_name_of_code staged_output_verification_failed = "StagedOutputVerificationFailed"
symbolic_name_of_code staged_output_hash_mismatch = "StagedOutputHashMismatch"
symbolic_name_of_code output_validation_failed = "OutputValidationFailed"
symbolic_name_of_code corrected_copy_destination_creation_failed =
    "CorrectedCopyDestinationCreationFailed"
symbolic_name_of_code corrected_copy_commit_failed = "CorrectedCopyCommitFailed"
symbolic_name_of_code backup_creation_failed = "BackupCreationFailed"
symbolic_name_of_code backup_verification_failed = "BackupVerificationFailed"
symbolic_name_of_code original_replacement_failed = "OriginalReplacementFailed"
symbolic_name_of_code journal_persistence_failed = "JournalPersistenceFailed"
symbolic_name_of_code storage_provider_recovery_contract_not_established =
    "StorageProviderRecoveryContractNotEstablished"
symbolic_name_of_code journal_store_busy = "JournalStoreBusy"
symbolic_name_of_code recovery_conflict = "RecoveryConflict"
symbolic_name_of_code windows_long_path_support_unavailable = "WindowsLongPathSupportUnavailable"
symbolic_name_of_code cancelled = "Cancelled"

unfoldable pub symbolic_name_of_stage : ImageProcessingStage → String
symbolic_name_of_stage candidate_discovery = "CandidateDiscovery"
symbolic_name_of_stage source_revision_capture = "SourceRevisionCapture"
symbolic_name_of_stage jpeg_structure_validation = "JpegStructureValidation"
symbolic_name_of_stage metadata_analysis = "MetadataAnalysis"
symbolic_name_of_stage metadata_reconciliation = "MetadataReconciliation"
symbolic_name_of_stage transform_planning = "TransformPlanning"
symbolic_name_of_stage coefficient_transformation = "CoefficientTransformation"
symbolic_name_of_stage output_validation = "OutputValidation"
symbolic_name_of_stage staging_file_creation = "StagingFileCreation"
symbolic_name_of_stage staging_write = "StagingWrite"
symbolic_name_of_stage staging_flush = "StagingFlush"
symbolic_name_of_stage staging_close = "StagingClose"
symbolic_name_of_stage staged_output_verification = "StagedOutputVerification"
symbolic_name_of_stage source_revision_revalidation = "SourceRevisionRevalidation"
symbolic_name_of_stage corrected_copy_destination_creation = "CorrectedCopyDestinationCreation"
symbolic_name_of_stage corrected_copy_commit = "CorrectedCopyCommit"
symbolic_name_of_stage backup_creation = "BackupCreation"
symbolic_name_of_stage backup_verification = "BackupVerification"
symbolic_name_of_stage original_replacement = "OriginalReplacement"
symbolic_name_of_stage journal_persistence = "JournalPersistence"
symbolic_name_of_stage transaction_recovery = "TransactionRecovery"
symbolic_name_of_stage transaction_recoverability_preflight = "TransactionRecoverabilityPreflight"
symbolic_name_of_stage journal_store_lease_acquisition = "JournalStoreLeaseAcquisition"

unfoldable pub symbolic_name_of_limit : JpegResourceLimit → String
symbolic_name_of_limit encoded_file_length_bytes = "EncodedFileLengthBytes"
symbolic_name_of_limit pixel_count = "PixelCount"
symbolic_name_of_limit metadata_length_bytes = "MetadataLengthBytes"
symbolic_name_of_limit progressive_scan_count = "ProgressiveScanCount"
