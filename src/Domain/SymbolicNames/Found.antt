-- ===== src/Domain/SymbolicNames/Found.antt =====
-- The symbols tell the enumerators apart.
use jpg_spinner.Domain.SymbolicNames.{
  symbolic_name_of_code, symbolic_name_of_stage, symbolic_name_of_limit,
}
use Prim.Native.String.{String}
use jpg_spinner.Domain.Failure.{
  ImageProcessingErrorCode, ImageProcessingStage, JpegResourceLimit, backup_creation,
  backup_creation_failed, backup_verification, backup_verification_failed, cancelled,
  candidate_discovery, coefficient_transformation, coefficient_transformation_failed,
  content_credentials_would_be_invalidated, corrected_copy_commit, corrected_copy_commit_failed,
  corrected_copy_destination_creation, corrected_copy_destination_creation_failed,
  destination_access_denied, encoded_file_length_bytes, encoded_file_too_large,
  extended_xmp_mutation_not_supported, insufficient_storage_space, invalid_batch_processing_request,
  invalid_orientation_metadata, journal_persistence, journal_persistence_failed, journal_store_busy,
  journal_store_lease_acquisition, jpeg_structure_validation, malformed_image_metadata,
  malformed_jpeg_structure, metadata_analysis, metadata_length_bytes,
  metadata_length_limit_exceeded, metadata_preservation_failed, metadata_reconciliation,
  motion_photo_not_supported, multi_picture_jpeg_not_supported, original_replacement,
  original_replacement_failed, output_buffer_too_small, output_relative_path_collision,
  output_validation, output_validation_failed, perfect_coefficient_transform_unavailable,
  pixel_count, pixel_count_limit_exceeded, progressive_scan_count,
  progressive_scan_count_limit_exceeded, recovery_conflict, source_access_denied,
  source_changed_after_analysis, source_discovery_failed, source_revision_capture,
  source_revision_capture_failed, source_revision_revalidation, source_sharing_violation,
  staged_output_hash_mismatch, staged_output_verification, staged_output_verification_failed,
  staging_close, staging_close_failed, staging_file_creation, staging_file_creation_failed,
  staging_flush, staging_flush_failed, staging_write, staging_write_failed,
  storage_provider_recovery_contract_not_established, transaction_recoverability_preflight,
  transaction_recovery, transform_planning, unsupported_embedded_preview_metadata,
  unsupported_jpeg_coding_process, unsupported_jpeg_component_organization,
  unsupported_jpeg_deferred_height, unsupported_jpeg_restart_interval_changes,
  unsupported_jpeg_sample_precision, unsupported_jumbf_metadata, unsupported_trailing_payload,
  windows_long_path_support_unavailable, working_memory_allocation_failed,
}
use text.Mathlib.Text.{◌==◌}
use jpg_spinner.Prelude.{◌≡◌, refl, List, [], ◌∷◌, Option, none, some, if◌then◌else◌}

-- The first entry of a list with the symbol.
abbrev pub named {ℓ} : {A : Type ℓ} → (A → String) → List A → String → Option A
named name [] symbol = none
named name (x ∷ xs) symbol = if name x == symbol then some x else named name xs symbol

abbrev pub all_codes : List ImageProcessingErrorCode
all_codes =
    source_access_denied ∷ source_sharing_violation ∷ source_revision_capture_failed
    ∷ source_discovery_failed ∷ invalid_batch_processing_request ∷ source_changed_after_analysis
    ∷ destination_access_denied ∷ encoded_file_too_large ∷ pixel_count_limit_exceeded
    ∷ metadata_length_limit_exceeded ∷ progressive_scan_count_limit_exceeded
    ∷ malformed_jpeg_structure ∷ malformed_image_metadata ∷ metadata_preservation_failed
    ∷ invalid_orientation_metadata ∷ unsupported_jpeg_coding_process
    ∷ unsupported_jpeg_sample_precision ∷ unsupported_jpeg_component_organization
    ∷ unsupported_jpeg_deferred_height ∷ unsupported_jpeg_restart_interval_changes
    ∷ multi_picture_jpeg_not_supported ∷ motion_photo_not_supported ∷ unsupported_trailing_payload
    ∷ content_credentials_would_be_invalidated ∷ unsupported_jumbf_metadata
    ∷ unsupported_embedded_preview_metadata ∷ extended_xmp_mutation_not_supported
    ∷ perfect_coefficient_transform_unavailable ∷ coefficient_transformation_failed
    ∷ output_buffer_too_small ∷ working_memory_allocation_failed ∷ insufficient_storage_space
    ∷ output_relative_path_collision ∷ staging_file_creation_failed ∷ staging_write_failed
    ∷ staging_flush_failed ∷ staging_close_failed ∷ staged_output_verification_failed
    ∷ staged_output_hash_mismatch ∷ output_validation_failed
    ∷ corrected_copy_destination_creation_failed ∷ corrected_copy_commit_failed
    ∷ backup_creation_failed ∷ backup_verification_failed ∷ original_replacement_failed
    ∷ journal_persistence_failed ∷ storage_provider_recovery_contract_not_established
    ∷ journal_store_busy ∷ recovery_conflict ∷ windows_long_path_support_unavailable ∷ cancelled
    ∷ []

code_named :
    (a : ImageProcessingErrorCode)
    → named symbolic_name_of_code all_codes (symbolic_name_of_code a) ≡ some a
unfolding symbolic_name_of_code
code_named source_access_denied = refl
code_named source_sharing_violation = refl
code_named source_revision_capture_failed = refl
code_named source_discovery_failed = refl
code_named invalid_batch_processing_request = refl
code_named source_changed_after_analysis = refl
code_named destination_access_denied = refl
code_named encoded_file_too_large = refl
code_named pixel_count_limit_exceeded = refl
code_named metadata_length_limit_exceeded = refl
code_named progressive_scan_count_limit_exceeded = refl
code_named malformed_jpeg_structure = refl
code_named malformed_image_metadata = refl
code_named metadata_preservation_failed = refl
code_named invalid_orientation_metadata = refl
code_named unsupported_jpeg_coding_process = refl
code_named unsupported_jpeg_sample_precision = refl
code_named unsupported_jpeg_component_organization = refl
code_named unsupported_jpeg_deferred_height = refl
code_named unsupported_jpeg_restart_interval_changes = refl
code_named multi_picture_jpeg_not_supported = refl
code_named motion_photo_not_supported = refl
code_named unsupported_trailing_payload = refl
code_named content_credentials_would_be_invalidated = refl
code_named unsupported_jumbf_metadata = refl
code_named unsupported_embedded_preview_metadata = refl
code_named extended_xmp_mutation_not_supported = refl
code_named perfect_coefficient_transform_unavailable = refl
code_named coefficient_transformation_failed = refl
code_named output_buffer_too_small = refl
code_named working_memory_allocation_failed = refl
code_named insufficient_storage_space = refl
code_named output_relative_path_collision = refl
code_named staging_file_creation_failed = refl
code_named staging_write_failed = refl
code_named staging_flush_failed = refl
code_named staging_close_failed = refl
code_named staged_output_verification_failed = refl
code_named staged_output_hash_mismatch = refl
code_named output_validation_failed = refl
code_named corrected_copy_destination_creation_failed = refl
code_named corrected_copy_commit_failed = refl
code_named backup_creation_failed = refl
code_named backup_verification_failed = refl
code_named original_replacement_failed = refl
code_named journal_persistence_failed = refl
code_named storage_provider_recovery_contract_not_established = refl
code_named journal_store_busy = refl
code_named recovery_conflict = refl
code_named windows_long_path_support_unavailable = refl
code_named cancelled = refl

abbrev pub all_stages : List ImageProcessingStage
all_stages =
    candidate_discovery ∷ source_revision_capture ∷ jpeg_structure_validation ∷ metadata_analysis
    ∷ metadata_reconciliation ∷ transform_planning ∷ coefficient_transformation ∷ output_validation
    ∷ staging_file_creation ∷ staging_write ∷ staging_flush ∷ staging_close
    ∷ staged_output_verification ∷ source_revision_revalidation
    ∷ corrected_copy_destination_creation ∷ corrected_copy_commit ∷ backup_creation
    ∷ backup_verification ∷ original_replacement ∷ journal_persistence ∷ transaction_recovery
    ∷ transaction_recoverability_preflight ∷ journal_store_lease_acquisition ∷ []

stage_named :
    (a : ImageProcessingStage)
    → named symbolic_name_of_stage all_stages (symbolic_name_of_stage a) ≡ some a
unfolding symbolic_name_of_stage
stage_named candidate_discovery = refl
stage_named source_revision_capture = refl
stage_named jpeg_structure_validation = refl
stage_named metadata_analysis = refl
stage_named metadata_reconciliation = refl
stage_named transform_planning = refl
stage_named coefficient_transformation = refl
stage_named output_validation = refl
stage_named staging_file_creation = refl
stage_named staging_write = refl
stage_named staging_flush = refl
stage_named staging_close = refl
stage_named staged_output_verification = refl
stage_named source_revision_revalidation = refl
stage_named corrected_copy_destination_creation = refl
stage_named corrected_copy_commit = refl
stage_named backup_creation = refl
stage_named backup_verification = refl
stage_named original_replacement = refl
stage_named journal_persistence = refl
stage_named transaction_recovery = refl
stage_named transaction_recoverability_preflight = refl
stage_named journal_store_lease_acquisition = refl

abbrev pub all_limits : List JpegResourceLimit
all_limits =
    encoded_file_length_bytes ∷ pixel_count ∷ metadata_length_bytes ∷ progressive_scan_count ∷ []

limit_named :
    (a : JpegResourceLimit)
    → named symbolic_name_of_limit all_limits (symbolic_name_of_limit a) ≡ some a
unfolding symbolic_name_of_limit
limit_named encoded_file_length_bytes = refl
limit_named pixel_count = refl
limit_named metadata_length_bytes = refl
limit_named progressive_scan_count = refl

-- Every error code, every stage and every limit is the one that its symbol names: none other of its
-- kind in front of it in the enumeration has that symbol.
pub symbolic_names_found :
    (code : ImageProcessingErrorCode) (stage : ImageProcessingStage) (limit : JpegResourceLimit)
    → (named symbolic_name_of_code all_codes (symbolic_name_of_code code) ≡ some code)
      × (named symbolic_name_of_stage all_stages (symbolic_name_of_stage stage) ≡ some stage)
      × (named symbolic_name_of_limit all_limits (symbolic_name_of_limit limit) ≡ some limit)
symbolic_names_found code stage limit = (code_named code, stage_named stage, limit_named limit)
