-- ===== src/Examples/Outputs.antt =====
-- The small file approved as an output of itself, and the restart interval of a file with one definition.
use jpg_spinner.Domain.Failure.{ImageProcessingResult, production}
use jpg_spinner.Domain.Geometry.{
  LosslessTransform, require_perfect_coefficient_transform, preserve_source,
}
use jpg_spinner.Domain.Planner.{JpegTransformPlan, swaps_axes}
use jpg_spinner.Examples.Acceptance.{small_inventory, small_file_accepted}
use jpg_spinner.Examples.Scans.{small_file}
use jpg_spinner.Jpeg.Bytes.{byte_at}
use jpg_spinner.Jpeg.Inventory.{
  is_contained_within, range, JpegMarkerReference, JpegMarkerInventory, trailing_data_range,
}
use jpg_spinner.Jpeg.Markers.{is_progressive_coding_process}
use jpg_spinner.Jpeg.Outcome.{success}
use jpg_spinner.Jpeg.Output.{
  is_arithmetic, restart_interval_from, constant_restart_interval, complete, ValidatedJpegOutput,
}
use jpg_spinner.Jpeg.Output.Restarts.{interval_behind, constant_restart_interval_scans}
use jpg_spinner.Jpeg.OutputRules.{
  is_same_component, is_same_components, broken_frame_rule, is_same_table, is_same_tables,
  metadata_bytes, metadata_marker_count, profile_bytes,
}
use jpg_spinner.Jpeg.Validator.Approved.{IsApproved, validate-IsApproved}
use jpg_spinner.Jpeg.Validator.{
  Validation, profile_digest, digest_of, collect_evidence, read_tables, validate_tables,
  validate_metadata, validate_inventory, validate,
}
use jpg_spinner.Prelude.{ℕ, ◌+◌, ◌≡◌, refl, true, false, [], ◌∷◌, none, some}

abbrev same_plan : JpegTransformPlan
same_plan = record {
  transform = LosslessTransform.none;
  source_dimensions = record { width = 1; height = 1 };
  output_dimensions = record { width = 1; height = 1 };
  edge_handling_policy = require_perfect_coefficient_transform;
  output_scan_organization = preserve_source;
  source_imcu_dimensions = record { width = 8; height = 8 };
  discarded_source_edge_pixels = record { right_edge_width = 0; bottom_edge_height = 0 };
}

abbrev same_output : Validation
same_output = record {
  readers = record {
    validate_reconciled_metadata = λ source i output j plan. ImageProcessingResult.success record {
      has_exif_orientation = false;
      has_standard_xmp_orientation = false;
      removed_embedded_thumbnail = false;
    };
    validate_source_asset_bindings = λ output i. true;
    read_jpeg_coding_parameters =
        λ bytes is_coefficients_only. complete ((λ index. index + 1) ∷ []);
    calculate_sha256_digest = λ bytes. some (7 ∷ []);
  };
  stops = record { at_entry = false; behind_source = false; behind_output = false; at_end = false };
  source = small_file;
  source_inventory = small_inventory;
  plan = same_plan;
  output = small_file;
  limits = production;
}

abbrev same_approved : ValidatedJpegOutput
same_approved = record {
  encoded_bytes = small_file;
  encoded_sha256 = 7 ∷ [];
  output_properties = record {
    coding_process = small_inventory.frame_header.coding_process;
    sample_precision_bits = 8;
    dimensions = record { width = 1; height = 1 };
    components = small_inventory.frame_header.components;
  };
  metadata_evidence = record {
    has_exif_orientation = false;
    has_standard_xmp_orientation = false;
    removed_embedded_thumbnail = false;
  };
  marker_evidence = record {
    metadata_marker_count = 0;
    encoded_metadata_sha256 = 7 ∷ [];
    icc_profile_sha256 = none;
  };
}

same_inventory_approved : validate_inventory same_output small_inventory ≡ success same_approved
unfolding validate_inventory trailing_data_range broken_frame_rule constant_restart_interval
    restart_interval_from validate_metadata validate_tables read_tables is_same_tables is_same_table
    collect_evidence digest_of profile_digest metadata_bytes metadata_marker_count profile_bytes
    is_same_components is_same_component is_arithmetic is_progressive_coding_process swaps_axes
same_inventory_approved = refl

same_output_approved : validate same_output ≡ success same_approved
unfolding validate
same_output_approved = rw small_file_accepted same_inventory_approved

validate-IsApproved_example : IsApproved same_output same_approved
validate-IsApproved_example = validate-IsApproved same_output same_approved same_output_approved

abbrev marker : ℕ → ℕ → ℕ → JpegMarkerReference
marker code offset size = record {
  marker_code = code;
  encoded_range = range offset size;
  payload_range = range offset size;
}

-- A definition of 258 in front of two scans.
abbrev restarting : JpegMarkerInventory
restarting = record small_inventory {
  markers = marker 0xDD 0 2 ∷ marker 0xDA 2 0 ∷ marker 0xDA 2 0 ∷ [];
}

restarting_constant : constant_restart_interval (1 ∷ 2 ∷ []) restarting ≡ success (some 258)
unfolding constant_restart_interval restart_interval_from byte_at is_contained_within
restarting_constant = refl

constant_restart_interval_scans_example :
    interval_behind (1 ∷ 2 ∷ []) (marker 0xDD 0 2 ∷ marker 0xDA 2 0 ∷ []) 0 ≡ 258
constant_restart_interval_scans_example =
    constant_restart_interval_scans (1 ∷ 2 ∷ []) restarting 258
      (marker 0xDD 0 2 ∷ marker 0xDA 2 0 ∷ []) [] (marker 0xDA 2 0) restarting_constant refl refl
