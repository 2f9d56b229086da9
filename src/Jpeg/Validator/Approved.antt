-- ===== src/Jpeg/Validator/Approved.antt =====
-- What an approved output is.
use jpg_spinner.Jpeg.Validator.Parts.{collect_evidence_bytes, validate_inventory_lem}
use jpg_spinner.Jpeg.Validator.Frame.{IsPlannedFrame, broken_frame_rule-IsPlannedFrame}
use jpg_spinner.Jpeg.Validator.Tables.{AreCarriedOver, is_same_tables-AreCarriedOver}
use jpg_spinner.Domain.Planner.{swaps_axes}
use jpg_spinner.Jpeg.Inventory.{JpegMarkerInventory, trailing_data_range}
use jpg_spinner.Jpeg.Outcome.{Outcome, success, failure, out_of_bounds, out_of_fuel}
use jpg_spinner.Jpeg.OutputRules.{rule_of_scan_error}
use jpg_spinner.Jpeg.Output.{
  reject, constant_restart_interval, QuantizationTable, complete, ValidatedJpegOutput,
}
use jpg_spinner.Jpeg.Scanner.{scan}
use jpg_spinner.Jpeg.Validator.{Validation, validate_inventory, validate}
use jpg_spinner.Prelude.{ℕ, ◌≡◌, refl, true, false, some, List, arith}

-- The output that is approved, with what was observed of it.
pub record IsApproved (v : Validation) (o : ValidatedJpegOutput) : Type 0 where
  pub inventory : JpegMarkerInventory
  pub scanned : scan v.output v.limits ≡ success inventory
  pub whole : (trailing_data_range inventory).length_bytes ≡ 0
  pub frame : IsPlannedFrame v.plan v.source_inventory.frame_header inventory.frame_header
  pub interval : ℕ
  pub source_interval :
      constant_restart_interval v.source v.source_inventory ≡ success (some interval)
  pub output_interval : constant_restart_interval v.output inventory ≡ success (some interval)
  pub source_tables : List QuantizationTable
  pub output_tables : List QuantizationTable
  pub source_read : v.readers.read_jpeg_coding_parameters v.source true ≡ complete source_tables
  pub output_read : v.readers.read_jpeg_coding_parameters v.output false ≡ complete output_tables
  pub tables : AreCarriedOver (swaps_axes v.plan.transform) source_tables output_tables
  pub bytes : o.encoded_bytes ≡ v.output
  pub digest : v.readers.calculate_sha256_digest v.output ≡ some o.encoded_sha256
  pub properties : o.output_properties.dimensions ≡ inventory.frame_header.dimensions

validated_inventory :
    (v : Validation) (o : ValidatedJpegOutput)
    → validate v ≡ success o
    → (i : JpegMarkerInventory) × (scan v.output v.limits ≡ success i)
      × (validate_inventory v i ≡ success o)
unfolding validate
validated_inventory v o h = go (scan v.output v.limits) (ground arith)
  where
    go :
        (r : Outcome JpegMarkerInventory)
        → (elim r [
          | success inventory ↦ validate_inventory v inventory
          | failure error ↦ reject (rule_of_scan_error error.code)
          | out_of_bounds ↦ out_of_bounds
          | out_of_fuel ↦ out_of_fuel
        ])
          ≡ success o
        → (i : JpegMarkerInventory) × (r ≡ success i) × (validate_inventory v i ≡ success o)
    go (success i) h = (i, refl, h)
    go (failure error) h = absurd (ground arith)
    go out_of_bounds h = absurd (ground arith)
    go out_of_fuel h = absurd (ground arith)

-- An output that the validation approves is, byte for byte, the one that was given, with its digest; the scan accepts
-- it with no data behind its end; its dimensions are the planned ones, its sample precision and entropy coding
-- those of the source, its kind of scans the planned one, and its components the source's as the
-- transform leaves them, or for one component and no transform the source's own; source and output have the
-- same constant restart interval; and each entry of the quantization tables that the codec reads of the output is that of the
-- source's, at the mirrored place where the transform exchanges the axes.
pub validate-IsApproved :
    (v : Validation) (o : ValidatedJpegOutput) → validate v ≡ success o → IsApproved v o
validate-IsApproved v o h =
    let s = validated_inventory v o h in
    let f = validate_inventory_lem v s.0 o s.2 in
    let t = f.3 in
    let e = collect_evidence_bytes v s.0 t.5.0 o t.5.1 in
    record {
      inventory = s.0;
      scanned = s.1;
      whole = f.0;
      frame =
          broken_frame_rule-IsPlannedFrame v.plan v.source_inventory.frame_header s.0.frame_header
            f.1;
      interval = f.2.0;
      source_interval = f.2.1;
      output_interval = f.2.2;
      source_tables = t.0;
      output_tables = t.1;
      source_read = t.2;
      output_read = t.3;
      tables = is_same_tables-AreCarriedOver (swaps_axes v.plan.transform) t.0 t.1 t.4;
      bytes = e.0;
      digest = e.1;
      properties = e.2;
    }
