-- ===== src/Jpeg/Validator/Parts.antt =====
-- What the success of each part of a validation says.
use jpg_spinner.Domain.Failure.{
  restart_interval_preservation, ImageProcessingResult, JpegOutputValidationRule,
  quantization_table_preservation, no_unsupported_asset_bindings,
}
use jpg_spinner.Domain.Planner.{swaps_axes}
use jpg_spinner.Jpeg.Inventory.{JpegMarkerInventory, trailing_data_range}
use jpg_spinner.Jpeg.Outcome.{Outcome, success, failure, out_of_bounds, out_of_fuel, ◌>>=◌}
use jpg_spinner.Jpeg.OutputRules.{is_same_interval, broken_frame_rule, is_same_tables}
use jpg_spinner.Jpeg.Output.{
  reject, constant_restart_interval, QuantizationTable, complete, JpegOutputMetadataEvidence,
  ValidatedJpegOutput, DecodeOutcome,
}
use jpg_spinner.Jpeg.Validator.{
  Validation, digest_of, collect_evidence, read_tables, validate_tables, validate_metadata,
  validate_inventory,
}
use jpg_spinner.Prelude.{
  ℕ, ◌≡◌, refl, Bool, true, false, Option, none, some, List, arith, if◌then◌else◌, ap, ◌∙◌,
}

pub collect_evidence_bytes :
    (v : Validation) (i : JpegMarkerInventory) (e : JpegOutputMetadataEvidence)
    (o : ValidatedJpegOutput)
    → collect_evidence v i e ≡ success o
    → (o.encoded_bytes ≡ v.output)
      × (v.readers.calculate_sha256_digest v.output ≡ some o.encoded_sha256)
      × (o.output_properties.dimensions ≡ i.frame_header.dimensions)
      × (v.stops.at_end ≡ false)
unfolding collect_evidence digest_of
collect_evidence_bytes v i e o h = ground arith

read_tables_lem :
    (d : DecodeOutcome) (is_stopped : Bool) (tables : List QuantizationTable)
    → read_tables d is_stopped ≡ success tables
    → (d ≡ complete tables) × (is_stopped ≡ false)
unfolding read_tables
read_tables_lem d is_stopped tables h = ground arith

bind_success {ℓ κ} :
    {A : Type ℓ} {B : Type κ} (m : Outcome A) (f : A → Outcome B) (b : B)
    → (m >>= f) ≡ success b
    → (a : A) × (m ≡ success a) × (f a ≡ success b)
bind_success (success a) f b h = (a, refl, h)
bind_success (failure e) f b h = absurd (ground arith)
bind_success out_of_bounds f b h = absurd (ground arith)
bind_success out_of_fuel f b h = absurd (ground arith)

module _ (v : Validation) (i : JpegMarkerInventory) (o : ValidatedJpegOutput) where
  -- The tables that both readings gave, and what the evidence says.
  abbrev HasTables : Type 0
  HasTables =
      (source_tables : List QuantizationTable) × (output_tables : List QuantizationTable)
      × (v.readers.read_jpeg_coding_parameters v.source true ≡ complete source_tables)
      × (v.readers.read_jpeg_coding_parameters v.output false ≡ complete output_tables)
      × (is_same_tables (swaps_axes v.plan.transform) source_tables output_tables ≡ true)
      × ((e : JpegOutputMetadataEvidence) × (collect_evidence v i e ≡ success o))

  validate_tables_lem :
      (e : JpegOutputMetadataEvidence) → validate_tables v i e ≡ success o → HasTables
  unfolding validate_tables
  validate_tables_lem e h =
      let s =
        bind_success
          (read_tables (v.readers.read_jpeg_coding_parameters v.source true) v.stops.behind_source)
          (λ source_tables.
            read_tables (v.readers.read_jpeg_coding_parameters v.output false) v.stops.behind_output
            >>= λ output_tables.
                if is_same_tables (swaps_axes v.plan.transform) source_tables output_tables
                then collect_evidence v i e
                else reject quantization_table_preservation)
          o h in
      let t =
        bind_success
          (read_tables (v.readers.read_jpeg_coding_parameters v.output false) v.stops.behind_output)
          (λ output_tables.
            if is_same_tables (swaps_axes v.plan.transform) s.0 output_tables
            then collect_evidence v i e
            else reject quantization_table_preservation)
          o s.2 in
      let last = t.2 in
      (
        s.0,
        t.0,
        (read_tables_lem (v.readers.read_jpeg_coding_parameters v.source true) v.stops.behind_source
            s.0 s.1).0,
        (read_tables_lem (v.readers.read_jpeg_coding_parameters v.output false)
            v.stops.behind_output t.0 t.1).0,
        ground arith,
        (e, ground arith),
      )

  validate_metadata_lem : validate_metadata v i ≡ success o → HasTables
  unfolding validate_metadata
  validate_metadata_lem h =
      go (v.readers.validate_reconciled_metadata v.source v.source_inventory v.output i v.plan) h
    where
      go :
          (r : ImageProcessingResult JpegOutputMetadataEvidence)
          → (elim r [
            | ImageProcessingResult.failure error ↦ failure error
            | ImageProcessingResult.success evidence ↦
                if v.readers.validate_source_asset_bindings v.output i
                then validate_tables v i evidence
                else reject no_unsupported_asset_bindings
          ])
            ≡ success o
          → HasTables
      go (ImageProcessingResult.failure error) h = absurd (ground arith)
      go (ImageProcessingResult.success evidence) h = validate_tables_lem evidence (ground arith)

  -- The rules of the frame, and the interval of both files.
  abbrev HasFrame : Type 0
  HasFrame =
      ((trailing_data_range i).length_bytes ≡ 0)
      × (broken_frame_rule v.plan v.source_inventory.frame_header i.frame_header ≡ none)
      × ((w : ℕ) × (constant_restart_interval v.source v.source_inventory ≡ success (some w))
          × (constant_restart_interval v.output i ≡ success (some w)))
      × HasTables

  abbrev compare_intervals : Option ℕ → Option ℕ → Outcome ValidatedJpegOutput
  compare_intervals source_interval output_interval =
      if is_same_interval source_interval output_interval
      then validate_metadata v i
      else reject restart_interval_preservation

  intervals_lem :
      (source_interval output_interval : Option ℕ)
      → compare_intervals source_interval output_interval ≡ success o
      → ((w : ℕ) × (source_interval ≡ some w) × (output_interval ≡ some w))
        × (validate_metadata v i ≡ success o)
  intervals_lem (some a) (some b) h = ((a, refl, ground arith), ground arith)
  intervals_lem none b h = absurd (ground arith)
  intervals_lem (some a) none h = absurd (ground arith)

  abbrev behind_rules : Outcome ValidatedJpegOutput
  behind_rules = constant_restart_interval v.source v.source_inventory >>= λ source_interval.
      constant_restart_interval v.output i >>= λ output_interval.
      compare_intervals source_interval output_interval

  behind_rules_lem :
      behind_rules ≡ success o
      → ((w : ℕ) × (constant_restart_interval v.source v.source_inventory ≡ success (some w))
          × (constant_restart_interval v.output i ≡ success (some w)))
        × HasTables
  behind_rules_lem h =
      let s =
        bind_success (constant_restart_interval v.source v.source_inventory)
          (λ source_interval. constant_restart_interval v.output i >>= λ output_interval.
            compare_intervals source_interval output_interval)
          o h in
      let t =
        bind_success (constant_restart_interval v.output i)
          (λ output_interval. compare_intervals s.0 output_interval) o s.2 in
      let same = intervals_lem s.0 t.0 t.2 in
      (
        (same.0.0, s.1 ∙ ap success same.0.1, t.1 ∙ ap success same.0.2),
        validate_metadata_lem same.1,
      )

  pub validate_inventory_lem : validate_inventory v i ≡ success o → HasFrame
  unfolding validate_inventory
  validate_inventory_lem h =
      let r =
        go (broken_frame_rule v.plan v.source_inventory.frame_header i.frame_header)
          (ground arith) in
      (ground arith, r.0, r.1.0, r.1.1)
    where
      go :
          (r : Option JpegOutputValidationRule)
          → (elim r [ some rule ↦ reject rule | none ↦ behind_rules ]) ≡ success o
          → (r ≡ none)
            × (((w : ℕ) × (constant_restart_interval v.source v.source_inventory ≡ success (some w))
                  × (constant_restart_interval v.output i ≡ success (some w)))
                × HasTables)
      go (some rule) h = absurd (ground arith)
      go none h = (refl, behind_rules_lem h)
