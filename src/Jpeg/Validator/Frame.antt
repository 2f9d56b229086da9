-- ===== src/Jpeg/Validator/Frame.antt =====
-- The frame of an output that breaks no rule.
use jpg_spinner.Domain.Geometry.{
  is_identity, JpegComponentDescription, OutputScanOrganization, preserve_source, sequential_dct,
  progressive_dct,
}
use jpg_spinner.Domain.Planner.{JpegTransformPlan, swaps_axes}
use jpg_spinner.Jpeg.Inventory.{JpegFrameHeader}
use jpg_spinner.Jpeg.Markers.{is_progressive_coding_process}
use jpg_spinner.Jpeg.OutputRules.{
  is_progressive_planned, is_same_component, is_same_components, expected_components,
  broken_frame_rule,
}
use jpg_spinner.Jpeg.Output.{is_arithmetic}
use jpg_spinner.Prelude.{
  ℕ, Bool, false, ◌≢◌, ◌≡◌, refl, true, none, List, [], ◌∷◌, length, ◌⊎◌, inl, inr, arith,
}

is_same_component_eq : (a b : JpegComponentDescription) → is_same_component a b ≡ true → a ≡ b
unfolding is_same_component
is_same_component_eq a b h = ground arith

is_same_components_eq :
    (a b : List JpegComponentDescription) → is_same_components a b ≡ true → a ≡ b
unfolding is_same_components
is_same_components_eq [] [] h = refl
is_same_components_eq (x ∷ a) (y ∷ b) h =
    ground
      (arith, is_same_component_eq x y (ground arith), is_same_components_eq a b (ground arith))
is_same_components_eq _ _ h = absurd (ground arith)

-- The output's component keeps the source's identifier and table. Where it is the only one its factors
-- are 1, and else they are the source's, exchanged where the transform exchanges the axes.
pub record IsMoved (count : ℕ) (exchanges_axes : Bool) (source output : JpegComponentDescription)
    : Type 0 where
  pub identifier : output.component_identifier ≡ source.component_identifier
  pub selector : output.quantization_table_selector ≡ source.quantization_table_selector
  pub alone :
      (count ≢ 1)
      ⊎ ((output.horizontal_sampling_factor ≡ 1) × (output.vertical_sampling_factor ≡ 1))
  pub kept :
      ((count ≡ 1) ⊎ (exchanges_axes ≡ true))
      ⊎ ((output.horizontal_sampling_factor ≡ source.horizontal_sampling_factor)
          × (output.vertical_sampling_factor ≡ source.vertical_sampling_factor))
  pub exchanged :
      ((count ≡ 1) ⊎ (exchanges_axes ≡ false))
      ⊎ ((output.horizontal_sampling_factor ≡ source.vertical_sampling_factor)
          × (output.vertical_sampling_factor ≡ source.horizontal_sampling_factor))

abbrev pub AreMoved :
    ℕ → Bool → List JpegComponentDescription → List JpegComponentDescription → Type 0
AreMoved count exchanges_axes [] [] = Unit
AreMoved count exchanges_axes (a ∷ xs) (b ∷ ys) =
    IsMoved count exchanges_axes a b × AreMoved count exchanges_axes xs ys
AreMoved count exchanges_axes _ _ = ⊥

is_same_components-AreMoved :
    (count : ℕ) (exchanges_axes : Bool) (source output : List JpegComponentDescription)
    → is_same_components output (expected_components count exchanges_axes source) ≡ true
    → AreMoved count exchanges_axes source output
unfolding is_same_components is_same_component
is_same_components-AreMoved count exchanges_axes [] [] h = tt
is_same_components-AreMoved count exchanges_axes (a ∷ xs) (b ∷ ys) h = (
  record {
    identifier = ground arith;
    selector = ground arith;
    alone = ground arith;
    kept = ground arith;
    exchanged = ground arith;
  },
  is_same_components-AreMoved count exchanges_axes xs ys (ground arith),
)
is_same_components-AreMoved count exchanges_axes [] (b ∷ ys) h = absurd (ground arith)
is_same_components-AreMoved count exchanges_axes (a ∷ xs) [] h = absurd (ground arith)

-- The kind of scans that the plan asks for.
abbrev pub IsPlannedKind : OutputScanOrganization → JpegFrameHeader → JpegFrameHeader → Type 0
IsPlannedKind progressive_dct source frame =
    is_progressive_coding_process frame.coding_process ≡ true
IsPlannedKind sequential_dct source frame =
    is_progressive_coding_process frame.coding_process ≡ false
IsPlannedKind preserve_source source frame =
    is_progressive_coding_process frame.coding_process
    ≡ is_progressive_coding_process source.coding_process

is_progressive_planned-IsPlannedKind :
    (organization : OutputScanOrganization) (source frame : JpegFrameHeader)
    → is_progressive_coding_process frame.coding_process
      ≡ is_progressive_planned organization source.coding_process
    → IsPlannedKind organization source frame
is_progressive_planned-IsPlannedKind progressive_dct source frame e = e
is_progressive_planned-IsPlannedKind sequential_dct source frame e = e
is_progressive_planned-IsPlannedKind preserve_source source frame e = e

-- The frame that the plan and the source ask for.
pub record IsPlannedFrame (plan : JpegTransformPlan) (source frame : JpegFrameHeader) : Type 0 where
  pub dimensions : frame.dimensions ≡ plan.output_dimensions
  pub precision : frame.sample_precision_bits ≡ source.sample_precision_bits
  pub components :
      AreMoved
        (length source.components)
        (swaps_axes plan.transform)
        source.components
        frame.components
      ⊎ ((length source.components ≡ 1)
          × (is_identity plan.transform ≡ true)
          × (frame.components ≡ source.components))
  pub progressive : IsPlannedKind plan.output_scan_organization source frame
  pub arithmetic : is_arithmetic frame.coding_process ≡ is_arithmetic source.coding_process

module _ (plan : JpegTransformPlan) (source frame : JpegFrameHeader)
    (h : broken_frame_rule plan source frame ≡ none) where
  frame_dimensions : frame.dimensions ≡ plan.output_dimensions
  unfolding broken_frame_rule
  frame_dimensions = ground arith

  frame_components :
      (is_same_components frame.components (
          expected_components
            (length source.components)
            (swaps_axes plan.transform)
            source.components)
        ≡ true)
      ⊎ ((length source.components ≡ 1)
          × (is_identity plan.transform ≡ true)
          × (is_same_components frame.components source.components ≡ true))
  unfolding broken_frame_rule
  frame_components = ground arith

  pub broken_frame_rule-IsPlannedFrame : IsPlannedFrame plan source frame
  unfolding broken_frame_rule
  broken_frame_rule-IsPlannedFrame = record {
    dimensions = frame_dimensions;
    precision = ground arith;
    components = elim frame_components [
      | inl e ↦ inl (
          is_same_components-AreMoved (length source.components) (swaps_axes plan.transform)
            source.components frame.components e)
      | inr e ↦ inr (e.0, e.1, is_same_components_eq frame.components source.components e.2)
    ];
    progressive =
        is_progressive_planned-IsPlannedKind plan.output_scan_organization source frame
          (ground arith);
    arithmetic = ground arith;
  }
