-- ===== src/Jpeg/Jumbf/Answers.antt =====
-- The classification of an inventory's markers always answers.
use jpg_spinner.Prelude.{
  ℕ, ◌+◌, ◌≤◌, ◌≡◌, ◌≢◌, refl, true, not, ◌||◌, List, [], ◌∷◌, Option, none, some, arith, length,
  ltb, ◌==◌, All,
}
use jpg_spinner.Jpeg.Bytes.Reads.{
  equal_at-Yields, copy_n-Yields, try_read_16-Yields, try_read_32-Yields,
}
use jpg_spinner.Jpeg.Bytes.{Bytes}
use jpg_spinner.Jpeg.Fragments.Boxes.{
  Steps, IsSteady, IsUnfinished, interrupt-Steps, step_fragment-Steps,
}
use jpg_spinner.Jpeg.Fragments.{JumbfState, initial, interrupt}
use jpg_spinner.Jpeg.Inventory.{JpegMarkerReference, end_of}
use jpg_spinner.Jpeg.Jumbf.{
  absent, read_envelope, step_marker, step_markers, conclude, classify_jumbf_envelope,
}
use jpg_spinner.Jpeg.Markers.{
  application_segment_11_marker_code, jpeg_xt_box_fragment_identifier, marker_payload_starts_with,
}
use jpg_spinner.Jpeg.Outcome.{
  Ensures, Yields-Ensures, success, Yields, yields, Yields-bind, Yields-if, Yields-weaken,
}

-- The payload lies in the span.
abbrev pub Holds : Bytes → JpegMarkerReference → Type 0
Holds bytes m = end_of m.payload_range ≤ length bytes

pub starts_with-Yields :
    (bytes : Bytes) (m : JpegMarkerReference) (code : ℕ) (identifier : Bytes)
    → Holds bytes m
    → Yields
        (λ b. b ≡ true → length identifier ≤ m.payload_range.length_bytes)
        (marker_payload_starts_with bytes m code identifier)
unfolding marker_payload_starts_with
starts_with-Yields bytes m code identifier h =
    Yields-if (not (m.marker_code == code) || ltb m.payload_range.length_bytes (length identifier))
      (λ _. yields (λ e. cc))
      λ long.
        Yields-weaken (λ b _ _. ground arith)
          (equal_at-Yields bytes m.payload_range.offset_bytes identifier (ground arith))

pub starts_with-Ensures :
    (bytes : Bytes) (m : JpegMarkerReference) (code : ℕ) (identifier : Bytes)
    → Holds bytes m
    → Ensures
        (λ b. b ≡ true → length identifier ≤ m.payload_range.length_bytes)
        (marker_payload_starts_with bytes m code identifier)
starts_with-Ensures bytes m code identifier h =
    Yields-Ensures (starts_with-Yields bytes m code identifier h)

module _ (bytes : Bytes) (s : JumbfState) (m : JpegMarkerReference) (h : Holds bytes m) where
  read_envelope-Steps :
      (a b c : Option ℕ)
      → 16 ≤ m.payload_range.length_bytes
      → IsUnfinished s.active_box
      → Steps (read_envelope bytes s m a b c)
  unfolding read_envelope
  read_envelope-Steps (some a) (some b) (some c) l u =
      Yields-bind (copy_n-Yields bytes (m.payload_range.offset_bytes + 8) 8 (omega arith))
        λ header e. step_fragment-Steps bytes s _ (record { inside = h; long = l; header = e }) u
  read_envelope-Steps _ _ _ l u = yields tt

  step_marker-Steps : IsUnfinished s.active_box → Steps (step_marker bytes s m)
  unfolding step_marker
  step_marker-Steps u =
      Yields-bind
        (starts_with-Yields bytes m application_segment_11_marker_code
          jpeg_xt_box_fragment_identifier h)
        λ is_fragment _.
          Yields-if (not is_fragment) (λ _. interrupt-Steps s s.active_box refl)
            λ _.
              Yields-if (ltb m.payload_range.length_bytes (8 + 8))
                (λ _. interrupt-Steps s s.active_box refl)
                λ l.
                  Yields-bind (try_read_16-Yields bytes (m.payload_range.offset_bytes + 2)) λ a _.
                    Yields-bind (try_read_32-Yields bytes (m.payload_range.offset_bytes + 4)) λ b _.
                      Yields-bind (try_read_32-Yields bytes (m.payload_range.offset_bytes + 8))
                        λ c _. read_envelope-Steps a b c (ground arith) u

step_markers-Yields :
    (bytes : Bytes) (s : Option JumbfState) (ms : List JpegMarkerReference)
    → IsSteady s
    → All (Holds bytes) ms
    → Yields (λ _. Unit {0}) (step_markers bytes s ms)
unfolding step_markers
step_markers-Yields bytes none ms v h = yields tt
step_markers-Yields bytes (some s) [] v h = yields tt
step_markers-Yields bytes (some s) (m ∷ ms) v h =
    Yields-bind (step_marker-Steps bytes s m h.0 v) λ s' v'. step_markers-Yields bytes s' ms v' h.1

-- Where every payload lies in the span, the classification answers: it neither reads outside of the
-- span nor fails.
pub classify_jumbf_envelope-Yields :
    (bytes : Bytes) (ms : List JpegMarkerReference)
    → All (Holds bytes) ms
    → Yields (λ _. Unit {0}) (classify_jumbf_envelope bytes ms)
unfolding classify_jumbf_envelope
classify_jumbf_envelope-Yields bytes ms h = step_markers-Yields bytes (some initial) ms tt h

step_marker_other :
    (bytes : Bytes) (s : JumbfState) (m : JpegMarkerReference)
    → m.marker_code ≢ application_segment_11_marker_code
    → step_marker bytes s m ≡ interrupt s s.active_box
unfolding step_marker marker_payload_starts_with
step_marker_other bytes s m ne = ground arith

step_markers_other :
    (bytes : Bytes) (ms : List JpegMarkerReference)
    → All (λ m. m.marker_code ≢ application_segment_11_marker_code) ms
    → step_markers bytes (some initial) ms ≡ success absent
unfolding step_markers conclude interrupt
step_markers_other bytes [] h = refl
step_markers_other bytes (m ∷ ms) h =
    rw (step_marker_other bytes initial m h.0) (step_markers_other bytes ms h.1)

-- Where no marker is an APP11 segment, the classification is that no JUMBF is present.
pub classify_jumbf_envelope_absent :
    (bytes : Bytes) (ms : List JpegMarkerReference)
    → All (λ m. m.marker_code ≢ application_segment_11_marker_code) ms
    → classify_jumbf_envelope bytes ms ≡ success absent
unfolding classify_jumbf_envelope
classify_jumbf_envelope_absent bytes ms h = step_markers_other bytes ms h
