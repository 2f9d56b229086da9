-- ===== src/Jpeg/Steps/Rounds.antt =====
-- One round of the walk keeps the invariant, comes nearer to the end or finishes soundly.
use jpg_spinner.Prelude.{
  ℕ, ◌+◌, ◌≤◌, ◌<◌, ◌≡◌, refl, false, not, ◌||◌, ◌++◌, [], ◌∷◌, arith, length, leb, ◌==◌,
}
use jpg_spinner.Domain.Failure.{JpegResourceLimits}
use jpg_spinner.Jpeg.Bytes.Reads.{
  byte_at-Ensures, skip_marker_prefixes-Ensures, try_read_16-Ensures,
}
use jpg_spinner.Jpeg.Bytes.{Bytes}
use jpg_spinner.Jpeg.Markers.{
  marker_prefix, stuffed_entropy_byte_code, end_of_image_marker_code, start_of_image_marker_code,
  temporary_marker_code, is_restart_marker,
}
use jpg_spinner.Jpeg.Outcome.{Ensures, returns, refuses, Ensures-bind, Ensures-if}
use jpg_spinner.Jpeg.Segments.{ScanState}
use jpg_spinner.Jpeg.Steps.Consistent.{IsConsistent, IsNext}
use jpg_spinner.Jpeg.Steps.Entropy.{step_entropy-Ensures}
use jpg_spinner.Jpeg.Steps.Finish.{end_of_image-Ensures}
use jpg_spinner.Jpeg.Steps.Marking.{standalone-IsConsistent, temporary-IsNeutral}
use jpg_spinner.Jpeg.Steps.Segment.{step_segment-Ensures}
use jpg_spinner.Jpeg.Steps.{
  standalone, finish_image, marker_code, marker_behind_fill, step_marker, step,
}

module _ (bytes : Bytes) (limits : JpegResourceLimits) (s : ScanState)
    (v : IsConsistent bytes limits s) where
  finished_by :
      (code code_offset : ℕ)
      → code ≡ end_of_image_marker_code
      → s.is_reading_entropy_coded_data ≡ false
      → s.cursor + 1 ≤ code_offset
      → code_offset < length bytes
      → Ensures (IsNext bytes limits s) (
          finish_image bytes
            (record s {
              markers = s.markers ++ standalone code code_offset ∷ [];
              cursor = code_offset + 1;
            })
            code_offset
            s.frame_header)
  finished_by code code_offset e out l h =
      rw e (end_of_image-Ensures bytes limits s code_offset v out l h)

  temporary_by :
      (code code_offset : ℕ)
      → code ≡ temporary_marker_code
      → s.cursor + 1 ≤ code_offset
      → code_offset < length bytes
      → IsConsistent bytes limits (record s {
        markers = s.markers ++ standalone code code_offset ∷ [];
        cursor = code_offset + 1;
      })
  temporary_by code code_offset e l h = rw e (
      standalone-IsConsistent bytes limits s temporary_marker_code code_offset v temporary-IsNeutral
        l h)

  marker_code-Ensures :
      (code code_offset : ℕ)
      → s.is_reading_entropy_coded_data ≡ false
      → s.cursor + 1 ≤ code_offset
      → code_offset < length bytes
      → Ensures (IsNext bytes limits s) (marker_code bytes limits s code_offset code)
  unfolding marker_code
  marker_code-Ensures code code_offset out l h =
      Ensures-if (code == stuffed_entropy_byte_code) (λ _. refuses refl)
        λ _.
          Ensures-if (code == end_of_image_marker_code)
            (λ e. finished_by code code_offset (ground arith) out l h)
            λ _.
              Ensures-if (code == start_of_image_marker_code || is_restart_marker code)
                (λ _. refuses refl)
                λ _.
                  Ensures-if (code == temporary_marker_code)
                    (λ e. returns (temporary_by code code_offset (ground arith) l h, omega arith))
                    λ _. Ensures-bind (try_read_16-Ensures bytes (code_offset + 1)) λ declared _.
                      step_segment-Ensures bytes limits s code code_offset declared v out l h

  step_marker-Ensures :
      s.is_reading_entropy_coded_data ≡ false
      → s.cursor < length bytes
      → Ensures (IsNext bytes limits s) (step_marker bytes limits s)
  unfolding step_marker marker_behind_fill
  step_marker-Ensures out h = Ensures-bind (byte_at-Ensures bytes s.cursor h) λ b _.
      Ensures-if (not (b == marker_prefix)) (λ _. refuses refl)
        λ _.
          Ensures-bind (skip_marker_prefixes-Ensures bytes (s.cursor + 1) (omega arith))
            λ code_offset p.
              Ensures-if (leb (length bytes) code_offset) (λ _. refuses refl)
                λ inside.
                  let before : code_offset < length bytes = ground arith in
                  Ensures-bind (byte_at-Ensures bytes code_offset before)
                    λ code _. marker_code-Ensures code code_offset out p.0 before

-- From a consistent state whose cursor is inside of the span, a round ends in an error of the
-- structural stage, in a consistent state with a smaller measure (the bytes left, and whether
-- entropy-coded data is being read), or in a sound inventory.
pub step-Ensures :
    (bytes : Bytes) (limits : JpegResourceLimits) (s : ScanState)
    → IsConsistent bytes limits s
    → s.cursor < length bytes
    → Ensures (IsNext bytes limits s) (step bytes limits s)
unfolding step
step-Ensures bytes limits s v h =
    Ensures-if s.is_reading_entropy_coded_data (λ r. step_entropy-Ensures bytes limits s v r h)
      (λ r. step_marker-Ensures bytes limits s v r h)
