-- ===== src/Jpeg/Scanner/Total.antt =====
-- The scan as a whole: it always ends by an inventory that is sound or by a structural error.
use jpg_spinner.Prelude.{
  true, ◌≡◌, List, ◌∷◌, ◌++◌, ℕ, zero, suc, ◌*◌, ◌≤◌, ◌<◌, refl, not, [], arith, length, ltb, leb,
  ◌==◌,
}
use jpg_spinner.Domain.Failure.{JpegResourceLimits}
use jpg_spinner.Jpeg.Bytes.Reads.{byte_at-Ensures}
use jpg_spinner.Jpeg.Bytes.{Bytes}
use jpg_spinner.Jpeg.Inventory.Ranges.{is_contained_within_iff}
use jpg_spinner.Jpeg.Inventory.{
  JpegMarkerInventory, JpegMarkerReference, end_of, is_contained_within, trailing_data_range,
}
use jpg_spinner.Jpeg.Markers.{
  marker_prefix, start_of_image_marker_code, end_of_image_marker_code, is_metadata_marker,
  supported_coding_process_for,
}
use jpg_spinner.Jpeg.Outcome.{Ensures-weaken, Ensures, returns, refuses, Ensures-bind, Ensures-if}
use jpg_spinner.Jpeg.Scanner.{scan_loop, initial_state, scan}
use jpg_spinner.Jpeg.Segments.{ScanState}
use jpg_spinner.Jpeg.Steps.Consistent.{IsConsistent, IsSound, measure, end_of_image_at}
use jpg_spinner.Jpeg.Steps.Rounds.{step-Ensures}
use jpg_spinner.Jpeg.Steps.{advanced, finished}

-- Fuel of the measure is enough, since every round comes nearer to the end.
scan_loop-Ensures :
    (fuel : ℕ) (bytes : Bytes) (limits : JpegResourceLimits) (s : ScanState)
    → IsConsistent bytes limits s
    → measure bytes s < fuel
    → Ensures (IsSound bytes limits) (scan_loop fuel bytes limits s)
unfolding scan_loop
scan_loop-Ensures zero bytes limits s v m = elim m [ ]
scan_loop-Ensures (suc fuel) bytes limits s v m =
    Ensures-if (leb (length bytes) s.cursor) (λ _. refuses refl)
      λ inside. Ensures-bind (step-Ensures bytes limits s v (ground arith)) (elim [
        | advanced t ↦ λ n. scan_loop-Ensures fuel bytes limits t n.0 (omega (arith, n.1))
        | finished i ↦ λ sound. returns sound
      ])

pub initial-IsConsistent :
    (bytes : Bytes) (limits : JpegResourceLimits)
    → 2 ≤ length bytes
    → IsConsistent bytes limits initial_state
unfolding is_metadata_marker supported_coding_process_for
initial-IsConsistent bytes limits h = record {
  walked = record {
    starts = ([], refl);
    follows = (omega arith, omega arith, refl, omega arith);
    inside = h;
    ranges = omega arith;
    reading = λ e. cc;
    segments = record { exif = tt; standard_xmp = tt; icc = tt; extended_xmp = tt };
    total = refl;
    bounded = omega arith;
  };
  counted = (refl, (refl, refl));
}

-- On any bytes and limits, the scan ends by an error of the structural stage or by an inventory
-- that is sound for them: its markers run from SOI to EOI one behind the other within the bytes,
-- its entropy-coded and metadata ranges lie within them, its totals are those of its markers and
-- within the limits, it has one supported frame and at least one scan, its ICC chunks state their
-- count and are numbered 1, 2, …, up to it, and its Extended XMP chunks, if any, state one
-- identifier and one length and stand one behind the other from 0 to that length. It never reads
-- outside of the bytes, and its fuel is enough.
pub scan-Ensures :
    (bytes : Bytes) (limits : JpegResourceLimits)
    → Ensures (IsSound bytes limits) (scan bytes limits)
unfolding scan
scan-Ensures bytes limits =
    Ensures-if (ltb limits.maximum_encoded_file_length_bytes (length bytes)) (λ _. refuses refl)
      λ _.
        Ensures-if (ltb (length bytes) 2) (λ _. refuses refl)
          λ two. Ensures-bind (byte_at-Ensures bytes 0 (ground arith)) λ first _.
            Ensures-if (not (first == marker_prefix)) (λ _. refuses refl)
              λ _. Ensures-bind (byte_at-Ensures bytes 1 (ground arith)) λ second _.
                Ensures-if (not (second == start_of_image_marker_code)) (λ _. refuses refl)
                  λ _.
                    scan_loop-Ensures (2 * length bytes) bytes limits initial_state
                      (initial-IsConsistent bytes limits (ground arith)) (ground arith)

-- The inventory's markers end in an EOI marker, and its trailing range runs from that marker's end
-- to the end of the `n` bytes.
abbrev pub IsBehindImage : ℕ → JpegMarkerInventory → Type 0
IsBehindImage n i =
    (rest : List JpegMarkerReference) × (last : JpegMarkerReference) × (i.markers
      ≡ rest ++ last ∷ [])
    × (last.marker_code ≡ end_of_image_marker_code)
    × ((trailing_data_range i).offset_bytes ≡ end_of last.encoded_range)
    × (end_of (trailing_data_range i) ≡ n)
    × (is_contained_within (trailing_data_range i) n ≡ true)

-- On any bytes and limits, the scan ends by an error of the structural stage, or by an inventory
-- whose last marker is an EOI marker and whose trailing range is contained within the bytes, starts
-- where that marker ends and reaches to the end of the bytes.
pub scan-trailing_data_range :
    (bytes : Bytes) (limits : JpegResourceLimits)
    → Ensures (IsBehindImage (length bytes)) (scan bytes limits)
unfolding trailing_data_range
scan-trailing_data_range bytes limits = Ensures-weaken reaches (scan-Ensures bytes limits)
  where
    reaches : (i : JpegMarkerInventory) → IsSound bytes limits i → IsBehindImage (length bytes) i
    reaches i sound =
        let (rest, whole) = sound.ends in
        let reach : end_of (trailing_data_range i) ≡ length bytes =
          omega (arith, sound.source, sound.inside) in
        (
          rest,
          end_of_image_at i.end_of_image_marker_offset_bytes,
          whole,
          refl,
          refl,
          reach,
          (is_contained_within_iff (trailing_data_range i) (length bytes)).1 (omega arith),
        )
