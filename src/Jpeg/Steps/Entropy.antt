-- ===== src/Jpeg/Steps/Entropy.antt =====
-- A round within entropy-coded data keeps the invariant.
use jpg_spinner.Prelude.{ℕ, ◌+◌, ◌-◌, ◌≤◌, ◌<◌, ◌≡◌, refl, true, not, arith, length, leb, ◌==◌}
use jpg_spinner.Domain.Failure.{JpegResourceLimits}
use jpg_spinner.Jpeg.Bytes.Reads.{byte_at-Ensures, skip_marker_prefixes-Ensures}
use jpg_spinner.Jpeg.Bytes.{Bytes}
use jpg_spinner.Jpeg.Inventory.{range}
use jpg_spinner.Jpeg.Markers.{marker_prefix, stuffed_entropy_byte_code, is_restart_marker}
use jpg_spinner.Jpeg.Outcome.{Ensures, returns, refuses, Ensures-bind, Ensures-if}
use jpg_spinner.Jpeg.Segments.{ScanState}
use jpg_spinner.Jpeg.Steps.Consistent.{IsConsistent, IsNext, ranges_end}
use jpg_spinner.Jpeg.Steps.Marking.{
  Follows-mono, FollowRanges-concat, FollowRanges-mono, standalone-IsConsistent, restart-IsNeutral,
}
use jpg_spinner.Jpeg.Steps.{close_entropy, entropy_marker, step_entropy}

module _ (bytes : Bytes) (limits : JpegResourceLimits) (s : ScanState)
    (v : IsConsistent bytes limits s) where
  -- The cursor may move on within the span.
  moved-IsConsistent :
      (c : ℕ)
      → s.cursor ≤ c
      → c ≤ length bytes
      → IsConsistent bytes limits (record s { cursor = c })
  moved-IsConsistent c l h = record {
    walked = record {
      starts = v.walked.starts;
      follows = Follows-mono 0 s.cursor c s.markers v.walked.follows l;
      inside = h;
      ranges =
          FollowRanges-mono 0 (ranges_end s) _ s.entropy_coded_data_ranges v.walked.ranges
            (ground arith);
      reading = λ r. omega (arith, v.walked.reading r);
      segments = v.walked.segments;
      total = v.walked.total;
      bounded = v.walked.bounded;
    };
    counted = v.counted;
  }

  closed-IsConsistent :
      (code_offset : ℕ)
      → s.is_reading_entropy_coded_data ≡ true
      → s.cursor + 1 ≤ code_offset
      → code_offset < length bytes
      → IsConsistent bytes limits (close_entropy s code_offset)
  closed-IsConsistent code_offset r l h = record {
    walked = record {
      starts = v.walked.starts;
      follows = Follows-mono 0 s.cursor (code_offset - 1) s.markers v.walked.follows (omega arith);
      inside = omega arith;
      ranges =
          FollowRanges-concat 0 (ranges_end s) (code_offset - 1) s.entropy_coded_data_ranges
            (range s.entropy_coded_data_offset (s.cursor - s.entropy_coded_data_offset))
            v.walked.ranges (ground arith) (omega (arith, v.walked.reading r));
      reading = λ e. cc;
      segments = v.walked.segments;
      total = v.walked.total;
      bounded = v.walked.bounded;
    };
    counted = v.counted;
  }

  entropy_marker-Ensures :
      (code_offset : ℕ)
      → s.is_reading_entropy_coded_data ≡ true
      → s.cursor + 1 ≤ code_offset
      → Ensures (IsNext bytes limits s) (entropy_marker bytes s code_offset)
  unfolding entropy_marker
  entropy_marker-Ensures code_offset r l =
      Ensures-if (leb (length bytes) code_offset) (λ _. refuses refl)
        λ out.
          let before : code_offset < length bytes = ground arith in
          Ensures-bind (byte_at-Ensures bytes code_offset before) λ code _.
            Ensures-if (code == stuffed_entropy_byte_code)
              (λ _.
                returns
                  (moved-IsConsistent (code_offset + 1) (omega arith) (omega arith), omega arith))
              λ _.
                Ensures-if (is_restart_marker code)
                  (λ t. returns (
                    standalone-IsConsistent bytes limits s code code_offset v
                        (restart-IsNeutral code t) l before,
                    omega arith,
                  ))
                  (λ _. returns (closed-IsConsistent code_offset r l before, ground arith))

  pub step_entropy-Ensures :
      s.is_reading_entropy_coded_data ≡ true
      → s.cursor < length bytes
      → Ensures (IsNext bytes limits s) (step_entropy bytes s)
  unfolding step_entropy
  step_entropy-Ensures r h = Ensures-bind (byte_at-Ensures bytes s.cursor h) λ b _.
      Ensures-if (not (b == marker_prefix))
        (λ _. returns (moved-IsConsistent (s.cursor + 1) (omega arith) (omega arith), omega arith))
        λ _.
          Ensures-bind (skip_marker_prefixes-Ensures bytes (s.cursor + 1) (omega arith))
            λ code_offset p. entropy_marker-Ensures code_offset r p.0
