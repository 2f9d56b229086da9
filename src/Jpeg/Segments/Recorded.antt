-- ===== src/Jpeg/Segments/Recorded.antt =====
-- What recording a segment's metadata changes: the metadata inventory, within the span, and the
-- running total, within its limit.
use mathlib.Core.Path.{subst}
use jpg_spinner.Prelude.{
  ℕ, ◌+◌, ◌-◌, ◌≤◌, ◌≡◌, refl, ap, sym, ◌∙◌, not, ◌||◌, arith, length, ltb, if◌then◌else◌,
}
use jpg_spinner.Domain.Failure.{JpegResourceLimits}
use jpg_spinner.Jpeg.Bytes.{Bytes}
use jpg_spinner.Jpeg.Inventory.{JpegMarkerReference}
use jpg_spinner.Jpeg.Jumbf.Answers.{Holds}
use jpg_spinner.Jpeg.Markers.{is_metadata_marker}
use jpg_spinner.Jpeg.Outcome.{Ensures, returns, refuses, Ensures-bind, Ensures-if, Ensures-weaken}
use jpg_spinner.Jpeg.Segments.Inside.{AreInside, Keeps, recorders-Ensures}
use jpg_spinner.Jpeg.Segments.{ScanState, with_segments, account_metadata, record_metadata}

-- The share of a marker in the running total.
abbrev pub metadata_share : JpegMarkerReference → ℕ
metadata_share m = if is_metadata_marker m.marker_code then m.encoded_range.length_bytes else 0

pub record IsRecorded (n maximum : ℕ) (m : JpegMarkerReference) (s t : ScanState) : Type 0 where
  pub same : t ≡ record s {
    metadata_segments = t.metadata_segments;
    metadata_encoded_length_bytes = t.metadata_encoded_length_bytes;
  }
  pub total : t.metadata_encoded_length_bytes ≡ s.metadata_encoded_length_bytes + metadata_share m
  pub bounded : t.metadata_encoded_length_bytes ≤ maximum
  pub inside : AreInside n t.metadata_segments

account_metadata-Ensures :
    (limits : JpegResourceLimits) (m : JpegMarkerReference) (s : ScanState)
    → s.metadata_encoded_length_bytes ≤ limits.maximum_metadata_length_bytes
    → Ensures
        (λ t.
          (t ≡ record s { metadata_encoded_length_bytes = t.metadata_encoded_length_bytes })
          × (t.metadata_encoded_length_bytes ≡ s.metadata_encoded_length_bytes + metadata_share m)
          × (t.metadata_encoded_length_bytes ≤ limits.maximum_metadata_length_bytes))
        (account_metadata limits m s)
unfolding account_metadata
account_metadata-Ensures limits m s h =
    Ensures-if (not (is_metadata_marker m.marker_code)) (λ e. returns (refl, ground arith, h))
      λ e.
        Ensures-if
          (ltb limits.maximum_metadata_length_bytes s.metadata_encoded_length_bytes
            || ltb (limits.maximum_metadata_length_bytes - s.metadata_encoded_length_bytes)
                m.encoded_range.length_bytes)
          (λ _. refuses refl) (λ f. returns (refl, ground arith, ground arith))

recorded :
    (n maximum : ℕ) (m : JpegMarkerReference) (s t u : ScanState)
    → t ≡ record s { metadata_encoded_length_bytes = t.metadata_encoded_length_bytes }
    → t.metadata_encoded_length_bytes ≡ s.metadata_encoded_length_bytes + metadata_share m
    → t.metadata_encoded_length_bytes ≤ maximum
    → Keeps n t u
    → IsRecorded n maximum m s u
recorded n maximum m s t u e total bound q =
    let kept : u.metadata_encoded_length_bytes ≡ t.metadata_encoded_length_bytes =
      ap (λ (r : ScanState). r.metadata_encoded_length_bytes) q.0 in
    record {
      same =
          q.0
          ∙ ap (λ (r : ScanState). with_segments r u.metadata_segments) e
          ∙ ap
              (λ (k : ℕ). record s {
                metadata_segments = u.metadata_segments;
                metadata_encoded_length_bytes = k;
              })
              (sym kept);
      total = kept ∙ total;
      bounded = omega arith;
      inside = q.1;
    }

-- For a segment that lies in the span, and a state whose ranges lie in the span and whose total is
-- within the limit, recording ends by a structural error, or adds the segment's share to the
-- total, keeps the total within the limit and the recorded ranges within the span, and changes
-- nothing else.
pub record_metadata-Ensures :
    (bytes : Bytes) (limits : JpegResourceLimits) (m : JpegMarkerReference) (s : ScanState)
    → Holds bytes m
    → AreInside (length bytes) s.metadata_segments
    → s.metadata_encoded_length_bytes ≤ limits.maximum_metadata_length_bytes
    → Ensures
        (IsRecorded (length bytes) limits.maximum_metadata_length_bytes m s)
        (record_metadata bytes limits m s)
unfolding record_metadata
record_metadata-Ensures bytes limits m s h i b =
    Ensures-bind (account_metadata-Ensures limits m s b) λ t p.
      let e : t.metadata_segments ≡ s.metadata_segments =
        ap (λ (r : ScanState). r.metadata_segments) p.0 in
      Ensures-weaken
        (λ u q. recorded (length bytes) limits.maximum_metadata_length_bytes m s t u p.0 p.1 p.2 q)
        (recorders-Ensures bytes m t h (subst (AreInside (length bytes)) (sym e) i))
