-- ===== src/Jpeg/Steps/Finish.antt =====
-- At the end of the image: an inventory that is returned is sound.
use mathlib.Core.Path.{subst}
use jpg_spinner.Prelude.{
  ℕ, ◌+◌, ◌-◌, ◌≤◌, ◌<◌, ◌≡◌, refl, ap, true, false, not, List, [], ◌∷◌, ◌++◌, Option, none, some,
  arith, length, ◌==◌,
}
use jpg_spinner.Domain.Failure.{JpegResourceLimits}
use jpg_spinner.Jpeg.Bytes.{Bytes}
use jpg_spinner.Jpeg.IccChunks.Complete.{validate_icc_All, validate_icc-IsProfile}
use jpg_spinner.Jpeg.IccChunks.{validate_and_order_icc_profile_chunks}
use jpg_spinner.Jpeg.Inventory.{
  JpegFrameHeader, JpegMarkerReference, JpegMetadataSegmentInventory, range,
}
use jpg_spinner.Jpeg.Jumbf.Answers.{classify_jumbf_envelope-Yields}
use jpg_spinner.Jpeg.Jumbf.{
  JumbfEnvelopeClassification, absent, unsupported_jumbf, c2pa_manifest_store, malformed,
}
use jpg_spinner.Jpeg.Markers.{end_of_image_marker_code}
use jpg_spinner.Jpeg.Outcome.{
  Yields-Ensures, Ensures, returns, refuses, Ensures-bind, Ensures-if, Ensures-weaken,
}
use jpg_spinner.Jpeg.Segments.Inside.{AreInside}
use jpg_spinner.Jpeg.Segments.{ScanState}
use jpg_spinner.Jpeg.Steps.Consistent.{
  IsConsistent, IsNext, FrameCounted, count_frames, end_of_image_at,
}
use jpg_spinner.Jpeg.Steps.Marking.{
  Follows-Holds, Follows-mono, standalone-IsConsistent, end_of_image-IsNeutral, FollowRanges-mono,
}
use jpg_spinner.Jpeg.Steps.{
  Progress, advanced, finished, standalone, conclude, accept_metadata, finish_image,
}
use jpg_spinner.Jpeg.XmpChunks.Cover.{validate_xmp_All, validate_xmp-IsPacket}
use jpg_spinner.Jpeg.XmpChunks.{validate_and_order_extended_xmp_chunks}

-- The chunks as the two validations hand them on.
abbrev ordered_segments : JpegMetadataSegmentInventory → JpegMetadataSegmentInventory
ordered_segments m = record m {
  icc_profile_chunks = (validate_and_order_icc_profile_chunks m.icc_profile_chunks).1;
  extended_xmp_chunks = (validate_and_order_extended_xmp_chunks m.extended_xmp_chunks).1;
}

-- The state behind the end-of-image marker.
record IsEnded (s : ScanState) (code_offset : ℕ) : Type 0 where
  last :
      (rest : List JpegMarkerReference) × (s.markers
        ≡ rest ++ end_of_image_at (code_offset - 1) ∷ [])
  at : s.cursor ≡ code_offset + 1
  behind : 1 ≤ code_offset
  outside : s.is_reading_entropy_coded_data ≡ false

module _ (bytes : Bytes) (limits : JpegResourceLimits) (s : ScanState) (header : JpegFrameHeader)
    (code_offset : ℕ) (v : IsConsistent bytes limits s) (e : IsEnded s code_offset)
    (framed : s.frame_header ≡ some header) (scanned : (s.scan_count == 0) ≡ false)
    (icc : (validate_and_order_icc_profile_chunks s.metadata_segments.icc_profile_chunks).0 ≡ true)
    (xmp : (validate_and_order_extended_xmp_chunks s.metadata_segments.extended_xmp_chunks).0
      ≡ true) where
  ordered-AreInside : AreInside (length bytes) (ordered_segments s.metadata_segments)
  ordered-AreInside = record {
    exif = v.walked.segments.exif;
    standard_xmp = v.walked.segments.standard_xmp;
    icc = validate_icc_All _ s.metadata_segments.icc_profile_chunks icc v.walked.segments.icc;
    extended_xmp =
        validate_xmp_All _ s.metadata_segments.extended_xmp_chunks xmp
          v.walked.segments.extended_xmp;
  }

  conclude-Ensures :
      (c : JumbfEnvelopeClassification)
      → Ensures
          (IsNext bytes limits s)
          (conclude bytes s header code_offset (ordered_segments s.metadata_segments) c)
  unfolding conclude
  conclude-Ensures malformed = refuses refl
  conclude-Ensures c2pa_manifest_store = refuses refl
  conclude-Ensures unsupported_jumbf = refuses refl
  conclude-Ensures absent = returns (record {
    source = refl;
    starts = v.walked.starts;
    ends = e.last;
    follows =
        Follows-mono 0 s.cursor (code_offset - 1 + 2) s.markers v.walked.follows
          (omega (arith, e.at, e.behind));
    inside = omega (arith, v.walked.inside, e.at, e.behind);
    ranges =
        FollowRanges-mono 0 s.cursor (code_offset - 1 + 2) s.entropy_coded_data_ranges
          (rw e.outside at v.walked.ranges) (omega (arith, e.at, e.behind));
    segments = ordered-AreInside;
    total = v.walked.total;
    bounded = v.walked.bounded;
    scans = (v.counted.0, ground arith);
    frame = subst (FrameCounted limits s.scan_count (count_frames s.markers)) framed v.counted.1;
    icc = validate_icc-IsProfile s.metadata_segments.icc_profile_chunks icc;
    extended_xmp = validate_xmp-IsPacket s.metadata_segments.extended_xmp_chunks xmp;
  })

module _ (bytes : Bytes) (limits : JpegResourceLimits) (s : ScanState) (code_offset : ℕ)
    (v : IsConsistent bytes limits s) (e : IsEnded s code_offset) where
  accept_metadata-Ensures :
      (header : JpegFrameHeader)
      → s.frame_header ≡ some header
      → (s.scan_count == 0) ≡ false
      → Ensures (IsNext bytes limits s) (accept_metadata bytes s header code_offset)
  unfolding accept_metadata
  accept_metadata-Ensures header framed scanned =
      Ensures-if
        (not (validate_and_order_icc_profile_chunks s.metadata_segments.icc_profile_chunks).0)
        (λ _. refuses refl)
        λ icc.
          Ensures-if
            (not (validate_and_order_extended_xmp_chunks s.metadata_segments.extended_xmp_chunks).0)
            (λ _. refuses refl)
            λ xmp.
              Ensures-bind
                (Yields-Ensures (
                  classify_jumbf_envelope-Yields bytes s.markers
                    (Follows-Holds bytes 0 s.cursor s.markers v.walked.follows v.walked.inside)))
                λ c _.
                  conclude-Ensures bytes limits s header code_offset v e framed scanned
                    (ground arith) (ground arith) c

  finish_image-Ensures :
      (header : Option JpegFrameHeader)
      → s.frame_header ≡ header
      → Ensures (IsNext bytes limits s) (finish_image bytes s code_offset header)
  unfolding finish_image
  finish_image-Ensures none f = refuses refl
  finish_image-Ensures (some header) f =
      Ensures-if (s.scan_count == 0) (λ _. refuses refl)
        (λ scanned. accept_metadata-Ensures header f scanned)

-- An end-of-image marker outside of entropy-coded data ends the walk soundly, or in an error.
pub end_of_image-Ensures :
    (bytes : Bytes) (limits : JpegResourceLimits) (s : ScanState) (code_offset : ℕ)
    → IsConsistent bytes limits s
    → s.is_reading_entropy_coded_data ≡ false
    → s.cursor + 1 ≤ code_offset
    → code_offset < length bytes
    → Ensures (IsNext bytes limits s) (
        finish_image bytes
          (record s {
            markers = s.markers ++ standalone end_of_image_marker_code code_offset ∷ [];
            cursor = code_offset + 1;
          })
          code_offset
          s.frame_header)
end_of_image-Ensures bytes limits s code_offset v r l h = Ensures-weaken finished_next (
    finish_image-Ensures bytes limits t code_offset
      (standalone-IsConsistent bytes limits s end_of_image_marker_code code_offset v
        end_of_image-IsNeutral l h)
      (record {
        last = (s.markers, ap (λ (k : ℕ). s.markers ++ two_bytes k ∷ []) (omega arith));
        at = refl;
        behind = omega arith;
        outside = r;
      })
      s.frame_header refl)
  where
    t : ScanState
    t = record s {
      markers = s.markers ++ standalone end_of_image_marker_code code_offset ∷ [];
      cursor = code_offset + 1;
    }

    two_bytes : ℕ → JpegMarkerReference
    two_bytes k = record {
      marker_code = end_of_image_marker_code;
      encoded_range = range (code_offset - 1) 2;
      payload_range = range k 0;
    }

    finished_next : (p : Progress) → IsNext bytes limits t p → IsNext bytes limits s p
    finished_next (advanced u) (c, m) = (c, omega arith)
    finished_next (finished i) c = c
