-- ===== src/Jpeg/Steps/Segment.antt =====
-- A round at a segment keeps the invariant: its metadata, its marker, and the frame or the scan that
-- it starts.
use mathlib.Core.Path.{subst}
use jpg_spinner.Prelude.{
  inr, ℕ, ◌+◌, ◌-◌, ◌*◌, ◌^◌, ◌≤◌, ◌<◌, ◌≡◌, refl, ap, sym, ◌∙◌, Bool, true, false, not, ◌&&◌, ◌||◌,
  List, [], ◌∷◌, ◌++◌, Option, none, some, arith, length, ltb, leb, ◌==◌, if◌then◌else◌,
}
use jpg_spinner.Domain.Failure.{JpegResourceLimits}
use jpg_spinner.Domain.Geometry.{JpegCodingProcess}
use jpg_spinner.Jpeg.Bytes.{Bytes}
use jpg_spinner.Jpeg.FrameHeader.Supported.{
  IsSupported, parse_frame_header-Ensures, is_valid_scan_header-Ensures,
}
use jpg_spinner.Jpeg.Inventory.{JpegFrameHeader, JpegMarkerReference, JpegMetadataSegmentInventory}
use jpg_spinner.Jpeg.Markers.{
  start_of_scan_marker_code, supported_coding_process_for, is_unsupported_coding_process_marker,
  is_progressive_coding_process,
}
use jpg_spinner.Jpeg.Outcome.{Ensures, returns, refuses, Ensures-bind, Ensures-if}
use jpg_spinner.Jpeg.Segments.Inside.{AreInside}
use jpg_spinner.Jpeg.Segments.Recorded.{metadata_share, record_metadata-Ensures}
use jpg_spinner.Jpeg.Segments.{ScanState}
use jpg_spinner.Jpeg.Steps.Consistent.{
  FrameCounted, IsCounted, IsWalked, IsConsistent, IsNext, count_scans, count_frames, scan_share,
  process_share, ranges_end,
}
use jpg_spinner.Jpeg.Steps.Marking.{Follows-concat, FollowRanges-mono, totals-concat}
use jpg_spinner.Jpeg.Steps.{segment_marker, begin_frame, begin_scan, begin_segment, step_segment}

-- Where a segment may stand behind the state.
record Fits (bytes : Bytes) (s : ScanState) (code_offset declared : ℕ) : Type 0 where
  outside : s.is_reading_entropy_coded_data ≡ false
  after : s.cursor + 1 ≤ code_offset
  holds_length : 2 ≤ declared
  inside : code_offset + 1 + declared ≤ length bytes

-- The codes of frames, of scans and of the other segments are different.
frame_is_no_scan :
    (code : ℕ) (p : JpegCodingProcess)
    → supported_coding_process_for code ≡ some p
    → scan_share code ≡ 0
unfolding supported_coding_process_for
frame_is_no_scan code p h = ground arith

module _ (bytes : Bytes) (limits : JpegResourceLimits) (s : ScanState)
    (code code_offset declared : ℕ) (v : IsConsistent bytes limits s)
    (f : Fits bytes s code_offset declared) (segments : JpegMetadataSegmentInventory) (total : ℕ)
    (segments_inside : AreInside (length bytes) segments)
    (total_is : total
      ≡ s.metadata_encoded_length_bytes + metadata_share (segment_marker code code_offset declared))
    (total_bounded : total ≤ limits.maximum_metadata_length_bytes) where
  -- The state behind the segment, with the parts that a frame or a scan changes.
  abbrev pushed : Option JpegFrameHeader → ℕ → Bool → ℕ → ScanState
  pushed header scans reading offset = record s {
    metadata_segments = segments;
    metadata_encoded_length_bytes = total;
    markers = s.markers ++ segment_marker code code_offset declared ∷ [];
    cursor = code_offset + 1 + declared;
    frame_header = header;
    scan_count = scans;
    is_reading_entropy_coded_data = reading;
    entropy_coded_data_offset = offset;
  }

  pushed-IsWalked :
      (header : Option JpegFrameHeader) (scans : ℕ) (reading : Bool) (offset : ℕ)
      → (reading ≡ true → offset ≡ code_offset + 1 + declared)
      → IsWalked bytes limits (pushed header scans reading offset)
  pushed-IsWalked header scans reading offset e =
      let m = segment_marker code code_offset declared in
      let (rest, first) = v.walked.starts in
      record {
        starts = (rest ++ m ∷ [], ap (λ (l : List JpegMarkerReference). l ++ m ∷ []) first);
        follows =
            Follows-concat 0 s.cursor (code_offset + 1 + declared) s.markers m v.walked.follows
              (omega (arith, f.after)) (omega (arith, f.after))
              (omega (arith, f.holds_length, f.after)) (omega (arith, f.after));
        inside = f.inside;
        ranges =
            FollowRanges-mono 0 (ranges_end s) _ s.entropy_coded_data_ranges v.walked.ranges
              (ground (arith, f.outside, f.after, e));
        reading = λ r. omega (arith, e r);
        segments = segments_inside;
        total = total_is ∙ rw (v.walked.total) (sym (totals-concat s.markers m).0);
        bounded = total_bounded;
      }

  pushed-IsNext :
      (header : Option JpegFrameHeader) (scans : ℕ) (reading : Bool) (offset : ℕ)
      → (reading ≡ true → offset ≡ code_offset + 1 + declared)
      → IsCounted limits
          (count_scans s.markers + scan_share code)
          (count_frames s.markers + process_share (supported_coding_process_for code))
          (pushed header scans reading offset)
      → IsConsistent bytes limits (pushed header scans reading offset)
        × (2 * (length bytes - (code_offset + 1 + declared)) + (if reading then 1 else 0)
            < 2 * (length bytes - s.cursor) + (if s.is_reading_entropy_coded_data then 1 else 0))
  pushed-IsNext header scans reading offset e c =
      let (_, scanned, framed) =
        totals-concat s.markers (segment_marker code code_offset declared) in
      (
        record {
          walked = pushed-IsWalked header scans reading offset e;
          counted = rw (scanned, framed) c;
        },
        ground (arith, f.inside, f.after),
      )

  begin_frame-Ensures :
      (process : JpegCodingProcess) (header : Option JpegFrameHeader)
      → supported_coding_process_for code ≡ some process
      → FrameCounted limits s.scan_count (count_frames s.markers) header
      → Ensures (IsNext bytes limits s) (
          begin_frame bytes limits
            (pushed header s.scan_count s.is_reading_entropy_coded_data s.entropy_coded_data_offset)
            (segment_marker code code_offset declared)
            process
            header)
  unfolding begin_frame
  begin_frame-Ensures process (some header) p c = refuses refl
  begin_frame-Ensures process none p c =
      let out = f.outside in
      let share : scan_share code ≡ 0 = frame_is_no_scan code process p in
      let frames : process_share (supported_coding_process_for code) ≡ 1 = rw p refl in
      Ensures-bind
        (parse_frame_header-Ensures bytes (segment_marker code code_offset declared) process
          limits.maximum_pixel_count (omega (arith, f.holds_length, f.inside)))
        λ header h. returns (
          pushed-IsNext (some header) s.scan_count s.is_reading_entropy_coded_data
            s.entropy_coded_data_offset (λ r. cc)
            (
              omega (arith, v.counted.0, share),
              (
                omega (arith, c.1, frames),
                (
                  subst (λ k. IsSupported k limits.maximum_pixel_count header) (sym h.0.process_is)
                      h.0,
                  inr (omega (arith, c.0)),
                ),
              ),
            ))

  begin_scan-Ensures :
      (header : Option JpegFrameHeader)
      → supported_coding_process_for code ≡ none
      → (code == start_of_scan_marker_code) ≡ true
      → FrameCounted limits s.scan_count (count_frames s.markers) header
      → Ensures (IsNext bytes limits s) (
          begin_scan bytes limits
            (pushed header s.scan_count s.is_reading_entropy_coded_data s.entropy_coded_data_offset)
            (segment_marker code code_offset declared)
            header)
  unfolding begin_scan
  begin_scan-Ensures none p e c = refuses refl
  begin_scan-Ensures (some header) p e c =
      let share : scan_share code ≡ 1 = ground arith in
      let frames : process_share (supported_coding_process_for code) ≡ 0 = rw p refl in
      Ensures-bind
        (is_valid_scan_header-Ensures bytes (segment_marker code code_offset declared)
          (omega (arith, f.holds_length, f.inside)))
        λ valid _.
          Ensures-if (not valid || s.scan_count == 2 ^ 32 - 1) (λ _. refuses refl)
            λ _.
              Ensures-if
                (is_progressive_coding_process header.coding_process
                  && leb limits.maximum_progressive_scan_count s.scan_count)
                (λ _. refuses refl)
                λ l. returns (
                  pushed-IsNext (some header) (s.scan_count + 1) true (code_offset + 1 + declared)
                    (λ _. refl)
                    (
                      omega (arith, v.counted.0, share),
                      (omega (arith, c.0, frames), (c.1.0, ground arith)),
                    ))

  begin_segment-Ensures :
      (process : Option JpegCodingProcess)
      → supported_coding_process_for code ≡ process
      → Ensures (IsNext bytes limits s) (
          begin_segment bytes limits
            (pushed s.frame_header s.scan_count s.is_reading_entropy_coded_data
              s.entropy_coded_data_offset)
            (segment_marker code code_offset declared)
            process)
  unfolding begin_segment
  begin_segment-Ensures (some process) p = begin_frame-Ensures process s.frame_header p v.counted.1
  begin_segment-Ensures none p =
      let out = f.outside in
      let frames : process_share (supported_coding_process_for code) ≡ 0 = rw p refl in
      Ensures-if (is_unsupported_coding_process_marker code) (λ _. refuses refl)
        λ _.
          Ensures-if (code == start_of_scan_marker_code)
            (λ e. begin_scan-Ensures s.frame_header p e v.counted.1)
            λ e.
              let share : scan_share code ≡ 0 = ground arith in
              returns (
                pushed-IsNext s.frame_header s.scan_count s.is_reading_entropy_coded_data
                  s.entropy_coded_data_offset (λ r. cc)
                  (
                    omega (arith, v.counted.0, share),
                    subst (λ k. FrameCounted limits s.scan_count k s.frame_header)
                        (omega (arith, frames)) v.counted.1,
                  ))

-- A segment that fits is recorded, refused, or ends the walk in an error.
pub step_segment-Ensures :
    (bytes : Bytes) (limits : JpegResourceLimits) (s : ScanState) (code code_offset : ℕ)
    (declared : Option ℕ)
    → IsConsistent bytes limits s
    → s.is_reading_entropy_coded_data ≡ false
    → s.cursor + 1 ≤ code_offset
    → code_offset < length bytes
    → Ensures (IsNext bytes limits s) (step_segment bytes limits s code code_offset declared)
unfolding step_segment
step_segment-Ensures bytes limits s code code_offset none v out l h = refuses refl
step_segment-Ensures bytes limits s code code_offset (some declared) v out l h =
    Ensures-if (ltb declared 2 || ltb (length bytes - (code_offset + 1)) declared)
      (λ _. refuses refl)
      λ d.
        let f : Fits bytes s code_offset declared = record {
          outside = out;
          after = l;
          holds_length = ground arith;
          inside = ground arith;
        } in
        let m = segment_marker code code_offset declared in
        Ensures-bind
          (record_metadata-Ensures bytes limits m s (omega (arith, f.holds_length, f.inside))
            v.walked.segments v.walked.bounded)
          λ t r.
            subst
              (λ (u : ScanState). Ensures (IsNext bytes limits s) (
                begin_segment bytes limits
                  (record u { markers = u.markers ++ m ∷ []; cursor = code_offset + 1 + declared })
                  m (supported_coding_process_for code)))
              (sym r.same)
              (begin_segment-Ensures bytes limits s code code_offset declared v f
                t.metadata_segments t.metadata_encoded_length_bytes r.inside r.total r.bounded
                (supported_coding_process_for code) refl)
