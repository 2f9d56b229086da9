-- ===== src/Jpeg/Steps/Marking.antt =====
-- Adding a marker to the walk.
use jpg_spinner.Prelude.{
  ℕ, ◌+◌, ◌≤◌, ◌<◌, ◌≡◌, refl, ap, sym, ◌∙◌, true, false, List, [], ◌∷◌, ◌++◌, none, arith, length,
  ◌==◌, All,
}
use jpg_spinner.Domain.Failure.{JpegResourceLimits}
use jpg_spinner.Jpeg.Bytes.{Bytes}
use jpg_spinner.Jpeg.Inventory.{EncodedByteRange, end_of, JpegMarkerReference}
use jpg_spinner.Jpeg.Jumbf.Answers.{Holds}
use jpg_spinner.Jpeg.Markers.{
  start_of_scan_marker_code, end_of_image_marker_code, temporary_marker_code, is_metadata_marker,
  is_restart_marker, supported_coding_process_for,
}
use jpg_spinner.Jpeg.Segments.Recorded.{metadata_share}
use jpg_spinner.Jpeg.Segments.{ScanState}
use jpg_spinner.Jpeg.Steps.Consistent.{
  Follows, FollowRanges, metadata_total, scan_share, count_scans, process_share, count_frames,
  ranges_end, IsConsistent,
}
use jpg_spinner.Jpeg.Steps.{standalone}

pub Follows-concat :
    (lo hi hi' : ℕ) (ms : List JpegMarkerReference) (m : JpegMarkerReference)
    → Follows lo ms hi
    → hi ≤ m.encoded_range.offset_bytes
    → m.encoded_range.offset_bytes + 2 ≤ m.payload_range.offset_bytes
    → end_of m.payload_range ≡ end_of m.encoded_range
    → end_of m.encoded_range ≤ hi'
    → Follows lo (ms ++ m ∷ []) hi'
Follows-concat lo hi hi' [] m f a b e l = (omega arith, b, e, l)
Follows-concat lo hi hi' (x ∷ xs) m f a b e l =
    (f.0, f.1, f.2, Follows-concat (end_of x.encoded_range) hi hi' xs m f.3 a b e l)

pub Follows-mono :
    (lo hi hi' : ℕ) (ms : List JpegMarkerReference)
    → Follows lo ms hi
    → hi ≤ hi'
    → Follows lo ms hi'
Follows-mono lo hi hi' [] f l = omega arith
Follows-mono lo hi hi' (x ∷ xs) f l =
    (f.0, f.1, f.2, Follows-mono (end_of x.encoded_range) hi hi' xs f.3 l)

Follows-bound : (lo hi : ℕ) (ms : List JpegMarkerReference) → Follows lo ms hi → lo ≤ hi
Follows-bound lo hi [] f = f
Follows-bound lo hi (x ∷ xs) f = omega (arith, Follows-bound (end_of x.encoded_range) hi xs f.3)

-- So every payload lies below the end.
pub Follows-Holds :
    (bytes : Bytes) (lo hi : ℕ) (ms : List JpegMarkerReference)
    → Follows lo ms hi
    → hi ≤ length bytes
    → All (Holds bytes) ms
Follows-Holds bytes lo hi [] f l = tt
Follows-Holds bytes lo hi (x ∷ xs) f l = (
  omega (arith, Follows-bound (end_of x.encoded_range) hi xs f.3),
  Follows-Holds bytes (end_of x.encoded_range) hi xs f.3 l,
)

pub FollowRanges-mono :
    (lo hi hi' : ℕ) (rs : List EncodedByteRange)
    → FollowRanges lo rs hi
    → hi ≤ hi'
    → FollowRanges lo rs hi'
FollowRanges-mono lo hi hi' [] f l = omega arith
FollowRanges-mono lo hi hi' (x ∷ xs) f l = (f.0, FollowRanges-mono (end_of x) hi hi' xs f.1 l)

pub FollowRanges-concat :
    (lo hi hi' : ℕ) (rs : List EncodedByteRange) (r : EncodedByteRange)
    → FollowRanges lo rs hi
    → hi ≤ r.offset_bytes
    → end_of r ≤ hi'
    → FollowRanges lo (rs ++ r ∷ []) hi'
FollowRanges-concat lo hi hi' [] r f a l = (omega arith, l)
FollowRanges-concat lo hi hi' (x ∷ xs) r f a l =
    (f.0, FollowRanges-concat (end_of x) hi hi' xs r f.1 a l)

-- The three totals with one more marker.
pub totals-concat :
    (ms : List JpegMarkerReference) (m : JpegMarkerReference)
    → (metadata_total (ms ++ m ∷ []) ≡ metadata_total ms + metadata_share m)
      × (count_scans (ms ++ m ∷ []) ≡ count_scans ms + scan_share m.marker_code)
      × (count_frames (ms ++ m ∷ [])
          ≡ count_frames ms + process_share (supported_coding_process_for m.marker_code))
totals-concat [] m = (omega arith, omega arith, omega arith)
totals-concat (x ∷ xs) m =
    let (a, b, c) = totals-concat xs m in (omega arith, omega arith, omega arith)

-- The code of a marker that adds to none of them.
abbrev pub IsNeutral : ℕ → Type 0
IsNeutral code =
    (is_metadata_marker code ≡ false)
    × ((code == start_of_scan_marker_code) ≡ false)
    × (supported_coding_process_for code ≡ none)

pub restart-IsNeutral : (code : ℕ) → is_restart_marker code ≡ true → IsNeutral code
unfolding is_restart_marker is_metadata_marker supported_coding_process_for
restart-IsNeutral code h = (ground arith, ground arith, ground arith)

pub end_of_image-IsNeutral : IsNeutral end_of_image_marker_code
unfolding is_metadata_marker supported_coding_process_for
end_of_image-IsNeutral = (refl, refl, refl)

pub temporary-IsNeutral : IsNeutral temporary_marker_code
unfolding is_metadata_marker supported_coding_process_for
temporary-IsNeutral = (refl, refl, refl)

neutral_totals :
    (ms : List JpegMarkerReference) (m : JpegMarkerReference)
    → IsNeutral m.marker_code
    → (metadata_total (ms ++ m ∷ []) ≡ metadata_total ms)
      × (count_scans (ms ++ m ∷ []) ≡ count_scans ms)
      × (count_frames (ms ++ m ∷ []) ≡ count_frames ms)
neutral_totals ms m n =
    let (a, b, c) = totals-concat ms m in (ground arith, ground arith, ground arith)

-- The walk behind a standalone marker.
pub standalone-IsConsistent :
    (bytes : Bytes) (limits : JpegResourceLimits) (s : ScanState) (code code_offset : ℕ)
    → IsConsistent bytes limits s
    → IsNeutral code
    → s.cursor + 1 ≤ code_offset
    → code_offset < length bytes
    → IsConsistent bytes limits (record s {
      markers = s.markers ++ standalone code code_offset ∷ [];
      cursor = code_offset + 1;
    })
standalone-IsConsistent bytes limits s code code_offset v n after before =
    let m = standalone code code_offset in
    let (metadata, scans, frames) = neutral_totals s.markers m n in
    let (first, e) = v.walked.starts in
    record {
      walked = record {
        starts = (first ++ m ∷ [], ap (λ (l : List JpegMarkerReference). l ++ m ∷ []) e);
        follows =
            Follows-concat 0 s.cursor (code_offset + 1) s.markers m v.walked.follows (omega arith)
              (omega arith) (omega arith) (omega arith);
        inside = omega arith;
        ranges =
            FollowRanges-mono 0 (ranges_end s) _ s.entropy_coded_data_ranges v.walked.ranges
              (ground arith);
        reading = λ r. omega (arith, v.walked.reading r);
        segments = v.walked.segments;
        total = v.walked.total ∙ sym metadata;
        bounded = v.walked.bounded;
      };
      counted = rw (scans, frames) v.counted;
    }
