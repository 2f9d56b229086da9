-- ===== src/Jpeg/Steps/Consistent.antt =====
-- The invariant of the walk, and what a finished inventory promises.
use jpg_spinner.Prelude.{
  ℕ, ◌+◌, ◌-◌, ◌*◌, ◌≤◌, ◌<◌, ◌≡◌, ◌⊎◌, true, List, [], ◌∷◌, ◌++◌, Option, false, none, some,
  length, ◌==◌, if◌then◌else◌,
}
use jpg_spinner.Domain.Failure.{JpegResourceLimits}
use jpg_spinner.Domain.Geometry.{JpegCodingProcess}
use jpg_spinner.Jpeg.Bytes.{Bytes}
use jpg_spinner.Jpeg.FrameHeader.Supported.{IsSupported}
use jpg_spinner.Jpeg.IccChunks.Complete.{IsProfile}
use jpg_spinner.Jpeg.Inventory.{
  EncodedByteRange, range, end_of, JpegFrameHeader, JpegMarkerReference, JpegMarkerInventory,
}
use jpg_spinner.Jpeg.Markers.{
  start_of_image_marker_code, end_of_image_marker_code, start_of_scan_marker_code,
  supported_coding_process_for, is_progressive_coding_process,
}
use jpg_spinner.Jpeg.Segments.Inside.{AreInside}
use jpg_spinner.Jpeg.Segments.Recorded.{metadata_share}
use jpg_spinner.Jpeg.Segments.{ScanState}
use jpg_spinner.Jpeg.Steps.{Progress, advanced, finished}
use jpg_spinner.Jpeg.XmpChunks.Cover.{IsPacket}

-- The markers stand one behind the other from `lo` to `hi`, and each payload ends its marker, behind
-- the two bytes of the prefix and the code.
abbrev pub Follows : ℕ → List JpegMarkerReference → ℕ → Type 0
Follows lo [] hi = lo ≤ hi
Follows lo (m ∷ ms) hi =
    (lo ≤ m.encoded_range.offset_bytes)
    × (m.encoded_range.offset_bytes + 2 ≤ m.payload_range.offset_bytes)
    × (end_of m.payload_range ≡ end_of m.encoded_range)
    × Follows (end_of m.encoded_range) ms hi

-- The ranges stand one behind the other from `lo` to `hi`.
abbrev pub FollowRanges : ℕ → List EncodedByteRange → ℕ → Type 0
FollowRanges lo [] hi = lo ≤ hi
FollowRanges lo (r ∷ rs) hi = (lo ≤ r.offset_bytes) × FollowRanges (end_of r) rs hi

-- The bytes of the APPn and COM segments.
abbrev pub metadata_total : List JpegMarkerReference → ℕ
metadata_total [] = 0
metadata_total (m ∷ ms) = metadata_share m + metadata_total ms

abbrev pub scan_share : ℕ → ℕ
scan_share code = if code == start_of_scan_marker_code then 1 else 0

-- The scans that the markers start.
abbrev pub count_scans : List JpegMarkerReference → ℕ
count_scans [] = 0
count_scans (m ∷ ms) = scan_share m.marker_code + count_scans ms

abbrev pub process_share : Option JpegCodingProcess → ℕ
process_share none = 0
process_share (some p) = 1

-- The frames of a supported process that they start.
abbrev pub count_frames : List JpegMarkerReference → ℕ
count_frames [] = 0
count_frames (m ∷ ms) = process_share (supported_coding_process_for m.marker_code) + count_frames ms

-- The one frame of the codestream, and its bound on progressive scans.
abbrev pub IsFramed : JpegResourceLimits → ℕ → JpegFrameHeader → Type 0
IsFramed limits scans h =
    IsSupported h.coding_process limits.maximum_pixel_count h
    × ((is_progressive_coding_process h.coding_process ≡ false)
        ⊎ (scans ≤ limits.maximum_progressive_scan_count))

-- No scan before the frame, and one frame at most.
abbrev pub FrameCounted : JpegResourceLimits → ℕ → ℕ → Option JpegFrameHeader → Type 0
FrameCounted limits scans frames none = (scans ≡ 0) × (frames ≡ 0)
FrameCounted limits scans frames (some h) = (frames ≡ 1) × IsFramed limits scans h

abbrev pub start_of_image : JpegMarkerReference
start_of_image = record {
  marker_code = start_of_image_marker_code;
  encoded_range = range 0 2;
  payload_range = range 2 0;
}

-- Where the last entropy-coded range must have ended.
abbrev pub ranges_end : ScanState → ℕ
ranges_end s = if s.is_reading_entropy_coded_data then s.entropy_coded_data_offset else s.cursor

-- What the walk knows of the ranges that it has recorded.
pub record IsWalked (bytes : Bytes) (limits : JpegResourceLimits) (s : ScanState) : Type 0 where
  pub starts : (rest : List JpegMarkerReference) × (s.markers ≡ start_of_image ∷ rest)
  pub follows : Follows 0 s.markers s.cursor
  pub inside : s.cursor ≤ length bytes
  pub ranges : FollowRanges 0 s.entropy_coded_data_ranges (ranges_end s)
  pub reading : s.is_reading_entropy_coded_data ≡ true → s.entropy_coded_data_offset ≤ s.cursor
  pub segments : AreInside (length bytes) s.metadata_segments
  pub total : s.metadata_encoded_length_bytes ≡ metadata_total s.markers
  pub bounded : s.metadata_encoded_length_bytes ≤ limits.maximum_metadata_length_bytes

-- What it knows of scans and frames, where the markers start so many.
abbrev pub IsCounted : JpegResourceLimits → ℕ → ℕ → ScanState → Type 0
IsCounted limits scans frames s =
    (s.scan_count ≡ scans) × FrameCounted limits s.scan_count frames s.frame_header

pub record IsConsistent (bytes : Bytes) (limits : JpegResourceLimits) (s : ScanState) : Type 0 where
  pub walked : IsWalked bytes limits s
  pub counted : IsCounted limits (count_scans s.markers) (count_frames s.markers) s

abbrev pub end_of_image_at : ℕ → JpegMarkerReference
end_of_image_at offset = record {
  marker_code = end_of_image_marker_code;
  encoded_range = range offset 2;
  payload_range = range (offset + 2) 0;
}

-- What the scan promises of an inventory.
pub record IsSound (bytes : Bytes) (limits : JpegResourceLimits) (i : JpegMarkerInventory)
    : Type 0 where
  pub source : i.encoded_source_length_bytes ≡ length bytes
  pub starts : (rest : List JpegMarkerReference) × (i.markers ≡ start_of_image ∷ rest)
  pub ends :
      (rest : List JpegMarkerReference) × (i.markers
        ≡ rest ++ end_of_image_at i.end_of_image_marker_offset_bytes ∷ [])
  pub follows : Follows 0 i.markers (i.end_of_image_marker_offset_bytes + 2)
  pub inside : i.end_of_image_marker_offset_bytes + 2 ≤ length bytes
  pub ranges : FollowRanges 0 i.entropy_coded_data_ranges (i.end_of_image_marker_offset_bytes + 2)
  pub segments : AreInside (length bytes) i.metadata_segments
  pub total : i.metadata_encoded_length_bytes ≡ metadata_total i.markers
  pub bounded : i.metadata_encoded_length_bytes ≤ limits.maximum_metadata_length_bytes
  pub scans : (i.scan_count ≡ count_scans i.markers) × (0 < i.scan_count)
  pub frame : (count_frames i.markers ≡ 1) × IsFramed limits i.scan_count i.frame_header
  pub icc : IsProfile i.metadata_segments.icc_profile_chunks
  pub extended_xmp : IsPacket i.metadata_segments.extended_xmp_chunks

-- Twice the bytes left, and one more in entropy-coded data.
abbrev pub measure : Bytes → ScanState → ℕ
measure bytes s = 2 * (length bytes - s.cursor) + (if s.is_reading_entropy_coded_data then 1 else 0)

-- A round keeps the invariant and comes nearer to the end, or finishes with a sound inventory.
abbrev pub IsNext : Bytes → JpegResourceLimits → ScanState → Progress → Type 0
IsNext bytes limits s (advanced t) =
    IsConsistent bytes limits t × (measure bytes t < measure bytes s)
IsNext bytes limits s (finished i) = IsSound bytes limits i
