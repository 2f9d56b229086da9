-- ===== src/Jpeg/Segments.antt =====
-- The state of JpegSegmentScanner::scan, and what the scan records of one metadata segment.
pub mod Inside
pub mod Recorded
use jpg_spinner.Prelude.{
  ℕ, ◌+◌, ◌-◌, Bool, true, false, not, ◌||◌, List, [], ◌∷◌, ◌++◌, Option, none, some, length, ltb,
  if◌then◌else◌,
}
use jpg_spinner.Domain.Failure.{
  ImageProcessingErrorCode, JpegResourceLimits, JpegResourceLimit, metadata_length_bytes,
  limit_error, jpeg_structure_validation, metadata_length_limit_exceeded, malformed_image_metadata,
  multi_picture_jpeg_not_supported,
}
use jpg_spinner.Jpeg.Bytes.{Bytes, byte_at, copy_n, try_read_big_endian_unsigned_32}
use jpg_spinner.Jpeg.FrameHeader.{structure_error}
use jpg_spinner.Jpeg.Inventory.{
  EncodedByteRange, range, JpegFrameHeader, JpegMarkerReference, JpegMetadataSegmentInventory,
}
use jpg_spinner.Jpeg.Markers.{
  application_segment_1_marker_code, application_segment_2_marker_code, exif_identifier,
  standard_xmp_identifier, extended_xmp_identifier, icc_profile_identifier, mp_format_identifier,
  icc_profile_chunk_header_length_bytes, extended_xmp_chunk_header_length_bytes,
  extended_xmp_guid_length_bytes, is_metadata_marker, marker_payload_starts_with,
}
use jpg_spinner.Jpeg.Outcome.{Outcome, success, failure, ◌>>=◌}

-- The locals of `scan`.
pub record ScanState : Type 0 where
  pub markers : List JpegMarkerReference
  pub entropy_coded_data_ranges : List EncodedByteRange
  pub metadata_segments : JpegMetadataSegmentInventory
  pub frame_header : Option JpegFrameHeader
  pub scan_count : ℕ
  pub metadata_encoded_length_bytes : ℕ
  pub cursor : ℕ
  pub is_reading_entropy_coded_data : Bool
  pub entropy_coded_data_offset : ℕ

-- scannerResourceLimitError
abbrev pub scanner_resource_limit_error {ℓ} :
    {A : Type ℓ} → ImageProcessingErrorCode → JpegResourceLimit → ℕ → ℕ → Outcome A
scanner_resource_limit_error code limit observed maximum = failure (
    limit_error code jpeg_structure_validation
      (record { resource_limit = limit; observed_value = some observed; maximum_value = maximum }))

-- The running total of APPn and COM segments, framing included.
unfoldable pub account_metadata :
    JpegResourceLimits → JpegMarkerReference → ScanState → Outcome ScanState
account_metadata limits marker s =
    if not (is_metadata_marker marker.marker_code)
    then success s
    else if ltb limits.maximum_metadata_length_bytes s.metadata_encoded_length_bytes
        || ltb (limits.maximum_metadata_length_bytes - s.metadata_encoded_length_bytes)
            marker.encoded_range.length_bytes
    then scanner_resource_limit_error metadata_length_limit_exceeded metadata_length_bytes
        (s.metadata_encoded_length_bytes + marker.encoded_range.length_bytes)
        limits.maximum_metadata_length_bytes
    else success (record s {
      metadata_encoded_length_bytes =
          s.metadata_encoded_length_bytes + marker.encoded_range.length_bytes;
    })

-- The payload behind a header of `n` bytes.
abbrev behind : ℕ → JpegMarkerReference → EncodedByteRange
behind n marker =
    range (marker.payload_range.offset_bytes + n) (marker.payload_range.length_bytes - n)

abbrev with_segments : ScanState → JpegMetadataSegmentInventory → ScanState
with_segments s m = record s { metadata_segments = m }

unfoldable pub record_exif : Bytes → JpegMarkerReference → ScanState → Outcome ScanState
record_exif bytes marker s = do
  found ← marker_payload_starts_with bytes marker application_segment_1_marker_code exif_identifier
  success (
      if found
      then with_segments s (record s.metadata_segments {
        exif_tiff_data_ranges =
            s.metadata_segments.exif_tiff_data_ranges
            ++ behind (length exif_identifier) marker ∷ [];
      })
      else s)

unfoldable pub record_standard_xmp : Bytes → JpegMarkerReference → ScanState → Outcome ScanState
record_standard_xmp bytes marker s = do
  found ←
      marker_payload_starts_with bytes marker application_segment_1_marker_code
        standard_xmp_identifier
  success (
      if found
      then with_segments s (record s.metadata_segments {
        standard_xmp_packet_ranges =
            s.metadata_segments.standard_xmp_packet_ranges
            ++ behind (length standard_xmp_identifier) marker ∷ [];
      })
      else s)

-- The chunk whose numbers have been read.
pub add_extended_xmp_chunk :
    JpegMarkerReference → ScanState → List ℕ → Option ℕ → Option ℕ → Outcome ScanState
add_extended_xmp_chunk marker s guid (some complete) (some offset) = success (
    with_segments s (record s.metadata_segments {
      extended_xmp_chunks =
          s.metadata_segments.extended_xmp_chunks
          ++ record {
            packet_guid = guid;
            complete_packet_length_bytes = complete;
            chunk_offset_bytes = offset;
            packet_data_range = behind extended_xmp_chunk_header_length_bytes marker;
          }
            ∷ [];
    }))
add_extended_xmp_chunk marker s guid _ _ = structure_error malformed_image_metadata

unfoldable pub record_extended_xmp : Bytes → JpegMarkerReference → ScanState → Outcome ScanState
record_extended_xmp bytes marker s = do
  found ←
      marker_payload_starts_with bytes marker application_segment_1_marker_code
        extended_xmp_identifier
  if not found
      then success s
      else if ltb marker.payload_range.length_bytes extended_xmp_chunk_header_length_bytes
      then structure_error malformed_image_metadata
      else do
        let guid_offset = marker.payload_range.offset_bytes + length extended_xmp_identifier
        guid ← copy_n bytes guid_offset extended_xmp_guid_length_bytes
        complete ←
            try_read_big_endian_unsigned_32 bytes (guid_offset + extended_xmp_guid_length_bytes)
        offset ←
            try_read_big_endian_unsigned_32 bytes (guid_offset + extended_xmp_guid_length_bytes + 4)
        add_extended_xmp_chunk marker s guid complete offset

unfoldable pub refuse_multi_picture : Bytes → JpegMarkerReference → ScanState → Outcome ScanState
refuse_multi_picture bytes marker s = do
  found ←
      marker_payload_starts_with bytes marker application_segment_2_marker_code mp_format_identifier
  if found then structure_error multi_picture_jpeg_not_supported else success s

unfoldable pub record_icc_profile : Bytes → JpegMarkerReference → ScanState → Outcome ScanState
record_icc_profile bytes marker s = do
  found ←
      marker_payload_starts_with bytes marker application_segment_2_marker_code
        icc_profile_identifier
  if not found
      then success s
      else if ltb marker.payload_range.length_bytes icc_profile_chunk_header_length_bytes
      then structure_error malformed_image_metadata
      else do
        number ← byte_at bytes (marker.payload_range.offset_bytes + 12)
        count ← byte_at bytes (marker.payload_range.offset_bytes + 13)
        success (
            with_segments s (record s.metadata_segments {
              icc_profile_chunks =
                  s.metadata_segments.icc_profile_chunks
                  ++ record {
                    sequence_number = number;
                    chunk_count = count;
                    profile_data_range = behind icc_profile_chunk_header_length_bytes marker;
                  }
                    ∷ [];
            }))

-- All that the scan notes of a segment's metadata, in the source's order.
unfoldable pub record_metadata :
    Bytes → JpegResourceLimits → JpegMarkerReference → ScanState → Outcome ScanState
record_metadata bytes limits marker s = do
  accounted ← account_metadata limits marker s
  with_exif ← record_exif bytes marker accounted
  with_xmp ← record_standard_xmp bytes marker with_exif
  with_extended ← record_extended_xmp bytes marker with_xmp
  single ← refuse_multi_picture bytes marker with_extended
  record_icc_profile bytes marker single
