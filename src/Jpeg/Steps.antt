-- ===== src/Jpeg/Steps.antt =====
-- JpegSegmentScanner::scan: one round of the walk over the markers of a codestream.
pub mod Consistent
pub mod Marking
pub mod Entropy
pub mod Finish
pub mod Segment
pub mod Rounds
use jpg_spinner.Prelude.{
  ℕ, zero, suc, ◌+◌, ◌-◌, ◌*◌, ◌^◌, Bool, true, false, not, ◌&&◌, ◌||◌, List, [], ◌∷◌, ◌++◌, Option,
  none, some, length, ltb, leb, ◌==◌, if◌then◌else◌,
}
use jpg_spinner.Domain.Failure.{
  JpegResourceLimits, progressive_scan_count, malformed_jpeg_structure, malformed_image_metadata,
  unsupported_jpeg_coding_process, content_credentials_would_be_invalidated,
  unsupported_jumbf_metadata, progressive_scan_count_limit_exceeded,
}
use jpg_spinner.Domain.Geometry.{JpegCodingProcess}
use jpg_spinner.Jpeg.Bytes.{Bytes, byte_at, try_read_big_endian_unsigned_16, skip_marker_prefixes}
use jpg_spinner.Jpeg.FrameHeader.{structure_error, parse_frame_header, is_valid_scan_header}
use jpg_spinner.Jpeg.IccChunks.{validate_and_order_icc_profile_chunks}
use jpg_spinner.Jpeg.Inventory.{
  range, JpegFrameHeader, JpegMarkerReference, JpegMetadataSegmentInventory, JpegMarkerInventory,
}
use jpg_spinner.Jpeg.Jumbf.{
  JumbfEnvelopeClassification, absent, unsupported_jumbf, c2pa_manifest_store, malformed,
  classify_jumbf_envelope,
}
use jpg_spinner.Jpeg.Markers.{
  marker_prefix, stuffed_entropy_byte_code, temporary_marker_code, start_of_image_marker_code,
  end_of_image_marker_code, start_of_scan_marker_code, is_restart_marker,
  supported_coding_process_for, is_unsupported_coding_process_marker, is_progressive_coding_process,
}
use jpg_spinner.Jpeg.Outcome.{Outcome, success, ◌>>=◌}
use jpg_spinner.Jpeg.Segments.{ScanState, scanner_resource_limit_error, record_metadata}
use jpg_spinner.Jpeg.XmpChunks.{validate_and_order_extended_xmp_chunks}

-- One round of the loop goes on, or returns the inventory.
pub data Progress : Type 0 where
  advanced : ScanState → Progress
  finished : JpegMarkerInventory → Progress

abbrev pub malformed_jpeg_structure_error {ℓ} : {A : Type ℓ} → Outcome A
malformed_jpeg_structure_error = structure_error malformed_jpeg_structure

-- A marker of two bytes and no payload, the code at `code_offset`.
abbrev pub standalone : ℕ → ℕ → JpegMarkerReference
standalone code code_offset = record {
  marker_code = code;
  encoded_range = range (code_offset - 1) 2;
  payload_range = range (code_offset + 1) 0;
}

-- The range ends before the fill bytes of the marker that follows.
abbrev close_entropy : ScanState → ℕ → ScanState
close_entropy s code_offset = record s {
  entropy_coded_data_ranges =
      s.entropy_coded_data_ranges
      ++ range s.entropy_coded_data_offset (s.cursor - s.entropy_coded_data_offset) ∷ [];
  is_reading_entropy_coded_data = false;
  cursor = code_offset - 1;
}

-- In entropy-coded data, at a marker prefix, with the code behind the fill bytes.
unfoldable pub entropy_marker : Bytes → ScanState → ℕ → Outcome Progress
entropy_marker bytes s code_offset =
    if leb (length bytes) code_offset then malformed_jpeg_structure_error else do
      code ← byte_at bytes code_offset
      if code == stuffed_entropy_byte_code
          then success (advanced (record s { cursor = code_offset + 1 }))
          else if is_restart_marker code
          then success (
              advanced (record s {
                markers = s.markers ++ standalone code code_offset ∷ [];
                cursor = code_offset + 1;
              }))
          else success (advanced (close_entropy s code_offset))

unfoldable pub step_entropy : Bytes → ScanState → Outcome Progress
step_entropy bytes s = do
  b ← byte_at bytes s.cursor
  if not (b == marker_prefix)
      then success (advanced (record s { cursor = s.cursor + 1 }))
      else skip_marker_prefixes bytes (s.cursor + 1) >>= entropy_marker bytes s

-- What remains once the structure and the metadata have been accepted.
unfoldable pub conclude :
    Bytes
    → ScanState
    → JpegFrameHeader
    → ℕ
    → JpegMetadataSegmentInventory
    → JumbfEnvelopeClassification
    → Outcome Progress
conclude bytes s header code_offset segments malformed = structure_error malformed_image_metadata
conclude bytes s header code_offset segments c2pa_manifest_store =
    structure_error content_credentials_would_be_invalidated
conclude bytes s header code_offset segments unsupported_jumbf =
    structure_error unsupported_jumbf_metadata
conclude bytes s header code_offset segments absent = success (
    finished (record {
      encoded_source_length_bytes = length bytes;
      frame_header = header;
      scan_count = s.scan_count;
      metadata_encoded_length_bytes = s.metadata_encoded_length_bytes;
      end_of_image_marker_offset_bytes = code_offset - 1;
      markers = s.markers;
      entropy_coded_data_ranges = s.entropy_coded_data_ranges;
      metadata_segments = segments;
    }))

-- The metadata of the codestream, its chunks put in order.
unfoldable pub accept_metadata : Bytes → ScanState → JpegFrameHeader → ℕ → Outcome Progress
accept_metadata bytes s header code_offset =
    let (icc_valid, icc) =
      validate_and_order_icc_profile_chunks s.metadata_segments.icc_profile_chunks in
    let (xmp_valid, xmp) =
      validate_and_order_extended_xmp_chunks s.metadata_segments.extended_xmp_chunks in
    if not icc_valid
    then structure_error malformed_image_metadata
    else if not xmp_valid
    then structure_error malformed_image_metadata
    else classify_jumbf_envelope bytes s.markers
      >>= conclude bytes s header code_offset
          (record s.metadata_segments { icc_profile_chunks = icc; extended_xmp_chunks = xmp })

unfoldable pub finish_image : Bytes → ScanState → ℕ → Option JpegFrameHeader → Outcome Progress
finish_image bytes s code_offset none = malformed_jpeg_structure_error
finish_image bytes s code_offset (some header) =
    if s.scan_count == 0
    then malformed_jpeg_structure_error
    else accept_metadata bytes s header code_offset

unfoldable pub begin_frame :
    Bytes
    → JpegResourceLimits
    → ScanState
    → JpegMarkerReference
    → JpegCodingProcess
    → Option JpegFrameHeader
    → Outcome Progress
begin_frame bytes limits s marker process (some header) = malformed_jpeg_structure_error
begin_frame bytes limits s marker process none = do
  header ← parse_frame_header bytes marker process limits.maximum_pixel_count
  success (advanced (record s { frame_header = some header }))

unfoldable pub begin_scan :
    Bytes
    → JpegResourceLimits
    → ScanState
    → JpegMarkerReference
    → Option JpegFrameHeader
    → Outcome Progress
begin_scan bytes limits s marker none = malformed_jpeg_structure_error
begin_scan bytes limits s marker (some header) = do
  is_valid ← is_valid_scan_header bytes marker
  if not is_valid || s.scan_count == 2 ^ 32 - 1
      then malformed_jpeg_structure_error
      else if is_progressive_coding_process header.coding_process
          && leb limits.maximum_progressive_scan_count s.scan_count
      then scanner_resource_limit_error progressive_scan_count_limit_exceeded progressive_scan_count
          (s.scan_count + 1) limits.maximum_progressive_scan_count
      else success (
          advanced (record s {
            scan_count = s.scan_count + 1;
            is_reading_entropy_coded_data = true;
            entropy_coded_data_offset = s.cursor;
          }))

-- What a recorded segment starts, by the process that its code names.
unfoldable pub begin_segment :
    Bytes
    → JpegResourceLimits
    → ScanState
    → JpegMarkerReference
    → Option JpegCodingProcess
    → Outcome Progress
begin_segment bytes limits s marker (some process) =
    begin_frame bytes limits s marker process s.frame_header
begin_segment bytes limits s marker none =
    if is_unsupported_coding_process_marker marker.marker_code
    then structure_error unsupported_jpeg_coding_process
    else if marker.marker_code == start_of_scan_marker_code
    then begin_scan bytes limits s marker s.frame_header
    else success (advanced s)

abbrev pub segment_marker : ℕ → ℕ → ℕ → JpegMarkerReference
segment_marker code code_offset declared = record {
  marker_code = code;
  encoded_range = range (code_offset - 1) (code_offset + 1 + declared - (code_offset - 1));
  payload_range = range (code_offset + 1 + 2) (declared - 2);
}

-- A segment whose length field has been read.
unfoldable pub step_segment :
    Bytes → JpegResourceLimits → ScanState → ℕ → ℕ → Option ℕ → Outcome Progress
step_segment bytes limits s code code_offset none = malformed_jpeg_structure_error
step_segment bytes limits s code code_offset (some declared) =
    if ltb declared 2 || ltb (length bytes - (code_offset + 1)) declared
    then malformed_jpeg_structure_error
    else do
      let marker = segment_marker code code_offset declared
      recorded ← record_metadata bytes limits marker s
      begin_segment bytes limits
          (record recorded {
            markers = recorded.markers ++ marker ∷ [];
            cursor = code_offset + 1 + declared;
          })
          marker (supported_coding_process_for code)

-- Outside of entropy-coded data, with the code behind the fill bytes.
unfoldable pub marker_code : Bytes → JpegResourceLimits → ScanState → ℕ → ℕ → Outcome Progress
marker_code bytes limits s code_offset code =
    if code == stuffed_entropy_byte_code
    then malformed_jpeg_structure_error
    else if code == end_of_image_marker_code
    then finish_image bytes
        (record s {
          markers = s.markers ++ standalone code code_offset ∷ [];
          cursor = code_offset + 1;
        })
        code_offset s.frame_header
    else if code == start_of_image_marker_code || is_restart_marker code
    then malformed_jpeg_structure_error
    else if code == temporary_marker_code
    then success (
        advanced (record s {
          markers = s.markers ++ standalone code code_offset ∷ [];
          cursor = code_offset + 1;
        }))
    else try_read_big_endian_unsigned_16 bytes (code_offset + 1)
      >>= step_segment bytes limits s code code_offset

unfoldable pub marker_behind_fill : Bytes → JpegResourceLimits → ScanState → ℕ → Outcome Progress
marker_behind_fill bytes limits s code_offset =
    if leb (length bytes) code_offset
    then malformed_jpeg_structure_error
    else byte_at bytes code_offset >>= marker_code bytes limits s code_offset

unfoldable pub step_marker : Bytes → JpegResourceLimits → ScanState → Outcome Progress
step_marker bytes limits s = do
  b ← byte_at bytes s.cursor
  if not (b == marker_prefix)
      then malformed_jpeg_structure_error
      else skip_marker_prefixes bytes (s.cursor + 1) >>= marker_behind_fill bytes limits s

-- The body of the loop.
unfoldable pub step : Bytes → JpegResourceLimits → ScanState → Outcome Progress
step bytes limits s =
    if s.is_reading_entropy_coded_data then step_entropy bytes s else step_marker bytes limits s
