-- ===== src/Jpeg/Scanner.antt =====
-- JpegSegmentScanner::scan: the loop, and the checks in front of it.
pub mod Total
use jpg_spinner.Prelude.{
  ℕ, zero, suc, ◌*◌, true, false, not, [], ◌∷◌, none, length, ltb, leb, ◌==◌, if◌then◌else◌,
}
use jpg_spinner.Domain.Failure.{
  JpegResourceLimits, encoded_file_length_bytes, encoded_file_too_large,
}
use jpg_spinner.Jpeg.Bytes.{Bytes, byte_at}
use jpg_spinner.Jpeg.Inventory.{range, JpegMarkerInventory}
use jpg_spinner.Jpeg.Markers.{marker_prefix, start_of_image_marker_code}
use jpg_spinner.Jpeg.Outcome.{Outcome, success, out_of_fuel, ◌>>=◌}
use jpg_spinner.Jpeg.Segments.{ScanState, scanner_resource_limit_error}
use jpg_spinner.Jpeg.Steps.{Progress, advanced, finished, malformed_jpeg_structure_error, step}

-- The loop, with fuel. The source returns the malformed structure behind it.
unfoldable pub scan_loop : ℕ → Bytes → JpegResourceLimits → ScanState → Outcome JpegMarkerInventory
scan_loop zero bytes limits s = out_of_fuel
scan_loop (suc fuel) bytes limits s =
    if leb (length bytes) s.cursor
    then malformed_jpeg_structure_error
    else step bytes limits s >>= λ p. elim p [
      | advanced s' ↦ scan_loop fuel bytes limits s'
      | finished i ↦ success i
    ]

abbrev pub initial_state : ScanState
initial_state = record {
  markers =
      record {
        marker_code = start_of_image_marker_code;
        encoded_range = range 0 2;
        payload_range = range 2 0;
      }
      ∷ [];
  entropy_coded_data_ranges = [];
  metadata_segments = record {
    exif_tiff_data_ranges = [];
    standard_xmp_packet_ranges = [];
    icc_profile_chunks = [];
    extended_xmp_chunks = [];
  };
  frame_header = none;
  scan_count = 0;
  metadata_encoded_length_bytes = 0;
  cursor = 2;
  is_reading_entropy_coded_data = false;
  entropy_coded_data_offset = 0;
}

-- Two rounds for each byte are enough: a round moves the cursor, or leaves the entropy-coded data.
unfoldable pub scan : Bytes → JpegResourceLimits → Outcome JpegMarkerInventory
scan bytes limits =
    if ltb limits.maximum_encoded_file_length_bytes (length bytes)
    then scanner_resource_limit_error encoded_file_too_large encoded_file_length_bytes
        (length bytes) limits.maximum_encoded_file_length_bytes
    else if ltb (length bytes) 2
    then malformed_jpeg_structure_error
    else do
      first ← byte_at bytes 0
      if not (first == marker_prefix) then malformed_jpeg_structure_error else do
        second ← byte_at bytes 1
        if not (second == start_of_image_marker_code)
            then malformed_jpeg_structure_error
            else scan_loop (2 * length bytes) bytes limits initial_state
