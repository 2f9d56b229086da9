-- ===== src/Jpeg/FrameHeader.antt =====
-- parseFrameHeader and isValidScanHeader of JpegSegmentScanner.cpp: the headers of a frame and of a
-- scan. An offset is the start of a payload that the caller has proved to lie in the span.
pub mod Supported
use jpg_spinner.Prelude.{
  ℕ, zero, suc, ◌+◌, ◌-◌, ◌*◌, ◌/◌, ◌%◌, Bool, true, false, not, ◌&&◌, ◌||◌, List, [], ◌∷◌, Option,
  none, some, ltb, leb, ◌==◌, if◌then◌else◌,
}
use jpg_spinner.Domain.Failure.{
  ImageProcessingErrorCode, plain_error, limit_error, pixel_count, jpeg_structure_validation,
  malformed_jpeg_structure, unsupported_jpeg_deferred_height, unsupported_jpeg_sample_precision,
  unsupported_jpeg_component_organization, pixel_count_limit_exceeded,
}
use jpg_spinner.Domain.Geometry.{
  JpegCodingProcess, baseline_dct_huffman, extended_sequential_dct_huffman, progressive_dct_huffman,
  extended_sequential_dct_arithmetic, progressive_dct_arithmetic, JpegComponentDescription,
}
use jpg_spinner.Jpeg.Bytes.{Bytes, byte_at, try_read_big_endian_unsigned_16}
use jpg_spinner.Jpeg.IccChunks.{is_observed}
use jpg_spinner.Jpeg.Inventory.{JpegMarkerReference, JpegFrameHeader}
use jpg_spinner.Jpeg.Outcome.{Outcome, success, failure, ◌>>=◌}

-- frameHeaderError and scannerError.
abbrev pub structure_error {ℓ} : {A : Type ℓ} → ImageProcessingErrorCode → Outcome A
structure_error c = failure (plain_error c jpeg_structure_validation)

abbrev pub frame_header_pixel_limit_error {ℓ} : {A : Type ℓ} → ℕ → ℕ → Outcome A
frame_header_pixel_limit_error observed maximum = failure (
    limit_error pixel_count_limit_exceeded jpeg_structure_validation (record {
      resource_limit = pixel_count;
      observed_value = some observed;
      maximum_value = maximum;
    }))

abbrev pub is_supported_precision : JpegCodingProcess → ℕ → Bool
is_supported_precision baseline_dct_huffman bits = bits == 8
is_supported_precision extended_sequential_dct_huffman bits = bits == 8 || bits == 12
is_supported_precision progressive_dct_huffman bits = bits == 8 || bits == 12
is_supported_precision extended_sequential_dct_arithmetic bits = bits == 8 || bits == 12
is_supported_precision progressive_dct_arithmetic bits = bits == 8 || bits == 12

-- A repeated identifier, or a factor or selector outside of T.81's bounds; the factors are the two
-- halves of the packed byte.
abbrev pub is_illegal_component : List ℕ → ℕ → ℕ → ℕ → Bool
is_illegal_component observed identifier packed selector =
    is_observed observed identifier
    || packed / 16 == 0
    || ltb 4 (packed / 16)
    || packed % 16 == 0
    || ltb 4 (packed % 16)
    || ltb 3 selector

-- The loop over the components, for as many as are left.
unfoldable pub parse_components : ℕ → Bytes → ℕ → List ℕ → Outcome (List JpegComponentDescription)
parse_components zero bytes offset observed = success []
parse_components (suc n) bytes offset observed = do
  identifier ← byte_at bytes offset
  packed ← byte_at bytes (offset + 1)
  selector ← byte_at bytes (offset + 2)
  if is_illegal_component observed identifier packed selector
      then structure_error malformed_jpeg_structure
      else do
        rest ← parse_components n bytes (offset + 3) (identifier ∷ observed)
        success (
            record {
              component_identifier = identifier;
              horizontal_sampling_factor = packed / 16;
              vertical_sampling_factor = packed % 16;
              quantization_table_selector = selector;
            }
            ∷ rest)

-- The part of parseFrameHeader behind the reads of the dimensions.
unfoldable pub parse_frame_body :
    Bytes → JpegMarkerReference → JpegCodingProcess → ℕ → ℕ → ℕ → ℕ → Outcome JpegFrameHeader
parse_frame_body bytes marker process maximum count height width =
    if width == 0
    then structure_error malformed_jpeg_structure
    else if height == 0
    then structure_error unsupported_jpeg_deferred_height
    else do
      precision ← byte_at bytes marker.payload_range.offset_bytes
      if not (is_supported_precision process precision)
          then structure_error unsupported_jpeg_sample_precision
          else if not (count == 1) && not (count == 3) && not (count == 4)
          then structure_error unsupported_jpeg_component_organization
          else if ltb maximum (width * height)
          then frame_header_pixel_limit_error (width * height) maximum
          else do
            components ← parse_components count bytes (marker.payload_range.offset_bytes + 6) []
            success (record {
              coding_process = process;
              sample_precision_bits = precision;
              dimensions = record { width = width; height = height };
              components = components;
              encoded_range = marker.encoded_range;
            })

-- Both reads of a 16-bit dimension must succeed.
abbrev pub both_read : {A : Type 0} → Option ℕ → Option ℕ → (ℕ → ℕ → Outcome A) → Outcome A
both_read none w f = structure_error malformed_jpeg_structure
both_read (some h) none f = structure_error malformed_jpeg_structure
both_read (some h) (some w) f = f h w

unfoldable pub parse_frame_header :
    Bytes → JpegMarkerReference → JpegCodingProcess → ℕ → Outcome JpegFrameHeader
parse_frame_header bytes marker process maximum =
    if ltb marker.payload_range.length_bytes 6 then structure_error malformed_jpeg_structure else do
      count ← byte_at bytes (marker.payload_range.offset_bytes + 5)
      if count == 0 || not (marker.payload_range.length_bytes == 6 + 3 * count)
          then structure_error malformed_jpeg_structure
          else do
            height ← try_read_big_endian_unsigned_16 bytes (marker.payload_range.offset_bytes + 1)
            width ← try_read_big_endian_unsigned_16 bytes (marker.payload_range.offset_bytes + 3)
            both_read height width (parse_frame_body bytes marker process maximum count)

unfoldable pub is_valid_scan_header : Bytes → JpegMarkerReference → Outcome Bool
is_valid_scan_header bytes marker =
    if ltb marker.payload_range.length_bytes 4 then success false else do
      count ← byte_at bytes marker.payload_range.offset_bytes
      success (not (count == 0) && marker.payload_range.length_bytes == 4 + 2 * count)
