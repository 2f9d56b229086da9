-- ===== src/Jpeg/Inventory.antt =====
-- JpegMarkerInventory.h: what the scan records. Ranges are offsets and lengths in the source bytes.
pub mod Ranges
use jpg_spinner.Prelude.{ℕ, ◌+◌, ◌-◌, Bool, ◌&&◌, List, leb}
use jpg_spinner.Domain.Geometry.{ImageDimensions, JpegCodingProcess, JpegComponentDescription}

pub record EncodedByteRange : Type 0 where
  pub offset_bytes : ℕ
  pub length_bytes : ℕ

abbrev pub range : ℕ → ℕ → EncodedByteRange
range o n = record { offset_bytes = o; length_bytes = n }

unfoldable pub is_contained_within : EncodedByteRange → ℕ → Bool
is_contained_within r n = leb r.offset_bytes n && leb r.length_bytes (n - r.offset_bytes)

-- The end of the range, which the source never computes: its operands are untrusted.
abbrev pub end_of : EncodedByteRange → ℕ
end_of r = r.offset_bytes + r.length_bytes

pub record JpegFrameHeader : Type 0 where
  pub coding_process : JpegCodingProcess
  pub sample_precision_bits : ℕ
  pub dimensions : ImageDimensions
  pub components : List JpegComponentDescription
  pub encoded_range : EncodedByteRange

pub record JpegMarkerReference : Type 0 where
  pub marker_code : ℕ
  pub encoded_range : EncodedByteRange
  pub payload_range : EncodedByteRange

pub record IccProfileChunkReference : Type 0 where
  pub sequence_number : ℕ
  pub chunk_count : ℕ
  pub profile_data_range : EncodedByteRange

-- ExtendedXmpGuid is the list of its 32 characters.
pub record ExtendedXmpChunkReference : Type 0 where
  pub packet_guid : List ℕ
  pub complete_packet_length_bytes : ℕ
  pub chunk_offset_bytes : ℕ
  pub packet_data_range : EncodedByteRange

pub record JpegMetadataSegmentInventory : Type 0 where
  pub exif_tiff_data_ranges : List EncodedByteRange
  pub standard_xmp_packet_ranges : List EncodedByteRange
  pub icc_profile_chunks : List IccProfileChunkReference
  pub extended_xmp_chunks : List ExtendedXmpChunkReference

pub record JpegMarkerInventory : Type 0 where
  pub encoded_source_length_bytes : ℕ
  pub frame_header : JpegFrameHeader
  pub scan_count : ℕ
  pub metadata_encoded_length_bytes : ℕ
  pub end_of_image_marker_offset_bytes : ℕ
  pub markers : List JpegMarkerReference
  pub entropy_coded_data_ranges : List EncodedByteRange
  pub metadata_segments : JpegMetadataSegmentInventory

-- trailingDataRange
unfoldable pub trailing_data_range : JpegMarkerInventory → EncodedByteRange
trailing_data_range i =
    range (i.end_of_image_marker_offset_bytes + 2)
      (i.encoded_source_length_bytes - (i.end_of_image_marker_offset_bytes + 2))
