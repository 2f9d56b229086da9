-- ===== src/Jpeg/Markers.antt =====
-- The marker codes, identifiers and classifications of JpegSegmentScanner.cpp.
use Prim.Native.Char.{code}
use Prim.Native.String.{String}
use jpg_spinner.Prelude.{
  ℕ, ◌+◌, Bool, true, false, not, ◌&&◌, ◌||◌, [], ◌∷◌, ◌++◌, Option, none, some, ltb, leb, ◌==◌,
  if◌then◌else◌, length,
}
use jpg_spinner.Domain.Geometry.{
  JpegCodingProcess, baseline_dct_huffman, extended_sequential_dct_huffman, progressive_dct_huffman,
  extended_sequential_dct_arithmetic, progressive_dct_arithmetic,
}
use jpg_spinner.Jpeg.Bytes.{Bytes, equal_at}
use jpg_spinner.Jpeg.Inventory.{JpegMarkerReference}
use jpg_spinner.Jpeg.Outcome.{Outcome, success}

abbrev pub marker_prefix : ℕ
marker_prefix = 0xFF

abbrev pub stuffed_entropy_byte_code : ℕ
stuffed_entropy_byte_code = 0x00

abbrev pub temporary_marker_code : ℕ
temporary_marker_code = 0x01

abbrev pub start_of_image_marker_code : ℕ
start_of_image_marker_code = 0xD8

abbrev pub end_of_image_marker_code : ℕ
end_of_image_marker_code = 0xD9

abbrev pub start_of_scan_marker_code : ℕ
start_of_scan_marker_code = 0xDA

abbrev pub application_segment_1_marker_code : ℕ
application_segment_1_marker_code = 0xE1

abbrev pub application_segment_2_marker_code : ℕ
application_segment_2_marker_code = 0xE2

abbrev pub application_segment_11_marker_code : ℕ
application_segment_11_marker_code = 0xEB

-- The code points of an ASCII text.
abbrev ascii : String → Bytes
ascii String.[] = []
ascii (String.◌∷◌ c s) = code c ∷ ascii s

abbrev null_terminated_ascii_identifier : String → Bytes
null_terminated_ascii_identifier s = ascii s ++ 0 ∷ []

abbrev pub exif_identifier : Bytes
exif_identifier = ascii "Exif" ++ 0 ∷ 0 ∷ []

abbrev pub jpeg_xt_box_fragment_identifier : Bytes
jpeg_xt_box_fragment_identifier = ascii "JP"

abbrev pub jumbf_superbox_type : Bytes
jumbf_superbox_type = ascii "jumb"

abbrev pub jumbf_description_box_type : Bytes
jumbf_description_box_type = ascii "jumd"

abbrev pub c2pa_manifest_store_type_uuid : Bytes
c2pa_manifest_store_type_uuid =
    0x63 ∷ 0x32 ∷ 0x70 ∷ 0x61 ∷ 0x00 ∷ 0x11 ∷ 0x00 ∷ 0x10 ∷ 0x80 ∷ 0x00 ∷ 0x00 ∷ 0xAA ∷ 0x00 ∷ 0x38
    ∷ 0x9B ∷ 0x71 ∷ []

abbrev pub c2pa_manifest_store_label : Bytes
c2pa_manifest_store_label = null_terminated_ascii_identifier "c2pa"

abbrev pub standard_xmp_identifier : Bytes
standard_xmp_identifier = null_terminated_ascii_identifier "http://ns.adobe.com/xap/1.0/"

abbrev pub extended_xmp_identifier : Bytes
extended_xmp_identifier = null_terminated_ascii_identifier "http://ns.adobe.com/xmp/extension/"

abbrev pub icc_profile_identifier : Bytes
icc_profile_identifier = null_terminated_ascii_identifier "ICC_PROFILE"

abbrev pub mp_format_identifier : Bytes
mp_format_identifier = null_terminated_ascii_identifier "MPF"

abbrev pub icc_profile_chunk_header_length_bytes : ℕ
icc_profile_chunk_header_length_bytes = length icc_profile_identifier + 2

abbrev pub extended_xmp_guid_length_bytes : ℕ
extended_xmp_guid_length_bytes = 32

abbrev pub extended_xmp_chunk_header_length_bytes : ℕ
extended_xmp_chunk_header_length_bytes =
    length extended_xmp_identifier + extended_xmp_guid_length_bytes + 4 + 4

unfoldable pub is_restart_marker : ℕ → Bool
is_restart_marker c = leb 0xD0 c && leb c 0xD7

unfoldable pub is_metadata_marker : ℕ → Bool
is_metadata_marker c = (leb 0xE0 c && leb c 0xEF) || c == 0xFE

unfoldable pub supported_coding_process_for : ℕ → Option JpegCodingProcess
supported_coding_process_for c =
    if c == 0xC0
    then some baseline_dct_huffman
    else if c == 0xC1
    then some extended_sequential_dct_huffman
    else if c == 0xC2
    then some progressive_dct_huffman
    else if c == 0xC9
    then some extended_sequential_dct_arithmetic
    else if c == 0xCA
    then some progressive_dct_arithmetic
    else none

unfoldable pub is_unsupported_coding_process_marker : ℕ → Bool
is_unsupported_coding_process_marker c =
    c == 0xC3
    || c == 0xC5
    || c == 0xC6
    || c == 0xC7
    || c == 0xCB
    || c == 0xCD
    || c == 0xCE
    || c == 0xCF
    || c == 0xF7
    || c == 0xC8
    || c == 0xDE
    || c == 0xDF

unfoldable pub is_progressive_coding_process : JpegCodingProcess → Bool
is_progressive_coding_process progressive_dct_huffman = true
is_progressive_coding_process progressive_dct_arithmetic = true
is_progressive_coding_process baseline_dct_huffman = false
is_progressive_coding_process extended_sequential_dct_huffman = false
is_progressive_coding_process extended_sequential_dct_arithmetic = false

unfoldable pub marker_payload_starts_with : Bytes → JpegMarkerReference → ℕ → Bytes → Outcome Bool
marker_payload_starts_with bytes marker required identifier =
    if not (marker.marker_code == required)
      || ltb marker.payload_range.length_bytes (length identifier)
    then success false
    else equal_at bytes marker.payload_range.offset_bytes identifier
