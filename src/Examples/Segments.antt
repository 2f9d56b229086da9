-- ===== src/Examples/Segments.antt =====
-- Segments and fragments at concrete bytes.
use jpg_spinner.Prelude.{◌+◌, ◌*◌, some, ◌≡◌, refl, ◌∷◌, [], List, arith}
use jpg_spinner.Domain.Failure.{production}
use jpg_spinner.Examples.Scans.{small_file}
use jpg_spinner.Jpeg.Bytes.{
  Bytes, try_read_big_endian_unsigned_16, try_read_big_endian_unsigned_32,
  try_read_big_endian_unsigned_64,
}
use jpg_spinner.Jpeg.Bytes.Numbers.{number, try_read_numbers}
use jpg_spinner.Jpeg.C2pa.Answers.{Answers, has_c2pa_manifest_store_identity-Answers}
use jpg_spinner.Jpeg.C2pa.{ActiveJpegXtBox, has_c2pa_manifest_store_identity}
use jpg_spinner.Jpeg.Fragments.Boxes.{Steps, step_fragment-Steps}
use jpg_spinner.Jpeg.Fragments.{Fragment, initial, step_fragment}
use jpg_spinner.Jpeg.Inventory.{range, JpegMarkerReference}
use jpg_spinner.Jpeg.Jumbf.Answers.{classify_jumbf_envelope-Yields, classify_jumbf_envelope_absent}
use jpg_spinner.Jpeg.Jumbf.{absent, classify_jumbf_envelope}
use jpg_spinner.Jpeg.Outcome.{success, Ensures, Yields}
use jpg_spinner.Jpeg.Scanner.{initial_state}
use jpg_spinner.Jpeg.Segments.Recorded.{IsRecorded, record_metadata-Ensures}
use jpg_spinner.Jpeg.Segments.{record_metadata}
use jpg_spinner.Jpeg.Steps.{segment_marker}

-- The span of an APP11 segment: its envelope, and a JUMBF superbox that is only a header.
abbrev fragment_bytes : Bytes
fragment_bytes =
    0x4A ∷ 0x50 ∷ 0x00 ∷ 0x01 ∷ 0x00 ∷ 0x00 ∷ 0x00 ∷ 0x01 ∷ 0x00 ∷ 0x00 ∷ 0x00 ∷ 0x08 ∷ 0x6A ∷ 0x75
    ∷ 0x6D ∷ 0x62 ∷ []

abbrev fragment : Fragment
fragment = record {
  instance_number = 1;
  packet_sequence_number = 1;
  box_length_32 = 8;
  box_header = 0x00 ∷ 0x00 ∷ 0x00 ∷ 0x08 ∷ 0x6A ∷ 0x75 ∷ 0x6D ∷ 0x62 ∷ [];
  payload_offset = 0;
  payload_length = 16;
}

step_fragment-Steps_example : Steps (step_fragment fragment_bytes initial fragment)
step_fragment-Steps_example =
    step_fragment-Steps fragment_bytes initial fragment
      (record { inside = omega arith; long = omega arith; header = refl }) tt

abbrev fragment_marker : JpegMarkerReference
fragment_marker = record {
  marker_code = 0xEB;
  encoded_range = range 0 16;
  payload_range = range 0 16;
}

classify_jumbf_envelope-Yields_example :
    Yields (λ _. Unit {0}) (classify_jumbf_envelope fragment_bytes (fragment_marker ∷ []))
classify_jumbf_envelope-Yields_example =
    classify_jumbf_envelope-Yields fragment_bytes (fragment_marker ∷ []) (omega arith, tt)

abbrev small_markers : List JpegMarkerReference
small_markers = segment_marker 0xC0 3 11 ∷ segment_marker 0xDA 16 8 ∷ []

classify_jumbf_envelope_absent_example :
    classify_jumbf_envelope small_file small_markers ≡ success absent
classify_jumbf_envelope_absent_example =
    classify_jumbf_envelope_absent small_file small_markers
      (λ e. ground arith, (λ e. ground arith, tt))

abbrev box : ActiveJpegXtBox
box = record {
  instance_number = 1;
  next_packet_sequence_number = 2;
  declared_box_length_bytes = 8;
  reconstructed_box_length_bytes = 8;
  repeated_box_header = fragment.box_header;
  identification_prefix = fragment.box_header;
}

has_c2pa_manifest_store_identity-Answers_example : Answers (has_c2pa_manifest_store_identity box)
has_c2pa_manifest_store_identity-Answers_example = has_c2pa_manifest_store_identity-Answers box

-- An Exif segment with two bytes of TIFF data.
abbrev exif_bytes : Bytes
exif_bytes = 0xFF ∷ 0xE1 ∷ 0x00 ∷ 0x0A ∷ 0x45 ∷ 0x78 ∷ 0x69 ∷ 0x66 ∷ 0x00 ∷ 0x00 ∷ 0x49 ∷ 0x49 ∷ []

record_metadata-Ensures_example :
    Ensures
      (IsRecorded 12 33554432 (segment_marker 0xE1 1 10) initial_state)
      (record_metadata exif_bytes production (segment_marker 0xE1 1 10) initial_state)
record_metadata-Ensures_example =
    record_metadata-Ensures exif_bytes production (segment_marker 0xE1 1 10) initial_state
      (omega arith) (record { exif = tt; standard_xmp = tt; icc = tt; extended_xmp = tt })
      (omega arith)

try_read_numbers_example :
    (try_read_big_endian_unsigned_16 (7 ∷ 1 ∷ 2 ∷ []) 1 ≡ success (some (256 * 1 + 2)))
    × (try_read_big_endian_unsigned_32 (7 ∷ 1 ∷ 2 ∷ 3 ∷ 4 ∷ []) 1
        ≡ success (some (number (1 ∷ 2 ∷ 3 ∷ 4 ∷ []))))
    × (try_read_big_endian_unsigned_64 (7 ∷ 1 ∷ 2 ∷ 3 ∷ 4 ∷ 5 ∷ 6 ∷ 7 ∷ 8 ∷ []) 1
        ≡ success (some (number (1 ∷ 2 ∷ 3 ∷ 4 ∷ 5 ∷ 6 ∷ 7 ∷ 8 ∷ []))))
try_read_numbers_example = try_read_numbers (7 ∷ []) [] 1 2 3 4 5 6 7 8
