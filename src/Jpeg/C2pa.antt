-- ===== src/Jpeg/C2pa.antt =====
-- ActiveJpegXtBox and hasC2paManifestStoreIdentity of JpegSegmentScanner.cpp: whether the kept prefix
-- of a reconstructed JUMBF box names a C2PA manifest store.
pub mod Answers
use jpg_spinner.Prelude.{
  ℕ, ◌+◌, ◌-◌, ◌%◌, ◌^◌, Bool, true, false, not, ◌||◌, Option, none, some, length, ltb, leb, ◌==◌,
  if◌then◌else◌,
}
use jpg_spinner.Jpeg.Bytes.{
  Bytes, byte_at, try_read_big_endian_unsigned_32, try_read_big_endian_unsigned_64,
  encoded_bytes_equal,
}
use jpg_spinner.Jpeg.Markers.{
  jumbf_superbox_type, jumbf_description_box_type, c2pa_manifest_store_type_uuid,
  c2pa_manifest_store_label,
}
use jpg_spinner.Jpeg.Outcome.{Outcome, success, ◌>>=◌}

pub record ActiveJpegXtBox : Type 0 where
  pub instance_number : ℕ
  pub next_packet_sequence_number : ℕ
  pub declared_box_length_bytes : ℕ
  pub reconstructed_box_length_bytes : ℕ
  pub repeated_box_header : Bytes
  pub identification_prefix : Bytes

-- A difference of 64-bit values, with its wrap-around.
abbrev pub sub_u64 : ℕ → ℕ → ℕ
sub_u64 a b = (a + 2 ^ 64 - b) % 2 ^ 64

abbrev pub basic_iso_box_header_length_bytes : ℕ
basic_iso_box_header_length_bytes = 8

abbrev pub large_iso_box_header_length_bytes : ℕ
large_iso_box_header_length_bytes = 16

abbrev pub is_some_number : Option ℕ → ℕ → Bool
is_some_number none n = false
is_some_number (some m) n = m == n

-- The toggles behind the identifier, and the label.
has_manifest_label : Bytes → ℕ → Outcome Bool
has_manifest_label prefix toggles_offset =
    if leb (length prefix) toggles_offset then success false else do
      toggles ← byte_at prefix toggles_offset
      if not (toggles % 4 == 3)
          then success false
          else encoded_bytes_equal prefix (toggles_offset + 1) c2pa_manifest_store_label

-- The header of the description box has `header` bytes, and declares `declared`.
has_manifest_description : Bytes → ℕ → ℕ → ℕ → ℕ → Outcome Bool
has_manifest_description prefix box_length offset header declared =
    if ltb declared
        (header + (length c2pa_manifest_store_type_uuid + 1 + length c2pa_manifest_store_label))
      || ltb (sub_u64 box_length offset) declared
    then success false
    else do
      is_manifest ← encoded_bytes_equal prefix (offset + header) c2pa_manifest_store_type_uuid
      if not is_manifest
          then success false
          else has_manifest_label prefix (offset + header + length c2pa_manifest_store_type_uuid)

large_description : Bytes → ℕ → ℕ → Option ℕ → Outcome Bool
large_description prefix box_length offset none = success false
large_description prefix box_length offset (some declared) =
    has_manifest_description prefix box_length offset large_iso_box_header_length_bytes declared

-- The description box behind an outer header of `offset` bytes.
has_description_box : Bytes → ℕ → ℕ → Option ℕ → Outcome Bool
has_description_box prefix box_length offset none = success false
has_description_box prefix box_length offset (some length_32) = do
  is_description ← encoded_bytes_equal prefix (offset + 4) jumbf_description_box_type
  if not is_description
      then success false
      else if length_32 == 1
      then try_read_big_endian_unsigned_64 prefix (offset + 8)
        >>= large_description prefix box_length offset
      else has_manifest_description prefix box_length offset basic_iso_box_header_length_bytes
          length_32

-- What stands behind the outer header, once its length is known.
description_at : ActiveJpegXtBox → ℕ → Outcome Bool
description_at box offset =
    try_read_big_endian_unsigned_32 box.identification_prefix offset
    >>= has_description_box box.identification_prefix box.declared_box_length_bytes offset

large_outer_box : ActiveJpegXtBox → Option ℕ → Outcome Bool
large_outer_box box large =
    if not (is_some_number large box.declared_box_length_bytes)
    then success false
    else description_at box large_iso_box_header_length_bytes

has_outer_box : ActiveJpegXtBox → Option ℕ → Outcome Bool
has_outer_box box none = success false
has_outer_box box (some length_32) = do
  is_superbox ← encoded_bytes_equal box.identification_prefix 4 jumbf_superbox_type
  if not is_superbox
      then success false
      else if length_32 == 1
      then try_read_big_endian_unsigned_64 box.identification_prefix 8 >>= large_outer_box box
      else if not (length_32 == box.declared_box_length_bytes)
      then success false
      else description_at box basic_iso_box_header_length_bytes

pub has_c2pa_manifest_store_identity : ActiveJpegXtBox → Outcome Bool
has_c2pa_manifest_store_identity box =
    try_read_big_endian_unsigned_32 box.identification_prefix 0 >>= has_outer_box box
