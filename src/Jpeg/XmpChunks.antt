-- ===== src/Jpeg/XmpChunks.antt =====
-- validateAndOrderExtendedXmpChunks of JpegSegmentScanner.cpp: the chunks of one Extended XMP packet.
pub mod Cover
pub mod Accepted
use jpg_spinner.Prelude.{
  ℕ, ◌+◌, ◌-◌, Bool, true, false, not, ◌&&◌, ◌||◌, List, [], ◌∷◌, ltb, leb, ◌==◌, if◌then◌else◌,
  all_of, is_same_list,
}
use jpg_spinner.Jpeg.Inventory.{ExtendedXmpChunkReference}
use jpg_spinner.Jpeg.Ordering.{sort_by}

unfoldable pub is_uppercase_hexadecimal_character : ℕ → Bool
is_uppercase_hexadecimal_character c = (leb b'0' c && leb c b'9') || (leb b'A' c && leb c b'F')

abbrev pub is_valid_extended_xmp_guid : List ℕ → Bool
is_valid_extended_xmp_guid guid = all_of is_uppercase_hexadecimal_character guid

abbrev pub chunk_offset : ExtendedXmpChunkReference → ℕ
chunk_offset c = c.chunk_offset_bytes

-- The first loop: each chunk agrees with the first one, and lies within the packet.
unfoldable pub agrees : List ℕ → ℕ → ExtendedXmpChunkReference → Bool
agrees guid total c = not (
    not (is_same_list c.packet_guid guid)
    || not (is_valid_extended_xmp_guid c.packet_guid)
    || not (c.complete_packet_length_bytes == total)
    || ltb total c.chunk_offset_bytes
    || ltb (total - c.chunk_offset_bytes) c.packet_data_range.length_bytes)

-- The second loop, with the comparison behind it.
unfoldable pub is_contiguous : ℕ → ℕ → List ExtendedXmpChunkReference → Bool
is_contiguous total next [] = next == total
is_contiguous total next (c ∷ cs) =
    if not (c.chunk_offset_bytes == next)
    then false
    else is_contiguous total (next + c.packet_data_range.length_bytes) cs

-- The answer, and the list as the call leaves it.
unfoldable pub validate_and_order_extended_xmp_chunks :
    List ExtendedXmpChunkReference → Bool × List ExtendedXmpChunkReference
validate_and_order_extended_xmp_chunks [] = (true, [])
validate_and_order_extended_xmp_chunks (c ∷ cs) =
    if not (is_valid_extended_xmp_guid c.packet_guid) || c.complete_packet_length_bytes == 0
    then (false, c ∷ cs)
    else if not (all_of (agrees c.packet_guid c.complete_packet_length_bytes) (c ∷ cs))
    then (false, c ∷ cs)
    else (
      is_contiguous c.complete_packet_length_bytes 0 (sort_by chunk_offset (c ∷ cs)),
      sort_by chunk_offset (c ∷ cs),
    )
