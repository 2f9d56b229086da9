-- ===== src/Examples/Metadata.antt =====
-- Chunk lists at concrete chunks.
use mathlib.Core.List.{Perm}
use jpg_spinner.Prelude.{is_same_list, ℕ, ◌≡◌, ◌↔◌, ◌⊎◌, refl, ◌∷◌, [], List, map, true, All}
use jpg_spinner.Jpeg.IccChunks.Complete.{
  number_of, IsComplete, validate_icc_iff, validate_icc_order,
}
use jpg_spinner.Jpeg.IccChunks.{observe_chunks, validate_and_order_icc_profile_chunks}
use jpg_spinner.Jpeg.Inventory.{range, IccProfileChunkReference, ExtendedXmpChunkReference}
use jpg_spinner.Jpeg.Ordering.{numbers_from, sort_by, insert_by}
use jpg_spinner.Jpeg.XmpChunks.Cover.{holders, Agrees, validate_xmp_cover, validate_xmp_agree}
use jpg_spinner.Jpeg.XmpChunks.{
  agrees, is_contiguous, is_uppercase_hexadecimal_character, validate_and_order_extended_xmp_chunks,
}

abbrev icc_chunk : ℕ → ℕ → IccProfileChunkReference
icc_chunk number offset = record {
  sequence_number = number;
  chunk_count = 2;
  profile_data_range = range offset 7;
}

-- The second chunk stands first.
abbrev icc_chunks : List IccProfileChunkReference
icc_chunks = icc_chunk 2 20 ∷ icc_chunk 1 60 ∷ []

icc_chunks_accepted : (validate_and_order_icc_profile_chunks icc_chunks).0 ≡ true
unfolding validate_and_order_icc_profile_chunks observe_chunks
icc_chunks_accepted = refl

validate_icc_iff_example :
    ((validate_and_order_icc_profile_chunks icc_chunks).0 ≡ true)
    ↔ ((icc_chunks ≡ []) ⊎ IsComplete icc_chunks)
validate_icc_iff_example = validate_icc_iff icc_chunks

validate_icc_order_example :
    Perm (validate_and_order_icc_profile_chunks icc_chunks).1 icc_chunks
    × (map number_of (validate_and_order_icc_profile_chunks icc_chunks).1 ≡ numbers_from 1 2)
validate_icc_order_example = validate_icc_order icc_chunks icc_chunks_accepted

-- A chunk of a packet of 12 bytes; the identifier is cut short.
abbrev xmp_chunk : ℕ → ℕ → ExtendedXmpChunkReference
xmp_chunk offset n = record {
  packet_guid = 0x41 ∷ 0x30 ∷ [];
  complete_packet_length_bytes = 12;
  chunk_offset_bytes = offset;
  packet_data_range = range 100 n;
}

xmp_chunks_accepted :
    (validate_and_order_extended_xmp_chunks (xmp_chunk 5 7 ∷ xmp_chunk 0 5 ∷ [])).0 ≡ true
unfolding validate_and_order_extended_xmp_chunks is_contiguous agrees is_same_list
    is_uppercase_hexadecimal_character sort_by insert_by
xmp_chunks_accepted = refl

validate_xmp_cover_example :
    Perm
      (validate_and_order_extended_xmp_chunks (xmp_chunk 5 7 ∷ xmp_chunk 0 5 ∷ [])).1
      (xmp_chunk 5 7 ∷ xmp_chunk 0 5 ∷ [])
    × (holders 6 (validate_and_order_extended_xmp_chunks (xmp_chunk 5 7 ∷ xmp_chunk 0 5 ∷ [])).1
        ≡ 1)
validate_xmp_cover_example =
    validate_xmp_cover (xmp_chunk 5 7) (xmp_chunk 0 5 ∷ []) 6 xmp_chunks_accepted

validate_xmp_agree_example : All (Agrees (0x41 ∷ 0x30 ∷ []) 12) (xmp_chunk 5 7 ∷ xmp_chunk 0 5 ∷ [])
validate_xmp_agree_example =
    validate_xmp_agree (xmp_chunk 5 7) (xmp_chunk 0 5 ∷ []) xmp_chunks_accepted
