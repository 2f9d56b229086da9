-- ===== src/Jpeg/XmpChunks/Accepted.antt =====
-- Which lists of chunks with data are accepted, whatever their order.
use jpg_spinner.Prelude.{ℕ, ◌+◌, ◌≤◌, ◌<◌, ◌≡◌, ◌⊎◌, ◌&&◌, List, ltb, leb, if◌then◌else◌, All}
use jpg_spinner.Jpeg.Inventory.{ExtendedXmpChunkReference}
use jpg_spinner.Jpeg.XmpChunks.Cover.{Agrees, holders}

abbrev holds : ℕ → ExtendedXmpChunkReference → ℕ
holds k c =
    if leb c.chunk_offset_bytes k && ltb k (c.chunk_offset_bytes + c.packet_data_range.length_bytes)
    then 1
    else 0

-- A chunk with data.
abbrev pub HasData : ExtendedXmpChunkReference → Type 0
HasData c = 0 < c.packet_data_range.length_bytes

-- The bytes from `next` to `size`, and no others, lie in exactly one chunk.
abbrev Covers : ℕ → ℕ → List ExtendedXmpChunkReference → Type 0
Covers next size cs = (k : ℕ) → holders k cs ≡ (if leb next k && ltb k size then 1 else 0)

abbrev pub IsHexadecimal : ℕ → Type 0
IsHexadecimal d = ((0x30 ≤ d) × (d ≤ 0x39)) ⊎ ((0x41 ≤ d) × (d ≤ 0x46))

-- The chunks of one packet that they cover once: they share an identifier of hexadecimal digits and
-- a length, and each byte of that length, and no other, lies in exactly one of them.
pub record IsCover (c : ExtendedXmpChunkReference) (cs : List ExtendedXmpChunkReference)
    : Type 0 where
  pub digits : All IsHexadecimal c.packet_guid
  pub agree : All (Agrees c.packet_guid c.complete_packet_length_bytes) cs
  pub once : (k : ℕ) → holders k cs ≡ (if ltb k c.complete_packet_length_bytes then 1 else 0)
