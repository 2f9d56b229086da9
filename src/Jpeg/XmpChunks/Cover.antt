-- ===== src/Jpeg/XmpChunks/Cover.antt =====
-- The accepted chunks cover the packet once.
use mathlib.Core.List.{Perm}
use jpg_spinner.Prelude.{
  is_same_list_eq, ℕ, ◌+◌, ◌≤◌, ◌<◌, ◌≡◌, refl, ◌⊎◌, inl, inr, true, ◌&&◌, List, [], ◌∷◌, arith,
  ltb, leb, if◌then◌else◌, all_of, All, All-all_of,
}
use jpg_spinner.Jpeg.Inventory.{ExtendedXmpChunkReference}
use jpg_spinner.Jpeg.Ordering.{sort_by, sort_by-perm, sort_by-All}
use jpg_spinner.Jpeg.XmpChunks.{
  agrees, chunk_offset, is_contiguous, validate_and_order_extended_xmp_chunks,
}

-- How many of the chunks hold byte `k` of the packet.
abbrev pub holders : ℕ → List ExtendedXmpChunkReference → ℕ
holders k [] = 0
holders k (c ∷ cs) =
    (if leb c.chunk_offset_bytes k
        && ltb k (c.chunk_offset_bytes + c.packet_data_range.length_bytes)
      then 1
      else 0)
    + holders k cs

pub is_contiguous-holders :
    (total next k : ℕ) (cs : List ExtendedXmpChunkReference)
    → is_contiguous total next cs ≡ true
    → (next ≤ total) × (holders k cs ≡ (if leb next k && ltb k total then 1 else 0))
unfolding is_contiguous
is_contiguous-holders total next k [] h = ground arith
is_contiguous-holders total next k (c ∷ cs) h =
    ground (arith, is_contiguous-holders total (next + c.packet_data_range.length_bytes) k cs)

handed_on :
    (c : ExtendedXmpChunkReference) (cs : List ExtendedXmpChunkReference)
    → (validate_and_order_extended_xmp_chunks (c ∷ cs)).0 ≡ true
    → (is_contiguous c.complete_packet_length_bytes 0 (sort_by chunk_offset (c ∷ cs)) ≡ true)
      × ((validate_and_order_extended_xmp_chunks (c ∷ cs)).1 ≡ sort_by chunk_offset (c ∷ cs))
unfolding validate_and_order_extended_xmp_chunks
handed_on c cs h = ground arith

-- An accepted list is handed on as a permutation of itself in which every byte of the declared
-- packet lies in exactly one chunk, and no byte behind it in any.
pub validate_xmp_cover :
    (c : ExtendedXmpChunkReference) (cs : List ExtendedXmpChunkReference) (k : ℕ)
    → (validate_and_order_extended_xmp_chunks (c ∷ cs)).0 ≡ true
    → Perm (validate_and_order_extended_xmp_chunks (c ∷ cs)).1 (c ∷ cs)
      × (holders k (validate_and_order_extended_xmp_chunks (c ∷ cs)).1
          ≡ (if ltb k c.complete_packet_length_bytes then 1 else 0))
unfolding validate_and_order_extended_xmp_chunks
validate_xmp_cover c cs k h =
    let (valid, whole) = handed_on c cs h in
    rw whole (
      sort_by-perm chunk_offset (c ∷ cs),
      ground (
        arith,
        is_contiguous-holders c.complete_packet_length_bytes 0 k (sort_by chunk_offset (c ∷ cs))
            valid,
      ),
    )

-- A chunk of a packet with this identifier and length, which holds the chunk.
abbrev pub Agrees : List ℕ → ℕ → ExtendedXmpChunkReference → Type 0
Agrees guid total k =
    (k.packet_guid ≡ guid)
    × (k.complete_packet_length_bytes ≡ total)
    × (k.chunk_offset_bytes + k.packet_data_range.length_bytes ≤ total)

agrees-Agrees :
    (guid : List ℕ) (total : ℕ) (k : ExtendedXmpChunkReference)
    → agrees guid total k ≡ true
    → Agrees guid total k
unfolding agrees
agrees-Agrees guid total k h = ground (arith, is_same_list_eq k.packet_guid guid)

all_agree :
    (c : ExtendedXmpChunkReference) (cs : List ExtendedXmpChunkReference)
    → (validate_and_order_extended_xmp_chunks (c ∷ cs)).0 ≡ true
    → all_of (agrees c.packet_guid c.complete_packet_length_bytes) (c ∷ cs) ≡ true
unfolding validate_and_order_extended_xmp_chunks
all_agree c cs h = ground arith

-- The chunks of an accepted list share the first one's identifier and packet length, and lie
-- within that length.
pub validate_xmp_agree :
    (c : ExtendedXmpChunkReference) (cs : List ExtendedXmpChunkReference)
    → (validate_and_order_extended_xmp_chunks (c ∷ cs)).0 ≡ true
    → All (Agrees c.packet_guid c.complete_packet_length_bytes) (c ∷ cs)
validate_xmp_agree c cs h =
    All-all_of (agrees-Agrees c.packet_guid c.complete_packet_length_bytes) (c ∷ cs)
      (all_agree c cs h)

-- What holds of every chunk holds of every chunk that is handed on.
pub validate_xmp_All {κ} :
    (P : ExtendedXmpChunkReference → Type κ) (cs : List ExtendedXmpChunkReference)
    → (validate_and_order_extended_xmp_chunks cs).0 ≡ true
    → All P cs
    → All P (validate_and_order_extended_xmp_chunks cs).1
unfolding validate_and_order_extended_xmp_chunks
validate_xmp_All P [] h a = tt
validate_xmp_All P (c ∷ cs) h a = rw ((handed_on c cs h).1) (sort_by-All chunk_offset P (c ∷ cs) a)

-- The chunks stand one behind the other from `lo` to `hi`, each at the offset that it states.
abbrev pub InRow : ℕ → List ExtendedXmpChunkReference → ℕ → Type 0
InRow lo [] hi = lo ≡ hi
InRow lo (c ∷ cs) hi =
    (c.chunk_offset_bytes ≡ lo) × InRow (lo + c.packet_data_range.length_bytes) cs hi

is_contiguous-InRow :
    (total next : ℕ) (cs : List ExtendedXmpChunkReference)
    → is_contiguous total next cs ≡ true
    → InRow next cs total
unfolding is_contiguous
is_contiguous-InRow total next [] h = ground arith
is_contiguous-InRow total next (c ∷ cs) h = (
  ground arith,
  is_contiguous-InRow total (next + c.packet_data_range.length_bytes) cs (ground arith),
)

-- No chunk, or the chunks of one packet in their order: they state one identifier and one length,
-- which is not 0, and stand one behind the other from 0 to that length.
abbrev pub IsPacket : List ExtendedXmpChunkReference → Type 0
IsPacket cs =
    (cs ≡ [])
    ⊎ ((guid : List ℕ) × (total : ℕ) × (0 < total) × All (Agrees guid total) cs × InRow 0 cs total)

pub validate_xmp-IsPacket :
    (cs : List ExtendedXmpChunkReference)
    → (validate_and_order_extended_xmp_chunks cs).0 ≡ true
    → IsPacket (validate_and_order_extended_xmp_chunks cs).1
unfolding validate_and_order_extended_xmp_chunks
validate_xmp-IsPacket [] h = inl refl
validate_xmp-IsPacket (c ∷ cs) h =
    let (valid, whole) = handed_on c cs h in
    inr (
      c.packet_guid,
      c.complete_packet_length_bytes,
      ground arith,
      validate_xmp_All (Agrees c.packet_guid c.complete_packet_length_bytes) (c ∷ cs) h
          (validate_xmp_agree c cs h),
      rw whole (
          is_contiguous-InRow c.complete_packet_length_bytes 0 (sort_by chunk_offset (c ∷ cs))
            valid),
    )
