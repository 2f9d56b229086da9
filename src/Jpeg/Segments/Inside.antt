-- ===== src/Jpeg/Segments/Inside.antt =====
-- The recorders of a segment's metadata one by one: what each notes lies within the span.
use jpg_spinner.Prelude.{
  ℕ, ◌+◌, ◌≤◌, ◌≡◌, refl, ap, ◌∙◌, true, false, not, List, Option, some, arith, length, ltb, All,
  All-concat,
}
use jpg_spinner.Jpeg.Bytes.Reads.{byte_at-Ensures, copy_n-Ensures, try_read_32-Ensures}
use jpg_spinner.Jpeg.Bytes.{Bytes}
use jpg_spinner.Jpeg.Inventory.{
  EncodedByteRange, JpegMarkerReference, JpegMetadataSegmentInventory, IccProfileChunkReference,
  ExtendedXmpChunkReference, end_of,
}
use jpg_spinner.Jpeg.Jumbf.Answers.{Holds, starts_with-Ensures}
use jpg_spinner.Jpeg.Markers.{
  application_segment_1_marker_code, application_segment_2_marker_code, exif_identifier,
  standard_xmp_identifier, extended_xmp_identifier, icc_profile_identifier, mp_format_identifier,
  icc_profile_chunk_header_length_bytes, extended_xmp_chunk_header_length_bytes,
}
use jpg_spinner.Jpeg.Outcome.{
  Outcome, Ensures, returns, refuses, Ensures-bind, Ensures-if, Ensures-weaken, ◌>>=◌,
}
use jpg_spinner.Jpeg.Segments.{
  ScanState, with_segments, record_exif, record_standard_xmp, add_extended_xmp_chunk,
  record_extended_xmp, refuse_multi_picture, record_icc_profile,
}

-- Every recorded range ends within `n` bytes.
pub record AreInside (n : ℕ) (m : JpegMetadataSegmentInventory) : Type 0 where
  pub exif : All (λ (r : EncodedByteRange). end_of r ≤ n) m.exif_tiff_data_ranges
  pub standard_xmp : All (λ (r : EncodedByteRange). end_of r ≤ n) m.standard_xmp_packet_ranges
  pub icc :
      All (λ (c : IccProfileChunkReference). end_of c.profile_data_range ≤ n) m.icc_profile_chunks
  pub extended_xmp :
      All (λ (c : ExtendedXmpChunkReference). end_of c.packet_data_range ≤ n) m.extended_xmp_chunks

-- Only the metadata inventory differs, and what it names lies within the span.
abbrev pub Keeps : ℕ → ScanState → ScanState → Type 0
Keeps n s t = (t ≡ with_segments s t.metadata_segments) × AreInside n t.metadata_segments

Keeps-trans : (n : ℕ) (s t u : ScanState) → Keeps n s t → Keeps n t u → Keeps n s u
Keeps-trans n s t u h k =
    (k.0 ∙ ap (λ (r : ScanState). with_segments r u.metadata_segments) h.0, k.1)

module _ (bytes : Bytes) (m : JpegMarkerReference) (s : ScanState) (h : Holds bytes m)
    (i : AreInside (length bytes) s.metadata_segments) where
  record_exif-Ensures : Ensures (Keeps (length bytes) s) (record_exif bytes m s)
  unfolding record_exif
  record_exif-Ensures =
      Ensures-bind (starts_with-Ensures bytes m application_segment_1_marker_code exif_identifier h)
        (elim [
          | true ↦ λ l. returns (
            refl,
            record {
              exif =
                  All-concat _ s.metadata_segments.exif_tiff_data_ranges _ i.exif
                    (omega (arith, l refl));
              standard_xmp = i.standard_xmp;
              icc = i.icc;
              extended_xmp = i.extended_xmp;
            },
          )
          | false ↦ λ _. returns (refl, i)
        ])

  record_standard_xmp-Ensures : Ensures (Keeps (length bytes) s) (record_standard_xmp bytes m s)
  unfolding record_standard_xmp
  record_standard_xmp-Ensures =
      Ensures-bind
        (starts_with-Ensures bytes m application_segment_1_marker_code standard_xmp_identifier h)
        (elim [
          | true ↦ λ l. returns (
            refl,
            record {
              exif = i.exif;
              standard_xmp =
                  All-concat _ s.metadata_segments.standard_xmp_packet_ranges _ i.standard_xmp
                    (omega (arith, l refl));
              icc = i.icc;
              extended_xmp = i.extended_xmp;
            },
          )
          | false ↦ λ _. returns (refl, i)
        ])

  add_extended_xmp_chunk-Ensures :
      (guid : List ℕ) (complete offset : Option ℕ)
      → extended_xmp_chunk_header_length_bytes ≤ m.payload_range.length_bytes
      → Ensures (Keeps (length bytes) s) (add_extended_xmp_chunk m s guid complete offset)
  unfolding add_extended_xmp_chunk
  add_extended_xmp_chunk-Ensures guid (some c) (some o) l = returns (
    refl,
    record {
      exif = i.exif;
      standard_xmp = i.standard_xmp;
      icc = i.icc;
      extended_xmp =
          All-concat _ s.metadata_segments.extended_xmp_chunks _ i.extended_xmp (omega arith);
    },
  )
  add_extended_xmp_chunk-Ensures guid _ _ l = refuses refl

  record_extended_xmp-Ensures : Ensures (Keeps (length bytes) s) (record_extended_xmp bytes m s)
  unfolding record_extended_xmp
  record_extended_xmp-Ensures =
      Ensures-bind
        (starts_with-Ensures bytes m application_segment_1_marker_code extended_xmp_identifier h)
        λ found _.
          Ensures-if (not found) (λ _. returns (refl, i))
            λ _.
              Ensures-if (ltb m.payload_range.length_bytes extended_xmp_chunk_header_length_bytes)
                (λ _. refuses refl)
                λ l.
                  Ensures-bind
                    (copy_n-Ensures bytes
                      (m.payload_range.offset_bytes + length extended_xmp_identifier) 32
                      (ground arith))
                    λ guid _. Ensures-bind (try_read_32-Ensures bytes _) λ complete _.
                      Ensures-bind (try_read_32-Ensures bytes _) λ offset _.
                        add_extended_xmp_chunk-Ensures guid complete offset (ground arith)

  refuse_multi_picture-Ensures : Ensures (Keeps (length bytes) s) (refuse_multi_picture bytes m s)
  unfolding refuse_multi_picture
  refuse_multi_picture-Ensures =
      Ensures-bind
        (starts_with-Ensures bytes m application_segment_2_marker_code mp_format_identifier h)
        λ found _. Ensures-if found (λ _. refuses refl) (λ _. returns (refl, i))

  record_icc_profile-Ensures : Ensures (Keeps (length bytes) s) (record_icc_profile bytes m s)
  unfolding record_icc_profile
  record_icc_profile-Ensures =
      Ensures-bind
        (starts_with-Ensures bytes m application_segment_2_marker_code icc_profile_identifier h)
        λ found _.
          Ensures-if (not found) (λ _. returns (refl, i))
            λ _.
              Ensures-if (ltb m.payload_range.length_bytes icc_profile_chunk_header_length_bytes)
                (λ _. refuses refl)
                λ l.
                  Ensures-bind
                    (byte_at-Ensures bytes (m.payload_range.offset_bytes + 12) (ground arith))
                    λ number _.
                      Ensures-bind
                        (byte_at-Ensures bytes (m.payload_range.offset_bytes + 13) (ground arith))
                        λ count _. returns (
                          refl,
                          record {
                            exif = i.exif;
                            standard_xmp = i.standard_xmp;
                            icc =
                                All-concat _ s.metadata_segments.icc_profile_chunks _ i.icc
                                  (ground arith);
                            extended_xmp = i.extended_xmp;
                          },
                        )

-- A recorder that keeps all but the inventory may follow another one.
bind-Keeps :
    (bytes : Bytes) (s : ScanState) (first : Outcome ScanState)
    (next : ScanState → Outcome ScanState)
    → Ensures (Keeps (length bytes) s) first
    → ((t : ScanState)
        → AreInside (length bytes) t.metadata_segments
        → Ensures (Keeps (length bytes) t) (next t))
    → Ensures (Keeps (length bytes) s) (first >>= next)
bind-Keeps bytes s first next h k =
    Ensures-bind h λ t p. Ensures-weaken (λ u q. Keeps-trans (length bytes) s t u p q) (k t p.1)

-- The recorders one after the other, as `record_metadata` calls them.
pub recorders-Ensures :
    (bytes : Bytes) (m : JpegMarkerReference) (s : ScanState)
    → Holds bytes m
    → AreInside (length bytes) s.metadata_segments
    → Ensures (Keeps (length bytes) s) (
        record_exif bytes m s >>= λ a. record_standard_xmp bytes m a >>= λ b.
        record_extended_xmp bytes m b >>= λ c.
        refuse_multi_picture bytes m c >>= record_icc_profile bytes m)
recorders-Ensures bytes m s h i =
    bind-Keeps bytes s (record_exif bytes m s) _ (record_exif-Ensures bytes m s h i) λ a ia.
      bind-Keeps bytes a (record_standard_xmp bytes m a) _
        (record_standard_xmp-Ensures bytes m a h ia)
        λ b ib.
          bind-Keeps bytes b (record_extended_xmp bytes m b) _
            (record_extended_xmp-Ensures bytes m b h ib)
            λ c ic.
              bind-Keeps bytes c (refuse_multi_picture bytes m c) _
                (refuse_multi_picture-Ensures bytes m c h ic)
                λ d id. record_icc_profile-Ensures bytes m d h id
