-- ===== src/Jpeg/FrameHeader/Supported.antt =====
-- What an accepted frame header says, and that its parse stays within the payload.
use jpg_spinner.Prelude.{
  ℕ, zero, suc, ◌+◌, ◌*◌, ◌≤◌, ◌<◌, ◌≡◌, ◌≢◌, refl, ◌⊎◌, true, false, not, ◌&&◌, ◌||◌, List, [],
  ◌∷◌, Option, none, some, arith, length, All, All-weaken, ltb, ◌==◌, ap,
}
use jpg_spinner.Domain.Geometry.{JpegCodingProcess, baseline_dct_huffman, JpegComponentDescription}
use jpg_spinner.Jpeg.Bytes.Reads.{byte_at-Ensures, try_read_16-Ensures}
use jpg_spinner.Jpeg.Bytes.{Bytes}
use jpg_spinner.Jpeg.FrameHeader.{
  parse_components, parse_frame_body, parse_frame_header, is_valid_scan_header, both_read,
  is_supported_precision, is_illegal_component,
}
use jpg_spinner.Jpeg.IccChunks.{is_observed}
use jpg_spinner.Jpeg.Inventory.{JpegMarkerReference, JpegFrameHeader, end_of}
use jpg_spinner.Jpeg.Ordering.{Distinct}
use jpg_spinner.Jpeg.Outcome.{Ensures, returns, refuses, Ensures-bind, Ensures-if}

abbrev pub identifier_of : JpegComponentDescription → ℕ
identifier_of c = c.component_identifier

-- Table B.2 of T.81 for one component.
abbrev pub IsLegal : JpegComponentDescription → Type 0
IsLegal c =
    (0 < c.horizontal_sampling_factor)
    × (c.horizontal_sampling_factor ≤ 4)
    × (0 < c.vertical_sampling_factor)
    × (c.vertical_sampling_factor ≤ 4)
    × (c.quantization_table_selector ≤ 3)

-- `n` legal components, whose identifiers are new and different.
record AreParsed (n : ℕ) (observed : List ℕ) (cs : List JpegComponentDescription) : Type 0 where
  counted : length cs ≡ n
  legal : All IsLegal cs
  fresh : All (λ c. is_observed observed c.component_identifier ≡ false) cs
  distinct : Distinct identifier_of cs

parse_components-Ensures :
    (n : ℕ) (bytes : Bytes) (offset : ℕ) (observed : List ℕ)
    → offset + 3 * n ≤ length bytes
    → Ensures (AreParsed n observed) (parse_components n bytes offset observed)
unfolding parse_components
parse_components-Ensures zero bytes offset observed h =
    returns (record { counted = refl; legal = tt; fresh = tt; distinct = tt })
parse_components-Ensures (suc n) bytes offset observed h =
    Ensures-bind (byte_at-Ensures bytes offset (omega arith)) λ identifier _.
      Ensures-bind (byte_at-Ensures bytes (offset + 1) (omega arith)) λ packed _.
        Ensures-bind (byte_at-Ensures bytes (offset + 2) (omega arith)) λ selector _.
          Ensures-if (is_illegal_component observed identifier packed selector) (λ _. refuses refl)
            λ legal.
              Ensures-bind
                (parse_components-Ensures n bytes (offset + 3) (identifier ∷ observed)
                  (omega arith))
                λ rest v. returns (record {
                  counted = ap suc v.counted;
                  legal = (ground arith, v.legal);
                  fresh = (ground arith, All-weaken (λ c p. ground arith) rest v.fresh);
                  distinct = (All-weaken (λ c p. ground arith) rest v.fresh, v.distinct);
                })

-- Eight bits, or twelve where the process allows them.
abbrev pub HasPrecision : JpegCodingProcess → ℕ → Type 0
HasPrecision process bits = (bits ≡ 8) ⊎ ((bits ≡ 12) × (process ≢ baseline_dct_huffman))

-- The properties of a frame header that the scan accepts.
pub record IsSupported (process : JpegCodingProcess) (maximum : ℕ) (h : JpegFrameHeader)
    : Type 0 where
  pub process_is : h.coding_process ≡ process
  pub width_positive : 0 < h.dimensions.width
  pub height_positive : 0 < h.dimensions.height
  pub bounded : h.dimensions.width * h.dimensions.height ≤ maximum
  pub precision : HasPrecision process h.sample_precision_bits
  pub component_count :
      (length h.components ≡ 1) ⊎ (length h.components ≡ 3) ⊎ (length h.components ≡ 4)
  pub legal : All IsLegal h.components
  pub distinct : Distinct identifier_of h.components

supported_precision :
    (process : JpegCodingProcess) (bits : ℕ)
    → is_supported_precision process bits ≡ true
    → HasPrecision process bits
supported_precision baseline_dct_huffman bits h = ground arith
supported_precision _ bits h = ground arith

supported :
    (process : JpegCodingProcess) (maximum count precision : ℕ) (h : JpegFrameHeader)
    → AreParsed count [] h.components
    → h.coding_process ≡ process
    → h.sample_precision_bits ≡ precision
    → (h.dimensions.width == 0) ≡ false
    → (h.dimensions.height == 0) ≡ false
    → not (is_supported_precision process precision) ≡ false
    → (not (count == 1) && not (count == 3) && not (count == 4)) ≡ false
    → ltb maximum (h.dimensions.width * h.dimensions.height) ≡ false
    → IsSupported process maximum h
supported process maximum count precision h v e d w t p c m = record {
  process_is = e;
  width_positive = ground arith;
  height_positive = ground arith;
  bounded = ground arith;
  precision = rw d (supported_precision process precision (ground arith));
  component_count = ground (arith, v.counted);
  legal = v.legal;
  distinct = v.distinct;
}

-- A supported header that carries the range of its marker.
abbrev pub IsHeaderOf : JpegMarkerReference → JpegCodingProcess → ℕ → JpegFrameHeader → Type 0
IsHeaderOf marker process maximum h =
    IsSupported process maximum h × (h.encoded_range ≡ marker.encoded_range)

module _ (bytes : Bytes) (marker : JpegMarkerReference) (process : JpegCodingProcess) (maximum : ℕ)
    (inside : end_of marker.payload_range ≤ length bytes) where
  parse_frame_body-Ensures :
      (count height width : ℕ)
      → marker.payload_range.length_bytes ≡ 6 + 3 * count
      → Ensures
          (IsHeaderOf marker process maximum)
          (parse_frame_body bytes marker process maximum count height width)
  unfolding parse_frame_body
  parse_frame_body-Ensures count height width l =
      Ensures-if (width == 0) (λ _. refuses refl)
        λ w.
          Ensures-if (height == 0) (λ _. refuses refl)
            λ t.
              Ensures-bind (byte_at-Ensures bytes marker.payload_range.offset_bytes (omega arith))
                λ precision _.
                  Ensures-if (not (is_supported_precision process precision)) (λ _. refuses refl)
                    λ p.
                      Ensures-if (not (count == 1) && not (count == 3) && not (count == 4))
                        (λ _. refuses refl)
                        λ c.
                          Ensures-if (ltb maximum (width * height)) (λ _. refuses refl)
                            λ m.
                              Ensures-bind
                                (parse_components-Ensures count bytes
                                  (marker.payload_range.offset_bytes + 6) [] (omega arith))
                                λ cs v. returns (
                                  supported process maximum count precision _ v refl refl w t p c m,
                                  refl,
                                )

  both_read-Ensures :
      (count : ℕ) (height width : Option ℕ)
      → marker.payload_range.length_bytes ≡ 6 + 3 * count
      → Ensures
          (IsHeaderOf marker process maximum)
          (both_read height width (parse_frame_body bytes marker process maximum count))
  both_read-Ensures count none width l = refuses refl
  both_read-Ensures count (some h) none l = refuses refl
  both_read-Ensures count (some h) (some w) l = parse_frame_body-Ensures count h w l

  -- For a marker whose payload lies in the span, the parse reads nothing outside of the span and
  -- ends by a structural error or by a header of the given process: positive dimensions within the
  -- pixel limit, a precision that the process allows, one, three or four components with legal
  -- factors and selectors and different identifiers, and the marker's range.
  pub parse_frame_header-Ensures :
      Ensures (IsHeaderOf marker process maximum) (parse_frame_header bytes marker process maximum)
  unfolding parse_frame_header
  parse_frame_header-Ensures =
      Ensures-if (ltb marker.payload_range.length_bytes 6) (λ _. refuses refl)
        λ l.
          Ensures-bind
            (byte_at-Ensures bytes (marker.payload_range.offset_bytes + 5) (ground arith))
            λ count _.
              Ensures-if (count == 0 || not (marker.payload_range.length_bytes == 6 + 3 * count))
                (λ _. refuses refl)
                λ c.
                  Ensures-bind (try_read_16-Ensures bytes (marker.payload_range.offset_bytes + 1))
                    λ height _.
                      Ensures-bind
                        (try_read_16-Ensures bytes (marker.payload_range.offset_bytes + 3))
                        λ width _. both_read-Ensures count height width (ground arith)

pub is_valid_scan_header-Ensures :
    (bytes : Bytes) (marker : JpegMarkerReference)
    → end_of marker.payload_range ≤ length bytes
    → Ensures
        (λ v. v ≡ true → 6 ≤ marker.payload_range.length_bytes)
        (is_valid_scan_header bytes marker)
unfolding is_valid_scan_header
is_valid_scan_header-Ensures bytes marker inside =
    Ensures-if (ltb marker.payload_range.length_bytes 4) (λ _. returns (λ e. cc))
      λ l.
        Ensures-bind (byte_at-Ensures bytes marker.payload_range.offset_bytes (ground arith))
          λ count _. returns (λ e. ground arith)
