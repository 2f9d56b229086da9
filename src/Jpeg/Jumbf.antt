-- ===== src/Jpeg/Jumbf.antt =====
-- classifyJumbfEnvelope of JpegSegmentScanner.cpp: the loop over the markers, and its answer.
pub mod Answers
use jpg_spinner.Prelude.{ℕ, ◌+◌, Bool, not, List, [], ◌∷◌, Option, none, some, ltb, if◌then◌else◌}
use jpg_spinner.Jpeg.Bytes.{
  Bytes, copy_n, try_read_big_endian_unsigned_16, try_read_big_endian_unsigned_32,
}
use jpg_spinner.Jpeg.C2pa.{ActiveJpegXtBox, basic_iso_box_header_length_bytes}
use jpg_spinner.Jpeg.Fragments.{
  JumbfState, initial, Stepped, interrupt, step_fragment, jpeg_xt_fragment_envelope_length_bytes,
}
use jpg_spinner.Jpeg.Inventory.{JpegMarkerReference}
use jpg_spinner.Jpeg.Markers.{
  application_segment_11_marker_code, jpeg_xt_box_fragment_identifier, marker_payload_starts_with,
}
use jpg_spinner.Jpeg.Outcome.{Outcome, success, ◌>>=◌}

pub data JumbfEnvelopeClassification : Type 0 where
  absent unsupported_jumbf c2pa_manifest_store malformed : JumbfEnvelopeClassification

-- All three numbers must have been read.
pub read_envelope :
    Bytes → JumbfState → JpegMarkerReference → Option ℕ → Option ℕ → Option ℕ → Stepped
read_envelope bytes s marker (some instance_number) (some sequence) (some length_32) = do
  header ←
      copy_n bytes (marker.payload_range.offset_bytes + jpeg_xt_fragment_envelope_length_bytes) 8
  step_fragment bytes s (record {
    instance_number = instance_number;
    packet_sequence_number = sequence;
    box_length_32 = length_32;
    box_header = header;
    payload_offset = marker.payload_range.offset_bytes;
    payload_length = marker.payload_range.length_bytes;
  })
read_envelope bytes s marker _ _ _ = success none

-- The body of the loop.
unfoldable pub step_marker : Bytes → JumbfState → JpegMarkerReference → Stepped
step_marker bytes s marker = do
  is_fragment ←
      marker_payload_starts_with bytes marker application_segment_11_marker_code
        jpeg_xt_box_fragment_identifier
  if not is_fragment
      then interrupt s s.active_box
      else if ltb marker.payload_range.length_bytes
          (jpeg_xt_fragment_envelope_length_bytes + basic_iso_box_header_length_bytes)
      then interrupt s s.active_box
      else do
        number ← try_read_big_endian_unsigned_16 bytes (marker.payload_range.offset_bytes + 2)
        sequence ← try_read_big_endian_unsigned_32 bytes (marker.payload_range.offset_bytes + 4)
        length_32 ←
            try_read_big_endian_unsigned_32 bytes
              (marker.payload_range.offset_bytes + jpeg_xt_fragment_envelope_length_bytes)
        read_envelope bytes s marker number sequence length_32

-- What stands behind the loop.
unfoldable pub conclude : JumbfState → Option ActiveJpegXtBox → JumbfEnvelopeClassification
conclude s (some box) = malformed
conclude s none =
    if s.found_c2pa_manifest_store
    then c2pa_manifest_store
    else if s.found_jumbf
    then unsupported_jumbf
    else absent

unfoldable pub step_markers :
    Bytes → Option JumbfState → List JpegMarkerReference → Outcome JumbfEnvelopeClassification
step_markers bytes none markers = success malformed
step_markers bytes (some s) [] = success (conclude s s.active_box)
step_markers bytes (some s) (m ∷ ms) = step_marker bytes s m >>= λ next. step_markers bytes next ms

unfoldable pub classify_jumbf_envelope :
    Bytes → List JpegMarkerReference → Outcome JumbfEnvelopeClassification
classify_jumbf_envelope bytes markers = step_markers bytes (some initial) markers
