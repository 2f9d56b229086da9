-- ===== src/Jpeg/Fragments.antt =====
-- The fragments of classifyJumbfEnvelope of JpegSegmentScanner.cpp: the reassembly of one JUMBF box
-- from its APP11 segments.
pub mod Boxes
use jpg_spinner.Prelude.{
  is_same_list, ℕ, ◌+◌, ◌-◌, ◌^◌, Bool, true, false, not, ◌||◌, List, [], ◌∷◌, ◌++◌, Option, none,
  some, min, length, ltb, leb, ◌==◌, if◌then◌else◌,
}
use jpg_spinner.Jpeg.Bytes.{Bytes, equal_at, copy_n, try_read_big_endian_unsigned_64}
use jpg_spinner.Jpeg.C2pa.{
  ActiveJpegXtBox, sub_u64, is_some_number, basic_iso_box_header_length_bytes,
  large_iso_box_header_length_bytes, has_c2pa_manifest_store_identity,
}
use jpg_spinner.Jpeg.IccChunks.{is_observed}
use jpg_spinner.Jpeg.Markers.{jumbf_superbox_type}
use jpg_spinner.Jpeg.Outcome.{Outcome, success, ◌>>=◌}

-- The locals of the loop over the markers.
pub record JumbfState : Type 0 where
  pub active_box : Option ActiveJpegXtBox
  pub observed_instance_numbers : List ℕ
  pub found_jumbf : Bool
  pub found_c2pa_manifest_store : Bool

abbrev pub initial : JumbfState
initial = record {
  active_box = none;
  observed_instance_numbers = [];
  found_jumbf = false;
  found_c2pa_manifest_store = false;
}

abbrev pub jpeg_xt_fragment_envelope_length_bytes : ℕ
jpeg_xt_fragment_envelope_length_bytes = 8

abbrev pub maximum_jumbf_identification_prefix_length_bytes : ℕ
maximum_jumbf_identification_prefix_length_bytes = 64

-- A step of the loop; `none` is `return JumbfEnvelopeClassification::Malformed`.
abbrev pub Stepped : Type 0
Stepped = Outcome (Option JumbfState)

-- A marker that is no JUMBF fragment must not stand within a sequence of them.
unfoldable pub interrupt : JumbfState → Option ActiveJpegXtBox → Stepped
interrupt s none = success (some s)
interrupt s (some box) = success none

-- finishCompleteBox, on the box that is active.
finish_complete_box : JumbfState → ActiveJpegXtBox → Stepped
finish_complete_box s box =
    if not (box.reconstructed_box_length_bytes == box.declared_box_length_bytes)
    then success none
    else do
      found ←
          if s.found_c2pa_manifest_store then success true else has_c2pa_manifest_store_identity box
      success (
          some
            (record s { active_box = none; found_jumbf = true; found_c2pa_manifest_store = found }))

-- The box with one more fragment of `n` bytes, of which `copied` are kept.
abbrev extended : ActiveJpegXtBox → ℕ → Bytes → ActiveJpegXtBox
extended box n copied = record box {
  identification_prefix = box.identification_prefix ++ copied;
  reconstructed_box_length_bytes = box.reconstructed_box_length_bytes + n;
}

after_fragment : JumbfState → ActiveJpegXtBox → ℕ → Stepped
after_fragment s box sequence =
    if box.reconstructed_box_length_bytes == box.declared_box_length_bytes
    then finish_complete_box s box
    else if sequence == 2 ^ 32 - 1
    then success none
    else success (
        some (record s {
          active_box = some (record box { next_packet_sequence_number = sequence + 1 });
        }))

-- The `n` bytes at `offset` are the fragment's share of the box.
absorb_fragment : Bytes → JumbfState → ActiveJpegXtBox → ℕ → ℕ → ℕ → Stepped
absorb_fragment bytes s box sequence offset n =
    if ltb (sub_u64 box.declared_box_length_bytes box.reconstructed_box_length_bytes) n
    then success none
    else do
      copied ← copy_n bytes offset (
          min n (
            sub_u64 maximum_jumbf_identification_prefix_length_bytes
              (length box.identification_prefix)))
      after_fragment s (extended box n copied) sequence

-- The values read from a fragment's envelope, and the marker's payload.
pub record Fragment : Type 0 where
  pub instance_number : ℕ
  pub packet_sequence_number : ℕ
  pub box_length_32 : ℕ
  pub box_header : Bytes
  pub payload_offset : ℕ
  pub payload_length : ℕ

-- The header that the fragment repeats, and the start of the box data.
abbrev pub header_length_of : Fragment → ℕ
header_length_of f =
    if f.box_length_32 == 1
    then large_iso_box_header_length_bytes
    else basic_iso_box_header_length_bytes

abbrev pub data_offset_of : Fragment → ℕ
data_offset_of f = f.payload_offset + jpeg_xt_fragment_envelope_length_bytes

open_box : Bytes → JumbfState → Fragment → ℕ → Stepped
open_box bytes s f declared =
    if ltb declared (header_length_of f)
    then success none
    else absorb_fragment bytes
        (record s {
          observed_instance_numbers = s.observed_instance_numbers ++ f.instance_number ∷ [];
        })
        (record {
          instance_number = f.instance_number;
          next_packet_sequence_number = 2;
          declared_box_length_bytes = declared;
          reconstructed_box_length_bytes = 0;
          repeated_box_header = f.box_header;
          identification_prefix = [];
        })
        f.packet_sequence_number (data_offset_of f)
        (f.payload_length - jpeg_xt_fragment_envelope_length_bytes)

open_large_box : Bytes → JumbfState → Fragment → Option ℕ → Stepped
open_large_box bytes s f none = success none
open_large_box bytes s f (some declared) = open_box bytes s f declared

first_fragment : Bytes → JumbfState → Fragment → Option ActiveJpegXtBox → Stepped
first_fragment bytes s f (some box) = success none
first_fragment bytes s f none =
    if is_observed s.observed_instance_numbers f.instance_number
    then success none
    else if not (f.box_length_32 == 1)
    then open_box bytes s f f.box_length_32
    else if ltb f.payload_length
        (jpeg_xt_fragment_envelope_length_bytes + large_iso_box_header_length_bytes)
    then success none
    else try_read_big_endian_unsigned_64 bytes
        (data_offset_of f + basic_iso_box_header_length_bytes)
      >>= open_large_box bytes s f

-- The repeated framing does not count as box data.
continue_box : Bytes → JumbfState → Fragment → ActiveJpegXtBox → Stepped
continue_box bytes s f box =
    absorb_fragment bytes s box f.packet_sequence_number (data_offset_of f + header_length_of f)
      (f.payload_length - jpeg_xt_fragment_envelope_length_bytes - header_length_of f)

continue_large_box : Bytes → JumbfState → Fragment → ActiveJpegXtBox → Option ℕ → Stepped
continue_large_box bytes s f box large =
    if not (is_some_number large box.declared_box_length_bytes)
    then success none
    else continue_box bytes s f box

-- The fragment does not go on with the box.
abbrev is_illegal_continuation : Fragment → ActiveJpegXtBox → Bool
is_illegal_continuation f box =
    not (f.instance_number == box.instance_number)
    || not (f.packet_sequence_number == box.next_packet_sequence_number)
    || not (is_same_list f.box_header box.repeated_box_header)
    || leb f.payload_length (jpeg_xt_fragment_envelope_length_bytes + header_length_of f)

next_fragment : Bytes → JumbfState → Fragment → Option ActiveJpegXtBox → Stepped
next_fragment bytes s f none = success none
next_fragment bytes s f (some box) =
    if is_illegal_continuation f box
    then success none
    else if f.box_length_32 == 1
    then try_read_big_endian_unsigned_64 bytes (data_offset_of f + 8)
      >>= continue_large_box bytes s f box
    else continue_box bytes s f box

-- A fragment of a JUMBF superbox.
pub step_fragment : Bytes → JumbfState → Fragment → Stepped
step_fragment bytes s f = do
  is_superbox ← equal_at f.box_header 4 jumbf_superbox_type
  if not is_superbox
      then interrupt s s.active_box
      else if f.packet_sequence_number == 1
      then first_fragment bytes s f s.active_box
      else next_fragment bytes s f s.active_box
