-- ===== src/Jpeg/C2pa/Answers.antt =====
-- The recognizer of manifest stores reads nothing outside of its prefix.
use jpg_spinner.Prelude.{
  ℕ, ◌+◌, ◌%◌, Bool, not, ◌||◌, Option, none, some, length, ltb, leb, ◌==◌, arith,
}
use jpg_spinner.Jpeg.Bytes.Reads.{
  try_read_32-Yields, try_read_64-Yields, encoded_bytes_equal-Yields, byte_at-Yields,
}
use jpg_spinner.Jpeg.Bytes.{Bytes}
use jpg_spinner.Jpeg.C2pa.{
  ActiveJpegXtBox, sub_u64, is_some_number, has_manifest_label, has_manifest_description,
  large_description, has_description_box, description_at, large_outer_box, has_outer_box,
  has_c2pa_manifest_store_identity,
}
use jpg_spinner.Jpeg.Markers.{
  jumbf_superbox_type, jumbf_description_box_type, c2pa_manifest_store_type_uuid,
  c2pa_manifest_store_label,
}
use jpg_spinner.Jpeg.Outcome.{Outcome, Yields, yields, Yields-bind, Yields-if}

abbrev pub Answers : Outcome Bool → Type 0
Answers m = Yields (λ _. Unit {0}) m

has_manifest_label-Answers : (prefix : Bytes) (o : ℕ) → Answers (has_manifest_label prefix o)
unfolding has_manifest_label
has_manifest_label-Answers prefix o =
    Yields-if (leb (length prefix) o) (λ _. yields tt)
      λ h. Yields-bind (byte_at-Yields prefix o (ground arith)) λ t _.
        Yields-if (not (t % 4 == 3)) (λ _. yields tt)
          (λ _. encoded_bytes_equal-Yields prefix (o + 1) c2pa_manifest_store_label)

module _ (prefix : Bytes) (box_length offset : ℕ) where
  has_manifest_description-Answers :
      (header declared : ℕ)
      → Answers (has_manifest_description prefix box_length offset header declared)
  unfolding has_manifest_description
  has_manifest_description-Answers header declared =
      Yields-if
        (ltb declared
            (header + (length c2pa_manifest_store_type_uuid + 1 + length c2pa_manifest_store_label))
          || ltb (sub_u64 box_length offset) declared)
        (λ _. yields tt)
        λ _.
          Yields-bind
            (encoded_bytes_equal-Yields prefix (offset + header) c2pa_manifest_store_type_uuid)
            λ m _.
              Yields-if (not m) (λ _. yields tt)
                (λ _.
                  has_manifest_label-Answers prefix
                    (offset + header + length c2pa_manifest_store_type_uuid))

  large_description-Answers :
      (o : Option ℕ) → Answers (large_description prefix box_length offset o)
  unfolding large_description
  large_description-Answers none = yields tt
  large_description-Answers (some d) = has_manifest_description-Answers 16 d

  has_description_box-Answers :
      (o : Option ℕ) → Answers (has_description_box prefix box_length offset o)
  unfolding has_description_box
  has_description_box-Answers none = yields tt
  has_description_box-Answers (some l) =
      Yields-bind (encoded_bytes_equal-Yields prefix (offset + 4) jumbf_description_box_type) λ d _.
        Yields-if (not d) (λ _. yields tt)
          λ _.
            Yields-if (l == 1)
              (λ _.
                Yields-bind (try_read_64-Yields prefix (offset + 8))
                  λ x _. large_description-Answers x)
              (λ _. has_manifest_description-Answers 8 l)

module _ (box : ActiveJpegXtBox) where
  description_at-Answers : (offset : ℕ) → Answers (description_at box offset)
  unfolding description_at
  description_at-Answers offset =
      Yields-bind (try_read_32-Yields box.identification_prefix offset) λ x _.
        has_description_box-Answers box.identification_prefix box.declared_box_length_bytes offset x

  large_outer_box-Answers : (o : Option ℕ) → Answers (large_outer_box box o)
  unfolding large_outer_box
  large_outer_box-Answers o =
      Yields-if (not (is_some_number o box.declared_box_length_bytes)) (λ _. yields tt)
        (λ _. description_at-Answers 16)

  has_outer_box-Answers : (o : Option ℕ) → Answers (has_outer_box box o)
  unfolding has_outer_box
  has_outer_box-Answers none = yields tt
  has_outer_box-Answers (some l) =
      Yields-bind (encoded_bytes_equal-Yields box.identification_prefix 4 jumbf_superbox_type)
        λ b _.
          Yields-if (not b) (λ _. yields tt)
            λ _.
              Yields-if (l == 1)
                (λ _.
                  Yields-bind (try_read_64-Yields box.identification_prefix 8)
                    λ x _. large_outer_box-Answers x)
                λ _.
                  Yields-if (not (l == box.declared_box_length_bytes)) (λ _. yields tt)
                    (λ _. description_at-Answers 8)

  -- Whatever a box's kept prefix and lengths are, the recognizer of manifest stores answers: it
  -- reads nothing outside of the prefix and does not fail.
  pub has_c2pa_manifest_store_identity-Answers : Answers (has_c2pa_manifest_store_identity box)
  unfolding has_c2pa_manifest_store_identity
  has_c2pa_manifest_store_identity-Answers =
      Yields-bind (try_read_32-Yields box.identification_prefix 0) λ x _. has_outer_box-Answers x
