-- ===== src/Jpeg/Fragments/Boxes.antt =====
-- What holds of a box under reassembly, and that its fragments are read within the span.
use jpg_spinner.Prelude.{
  ℕ, ◌+◌, ◌-◌, ◌^◌, ◌≤◌, ◌<◌, ◌≡◌, refl, Bool, true, false, not, Option, none, some, min, arith,
  length, length-append, ltb, ◌==◌, if◌then◌else◌,
}
use jpg_spinner.Jpeg.Bytes.Reads.{equal_at-Yields, copy_n-Yields, try_read_64-Yields}
use jpg_spinner.Jpeg.Bytes.{Bytes}
use jpg_spinner.Jpeg.C2pa.Answers.{Answers, has_c2pa_manifest_store_identity-Answers}
use jpg_spinner.Jpeg.C2pa.{
  ActiveJpegXtBox, sub_u64, is_some_number, has_c2pa_manifest_store_identity,
}
use jpg_spinner.Jpeg.Fragments.{
  JumbfState, Stepped, Fragment, header_length_of, data_offset_of, extended, interrupt,
  finish_complete_box, after_fragment, absorb_fragment, open_box, open_large_box, first_fragment,
  continue_box, continue_large_box, next_fragment, step_fragment, is_illegal_continuation,
}
use jpg_spinner.Jpeg.IccChunks.{is_observed}
use jpg_spinner.Jpeg.Markers.{jumbf_superbox_type}
use jpg_spinner.Jpeg.Outcome.{success, Yields, yields, Yields-bind, Yields-if}

-- The kept prefix is the start of what has been reconstructed, up to 64 bytes.
abbrev pub KeepsPrefix : ActiveJpegXtBox → Type 0
KeepsPrefix b = length b.identification_prefix ≡ min 64 b.reconstructed_box_length_bytes

-- Between two fragments a box is unfinished.
abbrev pub IsUnfinished : Option ActiveJpegXtBox → Type 0
IsUnfinished none = Unit
IsUnfinished (some b) =
    KeepsPrefix b × (b.reconstructed_box_length_bytes < b.declared_box_length_bytes)

abbrev pub IsSteady : Option JumbfState → Type 0
IsSteady none = Unit
IsSteady (some s) = IsUnfinished s.active_box

abbrev pub Steps : Stepped → Type 0
Steps m = Yields IsSteady m

pub interrupt-Steps :
    (s : JumbfState) (b : Option ActiveJpegXtBox) → b ≡ s.active_box → Steps (interrupt s b)
unfolding interrupt
interrupt-Steps s none e = yields (rw (← e) tt)
interrupt-Steps s (some b) e = yields tt

finish_complete_box-Steps : (s : JumbfState) (b : ActiveJpegXtBox) → Steps (finish_complete_box s b)
unfolding finish_complete_box
finish_complete_box-Steps s b =
    Yields-if (not (b.reconstructed_box_length_bytes == b.declared_box_length_bytes))
      (λ _. yields tt) λ _. Yields-bind (identified s.found_c2pa_manifest_store) λ _ _. yields tt
  where
    identified :
        (found : Bool)
        → Answers (if found then success true else has_c2pa_manifest_store_identity b)
    identified found =
        Yields-if found (λ _. yields tt) (λ _. has_c2pa_manifest_store_identity-Answers b)

after_fragment-Steps :
    (s : JumbfState) (b : ActiveJpegXtBox) (sequence : ℕ)
    → KeepsPrefix b
    → b.reconstructed_box_length_bytes ≤ b.declared_box_length_bytes
    → Steps (after_fragment s b sequence)
unfolding after_fragment
after_fragment-Steps s b sequence k h =
    Yields-if (b.reconstructed_box_length_bytes == b.declared_box_length_bytes)
      (λ _. finish_complete_box-Steps s b)
      λ ne. Yields-if (sequence == 2 ^ 32 - 1) (λ _. yields tt) (λ _. yields (k, ground arith))

absorb_fragment-Steps :
    (bytes : Bytes) (s : JumbfState) (b : ActiveJpegXtBox) (sequence offset n : ℕ)
    → KeepsPrefix b
    → b.reconstructed_box_length_bytes ≤ b.declared_box_length_bytes
    → offset + n ≤ length bytes
    → Steps (absorb_fragment bytes s b sequence offset n)
unfolding absorb_fragment
absorb_fragment-Steps bytes s b sequence offset n k h inside =
    let kept = min n (sub_u64 64 (length b.identification_prefix)) in
    Yields-if (ltb (sub_u64 b.declared_box_length_bytes b.reconstructed_box_length_bytes) n)
      (λ _. yields tt)
      λ fits. Yields-bind (copy_n-Yields bytes offset kept (omega arith)) λ copied e.
        after_fragment-Steps s (extended b n copied) sequence
          (omega (arith, length-append b.identification_prefix copied)) (ground arith)

-- The fragment's payload lies in the span, and holds the envelope and a basic header.
pub record Lies (bytes : Bytes) (f : Fragment) : Type 0 where
  pub inside : f.payload_offset + f.payload_length ≤ length bytes
  pub long : 16 ≤ f.payload_length
  pub header : length f.box_header ≡ 8

long_enough :
    (f : Fragment) (b : ActiveJpegXtBox)
    → is_illegal_continuation f b ≡ false
    → 8 + header_length_of f < f.payload_length
long_enough f b h = ground arith

module _ (bytes : Bytes) (s : JumbfState) (f : Fragment) (lies : Lies bytes f) where
  open_box-Steps : (declared : ℕ) → Steps (open_box bytes s f declared)
  unfolding open_box
  open_box-Steps declared =
      Yields-if (ltb declared (header_length_of f)) (λ _. yields tt)
        λ d.
          absorb_fragment-Steps bytes _ _ f.packet_sequence_number (data_offset_of f)
            (f.payload_length - 8) (omega arith) (omega arith)
            (omega (arith, lies.inside, lies.long))

  open_large_box-Steps : (large : Option ℕ) → Steps (open_large_box bytes s f large)
  unfolding open_large_box
  open_large_box-Steps none = yields tt
  open_large_box-Steps (some declared) = open_box-Steps declared

  first_fragment-Steps : (b : Option ActiveJpegXtBox) → Steps (first_fragment bytes s f b)
  unfolding first_fragment
  first_fragment-Steps (some b) = yields tt
  first_fragment-Steps none =
      Yields-if (is_observed s.observed_instance_numbers f.instance_number) (λ _. yields tt)
        λ _.
          Yields-if (not (f.box_length_32 == 1)) (λ _. open_box-Steps f.box_length_32)
            λ _.
              Yields-if (ltb f.payload_length (8 + 16)) (λ _. yields tt)
                λ _.
                  Yields-bind (try_read_64-Yields bytes (data_offset_of f + 8))
                    λ large _. open_large_box-Steps large

  continue_box-Steps :
      (b : ActiveJpegXtBox)
      → IsUnfinished (some b)
      → 8 + header_length_of f < f.payload_length
      → Steps (continue_box bytes s f b)
  unfolding continue_box
  continue_box-Steps b u l =
      absorb_fragment-Steps bytes s b f.packet_sequence_number
        (data_offset_of f + header_length_of f) (f.payload_length - 8 - header_length_of f) u.0
        (omega (arith, u.1)) (omega (arith, lies.inside, l))

  continue_large_box-Steps :
      (b : ActiveJpegXtBox) (large : Option ℕ)
      → IsUnfinished (some b)
      → 8 + header_length_of f < f.payload_length
      → Steps (continue_large_box bytes s f b large)
  unfolding continue_large_box
  continue_large_box-Steps b large u l =
      Yields-if (not (is_some_number large b.declared_box_length_bytes)) (λ _. yields tt)
        (λ _. continue_box-Steps b u l)

  next_fragment-Steps :
      (b : Option ActiveJpegXtBox) → IsUnfinished b → Steps (next_fragment bytes s f b)
  unfolding next_fragment
  next_fragment-Steps none u = yields tt
  next_fragment-Steps (some b) u =
      Yields-if (is_illegal_continuation f b) (λ _. yields tt)
        λ legal.
          Yields-if (f.box_length_32 == 1)
            (λ _.
              Yields-bind (try_read_64-Yields bytes (data_offset_of f + 8))
                λ large _. continue_large_box-Steps b large u (long_enough f b legal))
            (λ _. continue_box-Steps b u (long_enough f b legal))

  -- For a steady state and a fragment that lies in the span with its envelope and basic header, a
  -- step of the reassembly reads nothing outside of the span and does not fail: it answers malformed,
  -- or leaves no box, or one that is unfinished and whose kept prefix has 64 bytes, or as many as have
  -- been reconstructed where these are fewer.
  pub step_fragment-Steps : IsUnfinished s.active_box → Steps (step_fragment bytes s f)
  unfolding step_fragment
  step_fragment-Steps u =
      Yields-bind (equal_at-Yields f.box_header 4 jumbf_superbox_type (omega (arith, lies.header)))
        λ b _.
          Yields-if (not b) (λ _. interrupt-Steps s s.active_box refl)
            λ _.
              Yields-if (f.packet_sequence_number == 1) (λ _. first_fragment-Steps s.active_box)
                (λ _. next_fragment-Steps s.active_box u)
