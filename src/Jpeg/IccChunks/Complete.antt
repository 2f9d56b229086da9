-- ===== src/Jpeg/IccChunks/Complete.antt =====
-- Which fragments are accepted, and in which order they are handed on.
use mathlib.Core.List.{Perm}
use mathlib.Core.List.Perm
use jpg_spinner.Prelude.{
  ℕ, ◌+◌, ◌≤◌, ◌<◌, ◌≡◌, ◌↔◌, refl, ap, sym, ◌∙◌, ◌⊎◌, inl, inr, true, false, List, [], ◌∷◌, map,
  some, arith, length, All, All-weaken, All-both, Option-cases,
}
use jpg_spinner.Jpeg.IccChunks.{is_observed, observe_chunks, validate_and_order_icc_profile_chunks}
use jpg_spinner.Jpeg.Inventory.{IccProfileChunkReference}
use jpg_spinner.Jpeg.Ordering.{
  Distinct, sort_by, sort_by-perm, sort_by-All, sort_by-Above, Above-numbers_from, length-sort_by,
  numbers_from,
}

abbrev pub number_of : IccProfileChunkReference → ℕ
number_of c = c.sequence_number

abbrev pub total_length : List IccProfileChunkReference → ℕ
total_length [] = 0
total_length (c ∷ cs) = c.profile_data_range.length_bytes + total_length cs

-- One chunk of a profile that is cut into `n`.
abbrev pub Fits : ℕ → IccProfileChunkReference → Type 0
Fits n c = (c.chunk_count ≡ n) × (0 < c.sequence_number) × (c.sequence_number ≤ n)

observe_chunks_head :
    (n : ℕ) (seen : List ℕ) (t : ℕ) (c : IccProfileChunkReference)
    (cs : List IccProfileChunkReference) {r : ℕ}
    → observe_chunks n seen t (c ∷ cs) ≡ some r
    → Fits n c
      × (is_observed seen c.sequence_number ≡ false)
      × (observe_chunks n (c.sequence_number ∷ seen) (t + c.profile_data_range.length_bytes) cs
          ≡ some r)
unfolding observe_chunks
observe_chunks_head n seen t c cs h = ground arith

observe_chunks_sound :
    (n : ℕ) (seen : List ℕ) (t : ℕ) (cs : List IccProfileChunkReference) {r : ℕ}
    → observe_chunks n seen t cs ≡ some r
    → All (λ c. Fits n c × (is_observed seen c.sequence_number ≡ false)) cs
      × Distinct number_of cs
      × (r ≡ t + total_length cs)
unfolding observe_chunks
observe_chunks_sound n seen t [] h = ground arith
observe_chunks_sound n seen t (c ∷ cs) {r} h =
    let (fits, fresh, rest) = observe_chunks_head n seen t c cs h in
    let (all, distinct, total) =
      observe_chunks_sound n (c.sequence_number ∷ seen) (t + c.profile_data_range.length_bytes) cs
        rest in
    (
      ((fits, fresh), All-weaken (λ k p. ground arith) cs all),
      (All-weaken (λ k p. ground arith) cs all, distinct),
      omega arith,
    )

observe_chunks_complete :
    (n : ℕ) (seen : List ℕ) (t : ℕ) (cs : List IccProfileChunkReference)
    → All (λ c. Fits n c × (is_observed seen c.sequence_number ≡ false)) cs
    → Distinct number_of cs
    → observe_chunks n seen t cs ≡ some (t + total_length cs)
unfolding observe_chunks
observe_chunks_complete n seen t [] h d = ground arith
observe_chunks_complete n seen t (c ∷ cs) h d =
    let ih =
      observe_chunks_complete n (c.sequence_number ∷ seen) (t + c.profile_data_range.length_bytes)
        cs (All-both (λ k p q. ground arith) cs h.1 d.0) d.1 in
    ground arith

-- The chunks make up one profile: each says how many there are, and their numbers are different and
-- within that count; some profile data is there.
pub record IsComplete (cs : List IccProfileChunkReference) : Type 0 where
  pub fits : All (Fits (length cs)) cs
  pub distinct : Distinct number_of cs
  pub positive : 0 < total_length cs

-- What an accepted list has been through.
accepted :
    (c : IccProfileChunkReference) (cs : List IccProfileChunkReference)
    → (validate_and_order_icc_profile_chunks (c ∷ cs)).0 ≡ true
    → (t : ℕ) × (c.chunk_count ≡ length (c ∷ cs))
      × (observe_chunks c.chunk_count [] 0 (c ∷ cs) ≡ some t)
      × (0 < t)
      × ((validate_and_order_icc_profile_chunks (c ∷ cs)).1 ≡ sort_by number_of (c ∷ cs))
unfolding validate_and_order_icc_profile_chunks
accepted c cs h = elim (Option-cases (observe_chunks c.chunk_count [] 0 (c ∷ cs))) [
  | inl e ↦ absurd (ground arith)
  | inr (t, e) ↦ (t, ground arith, e, ground arith, ground arith)
]

accepted-IsComplete :
    (c : IccProfileChunkReference) (cs : List IccProfileChunkReference)
    → (validate_and_order_icc_profile_chunks (c ∷ cs)).0 ≡ true
    → IsComplete (c ∷ cs)
accepted-IsComplete c cs h =
    let (t, n, run, positive, _) = accepted c cs h in
    let (fits, distinct, total) = observe_chunks_sound c.chunk_count [] 0 (c ∷ cs) run in
    record {
      fits = All-weaken (λ k p. (p.0.0 ∙ n, p.0.1, omega arith)) (c ∷ cs) fits;
      distinct = distinct;
      positive = omega arith;
    }

IsComplete-accepted :
    (c : IccProfileChunkReference) (cs : List IccProfileChunkReference)
    → IsComplete (c ∷ cs)
    → (validate_and_order_icc_profile_chunks (c ∷ cs)).0 ≡ true
unfolding validate_and_order_icc_profile_chunks
IsComplete-accepted c cs v =
    let n = v.fits.0.0 in
    let run =
      observe_chunks_complete c.chunk_count [] 0 (c ∷ cs)
        (All-weaken (λ k p. ((p.0 ∙ sym n, p.1, omega arith), refl)) (c ∷ cs) v.fits) v.distinct in
    ground (arith, v.positive)

in_row :
    (cs : List IccProfileChunkReference)
    → IsComplete cs
    → map number_of (sort_by number_of cs) ≡ numbers_from 1 (length cs)
in_row cs v =
    Above-numbers_from number_of 0 (length cs) (sort_by number_of cs)
      (omega (arith, length-sort_by number_of cs))
      (sort_by-Above number_of 0 cs (All-weaken (λ k p. p.1) cs v.fits) v.distinct)
      (sort_by-All number_of (λ k. k.sequence_number ≤ length cs) cs
        (All-weaken (λ k p. p.2) cs v.fits))
    ∙ ap (numbers_from 1) (length-sort_by number_of cs)

-- The ICC validation accepts exactly the empty list and the complete ones: each chunk states the
-- length of the list as its count and a number from 1 to it, the numbers are different, and there
-- is some profile data.
pub validate_icc_iff :
    (cs : List IccProfileChunkReference)
    → ((validate_and_order_icc_profile_chunks cs).0 ≡ true) ↔ ((cs ≡ []) ⊎ IsComplete cs)
unfolding validate_and_order_icc_profile_chunks
validate_icc_iff [] = (λ _. inl refl, λ _. refl)
validate_icc_iff (c ∷ cs) = (
  λ h. inr (accepted-IsComplete c cs h),
  λ h. elim h [ inl e ↦ cc | inr v ↦ IsComplete-accepted c cs v ],
)

-- An accepted list is handed on as a permutation of itself whose numbers run 1, 2, …, up to its
-- length.
pub validate_icc_order :
    (cs : List IccProfileChunkReference)
    → (validate_and_order_icc_profile_chunks cs).0 ≡ true
    → Perm (validate_and_order_icc_profile_chunks cs).1 cs
      × (map number_of (validate_and_order_icc_profile_chunks cs).1 ≡ numbers_from 1 (length cs))
unfolding validate_and_order_icc_profile_chunks
validate_icc_order [] h = (Perm.refl [], refl)
validate_icc_order (c ∷ cs) h =
    let (_, _, _, _, sorted) = accepted c cs h in
    rw sorted (sort_by-perm number_of (c ∷ cs), in_row (c ∷ cs) (accepted-IsComplete c cs h))

-- What holds of every chunk holds of every chunk that is handed on.
pub validate_icc_All {κ} :
    (P : IccProfileChunkReference → Type κ) (cs : List IccProfileChunkReference)
    → (validate_and_order_icc_profile_chunks cs).0 ≡ true
    → All P cs
    → All P (validate_and_order_icc_profile_chunks cs).1
unfolding validate_and_order_icc_profile_chunks
validate_icc_All P [] h a = tt
validate_icc_All P (c ∷ cs) h a =
    let (_, _, _, _, sorted) = accepted c cs h in rw sorted (sort_by-All number_of P (c ∷ cs) a)

-- Each chunk states the length of the list as its count, and their numbers are 1, 2, …, up to it.
abbrev pub IsProfile : List IccProfileChunkReference → Type 0
IsProfile cs = All (Fits (length cs)) cs × (map number_of cs ≡ numbers_from 1 (length cs))

pub validate_icc-IsProfile :
    (cs : List IccProfileChunkReference)
    → (validate_and_order_icc_profile_chunks cs).0 ≡ true
    → IsProfile (validate_and_order_icc_profile_chunks cs).1
unfolding validate_and_order_icc_profile_chunks
validate_icc-IsProfile [] h = (tt, refl)
validate_icc-IsProfile (c ∷ cs) h =
    let (_, _, _, _, sorted) = accepted c cs h in
    let complete = accepted-IsComplete c cs h in
    rw (sorted, length-sort_by number_of (c ∷ cs))
      (
        sort_by-All number_of (Fits (length (c ∷ cs))) (c ∷ cs) complete.fits,
        in_row (c ∷ cs) complete,
      )
