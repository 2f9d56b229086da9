-- ===== src/Jpeg/IccChunks.antt =====
-- validateAndOrderIccProfileChunks of JpegSegmentScanner.cpp: the ICC APP2 fragments of one profile.
pub mod Complete
use jpg_spinner.Prelude.{
  ℕ, ◌+◌, Bool, true, false, not, ◌||◌, List, [], ◌∷◌, Option, none, some, length, ltb, ◌==◌,
  if◌then◌else◌,
}
use jpg_spinner.Jpeg.Inventory.{IccProfileChunkReference}
use jpg_spinner.Jpeg.Ordering.{sort_by}

-- The array of 256 flags, as the list of the numbers that are set.
abbrev pub is_observed : List ℕ → ℕ → Bool
is_observed [] n = false
is_observed (k ∷ ks) n = k == n || is_observed ks n

-- The loop over the chunks: `none` for `return false`, else the assembled length.
unfoldable pub observe_chunks : ℕ → List ℕ → ℕ → List IccProfileChunkReference → Option ℕ
observe_chunks expected observed total [] = some total
observe_chunks expected observed total (c ∷ cs) =
    if not (c.chunk_count == expected)
      || c.sequence_number == 0
      || ltb expected c.sequence_number
      || is_observed observed c.sequence_number
    then none
    else observe_chunks expected (c.sequence_number ∷ observed)
        (total + c.profile_data_range.length_bytes) cs

-- The answer, and the list as the call leaves it.
unfoldable pub validate_and_order_icc_profile_chunks :
    List IccProfileChunkReference → Bool × List IccProfileChunkReference
validate_and_order_icc_profile_chunks [] = (true, [])
validate_and_order_icc_profile_chunks (c ∷ cs) =
    if c.chunk_count == 0 || not (length (c ∷ cs) == c.chunk_count)
    then (false, c ∷ cs)
    else elim (observe_chunks c.chunk_count [] 0 (c ∷ cs)) [
      | none ↦ (false, c ∷ cs)
      | some total ↦
          if total == 0 then (false, c ∷ cs) else (true, sort_by (λ k. k.sequence_number) (c ∷ cs))
    ]
