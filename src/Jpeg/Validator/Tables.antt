-- ===== src/Jpeg/Validator/Tables.antt =====
-- The quantization tables of an output that breaks no rule.
use jpg_spinner.Jpeg.OutputRules.{is_same_table, is_same_tables, source_index, all_below}
use jpg_spinner.Jpeg.Output.{QuantizationTable}
use jpg_spinner.Prelude.{
  ℕ, zero, suc, ◌+◌, ◌*◌, ◌<◌, ◌≤◌, ◌≡◌, Bool, true, false, List, [], ◌∷◌, ◌==◌, ◌⊎◌, inl, inr,
  arith,
}

all_below_lem : (n : ℕ) (p : ℕ → Bool) → all_below n p ≡ true → (i : ℕ) → i < n → p i ≡ true
all_below_lem zero p h i l = absurd (omega arith)
all_below_lem (suc n) p h i l = elim (last_or_below n i l) [
  | inl e ↦ rw e (ground arith)
  | inr l ↦ all_below_lem n p (ground arith) i l
]
  where
    last_or_below : (n i : ℕ) → i < suc n → (i ≡ n) ⊎ (i < n)
    last_or_below n i l = ground arith

-- Each entry of the output's table is the one of the source's at the same place, or at the mirrored place where the
-- transform exchanges the axes.
abbrev pub IsCarriedOver : Bool → QuantizationTable → QuantizationTable → Type 0
IsCarriedOver false source output =
    (row column : ℕ)
    → ((8 ≤ row) ⊎ (8 ≤ column)) ⊎ (output (row * 8 + column) ≡ source (row * 8 + column))
IsCarriedOver true source output =
    (row column : ℕ)
    → ((8 ≤ row) ⊎ (8 ≤ column)) ⊎ (output (row * 8 + column) ≡ source (column * 8 + row))

abbrev pub AreCarriedOver : Bool → List QuantizationTable → List QuantizationTable → Type 0
AreCarriedOver exchanges_axes [] [] = Unit
AreCarriedOver exchanges_axes (a ∷ xs) (b ∷ ys) =
    IsCarriedOver exchanges_axes a b × AreCarriedOver exchanges_axes xs ys
AreCarriedOver exchanges_axes _ _ = ⊥

below_or : (n : ℕ) → (n < 8) ⊎ (8 ≤ n)
below_or n = ground arith

is_same_table_entry :
    (exchanges_axes : Bool) (source output : QuantizationTable)
    → is_same_table exchanges_axes source output ≡ true
    → (vertical horizontal : ℕ)
    → ((8 ≤ vertical) ⊎ (8 ≤ horizontal))
      ⊎ (output (vertical * 8 + horizontal)
          ≡ source (source_index exchanges_axes vertical horizontal))
unfolding is_same_table
is_same_table_entry exchanges_axes source output h vertical horizontal = elim (below_or vertical) [
  | inr l ↦ inl (inl l)
  | inl l ↦ elim (below_or horizontal) [
    | inr m ↦ inl (inr m)
    | inl m ↦
        let row =
          all_below_lem 8
            (λ v. all_below 8 λ u. source (source_index exchanges_axes v u) == output (v * 8 + u)) h
            vertical l in
        let entry =
          all_below_lem 8
            (λ u. source (source_index exchanges_axes vertical u) == output (vertical * 8 + u)) row
            horizontal m in
        inr (ground arith)
  ]
]

is_same_table-IsCarriedOver :
    (exchanges_axes : Bool) (source output : QuantizationTable)
    → is_same_table exchanges_axes source output ≡ true
    → IsCarriedOver exchanges_axes source output
is_same_table-IsCarriedOver false source output h = is_same_table_entry false source output h
is_same_table-IsCarriedOver true source output h = is_same_table_entry true source output h

pub is_same_tables-AreCarriedOver :
    (exchanges_axes : Bool) (source output : List QuantizationTable)
    → is_same_tables exchanges_axes source output ≡ true
    → AreCarriedOver exchanges_axes source output
unfolding is_same_tables
is_same_tables-AreCarriedOver exchanges_axes [] [] h = tt
is_same_tables-AreCarriedOver exchanges_axes (a ∷ xs) (b ∷ ys) h = (
  is_same_table-IsCarriedOver exchanges_axes a b (ground arith),
  is_same_tables-AreCarriedOver exchanges_axes xs ys (ground arith),
)
is_same_tables-AreCarriedOver exchanges_axes [] (b ∷ ys) h = absurd (ground arith)
is_same_tables-AreCarriedOver exchanges_axes (a ∷ xs) [] h = absurd (ground arith)
