-- ===== src/Batch/Conclusion/Rows.antt =====
-- Sums over the rows of a summary, in the order of the files, against sums over the rows as they were counted.
use jpg_spinner.Batch.Conclusion.{row_of, results_from}
use jpg_spinner.Batch.Runs.Accounting.{row_is_at, is_below}
use jpg_spinner.Batch.State.{Row}
use jpg_spinner.Batch.Files.{BatchFileProcessingResult}
use jpg_spinner.Prelude.{
  ℕ, zero, suc, ◌+◌, ◌≤◌, ◌<◌, ◌≡◌, refl, ◌&&◌, List, [], ◌∷◌, length, total, ltb, leb, ◌==◌,
  if◌then◌else◌, arith,
}

module _ (g : BatchFileProcessingResult → ℕ) where
  abbrev of_row : Row → ℕ
  of_row r = g r.result

  -- The share of the index in a sum over the rows.
  abbrev share : List Row → ℕ → ℕ
  share rows i = if total (row_is_at i) rows == 0 then 0 else g (row_of rows i)

  abbrev shares : List Row → ℕ → ℕ → ℕ
  shares rows a zero = 0
  shares rows a (suc n) = share rows a + shares rows (a + 1) n

  shares_empty : (a n : ℕ) → shares [] a n ≡ 0
  shares_empty a zero = refl
  shares_empty a (suc n) = omega (arith, shares_empty (a + 1) n)

  shares_cons :
      (r : Row) (rows : List Row) (a n : ℕ)
      → total (row_is_at r.index) rows ≡ 0
      → shares (r ∷ rows) a n
        ≡ shares rows a n + (if leb a r.index && ltb r.index (a + n) then g r.result else 0)
  shares_cons r rows a zero e = ground arith
  shares_cons r rows a (suc n) e = ground (arith, shares_cons r rows (a + 1) n e)

  shares_total :
      (rows : List Row) (n : ℕ)
      → ((i : ℕ) → total (row_is_at i) rows ≤ is_below n i)
      → shares rows 0 n ≡ total of_row rows
  shares_total [] n h = shares_empty 0 n
  shares_total (r ∷ rows) n h =
      let rest = shares_total rows n (λ i. let l = h i in omega (arith, l)) in
      let own = h r.index in
      let fresh : total (row_is_at r.index) rows ≡ 0 = ground arith in
      ground (arith, shares_cons r rows 0 n fresh)

  results_shares :
      (rows : List Row) (a n : ℕ)
      → ((i : ℕ) → a ≤ i → i < a + n → total (row_is_at i) rows ≡ 1)
      → total g (results_from rows a n) ≡ shares rows a n
  results_shares rows a zero h = refl
  results_shares rows a (suc n) h =
      let own = h a (omega arith) (omega arith) in
      let rest =
        results_shares rows (a + 1) n (λ i l m. h i (omega (arith, l)) (omega (arith, m))) in
      ground arith

  -- With one row for each file, a sum over the summary's rows is the one over the counted rows.
  pub results_total :
      (rows : List Row) (n : ℕ)
      → ((i : ℕ) → total (row_is_at i) rows ≡ is_below n i)
      → total g (results_from rows 0 n) ≡ total of_row rows
  results_total rows n h =
      let lower = shares_total rows n (λ i. let e = h i in omega (arith, e)) in
      let upper = results_shares rows 0 n (λ i l m. let e = h i in ground arith) in omega arith

pub results_length : (rows : List Row) (a n : ℕ) → length (results_from rows a n) ≡ n
results_length rows a zero = refl
results_length rows a (suc n) = omega (arith, results_length rows (a + 1) n)

pub rows_length : (rows : List Row) → total (λ r. 1) rows ≡ length rows
rows_length [] = refl
rows_length (r ∷ rows) = omega (arith, rows_length rows)

pub results_count : (rows : List BatchFileProcessingResult) → total (λ r. 1) rows ≡ length rows
results_count [] = refl
results_count (r ∷ rows) = omega (arith, results_count rows)
