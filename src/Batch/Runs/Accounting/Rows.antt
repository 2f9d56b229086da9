-- ===== src/Batch/Runs/Accounting/Rows.antt =====
-- How a move changes the rows, the counters and the next index.
use jpg_spinner.Batch.Sections.Stages.{
  has_file, Passes-InFront, PassesUnopposed-InFront, MayRefuse-InFront, MayThrow-InFront,
}
use jpg_spinner.Prelude.{zero, suc}
use jpg_spinner.Batch.State.{Stage, Worker, Shared}
use jpg_spinner.Batch.Sections.Moves.{
  approves, finds_no_conflict, Move, stays, leaves, takes, passes, needs_nothing, estimates, admits,
  refuses, throws, locks, saved, save_refused, save_threw, stops, returns, unwinds_bad_alloc,
  unwinds, counts, releases, releases_failed, fails, ends,
}
use jpg_spinner.Batch.Admission.{Ending, record_error}
use jpg_spinner.Batch.Sections.{count_file, release_memory}
use jpg_spinner.Batch.Files.{
  BatchProcessingProgress, count_outcome, report_progress, BatchFileOutcome, processing_failed,
  unsupported_source_skipped, no_orientation_normalization_required,
  cancelled_before_transformation, cancelled_before_commit, corrected_copy_created,
  original_replaced_with_verified_backup, original_replaced_without_retained_backup,
  AnalyzedImageBatch,
}
use jpg_spinner.Prelude.{
  ℕ, ◌+◌, ◌-◌, ◌≡◌, ◌≤◌, Bool, arith, none, some, List, [], ◌∷◌, get_elem?, total, length, ltb,
  ◌==◌, if◌then◌else◌,
}
use jpg_spinner.Batch.State.{Row}

abbrev pub is_at : ℕ → ℕ → ℕ
is_at i n = if n == i then 1 else 0

abbrev pub row_is_at : ℕ → Row → ℕ
row_is_at i r = is_at i r.index

abbrev pub has_file_at : ℕ → Worker → ℕ
has_file_at i w = if has_file w.stage == 0 then 0 else is_at i w.index

abbrev pub is_below : ℕ → ℕ → ℕ
is_below n i = if ltb i n then 1 else 0

-- The rows that the counters count.
abbrev pub is_failed_outcome : BatchFileOutcome → ℕ
is_failed_outcome processing_failed = 1
is_failed_outcome _ = 0

abbrev pub is_skipped_outcome : BatchFileOutcome → ℕ
is_skipped_outcome unsupported_source_skipped = 1
is_skipped_outcome no_orientation_normalization_required = 1
is_skipped_outcome _ = 0

abbrev pub is_cancelled_outcome : BatchFileOutcome → ℕ
is_cancelled_outcome cancelled_before_transformation = 1
is_cancelled_outcome cancelled_before_commit = 1
is_cancelled_outcome _ = 0

abbrev pub is_saved_outcome : BatchFileOutcome → ℕ
is_saved_outcome corrected_copy_created = 1
is_saved_outcome original_replaced_with_verified_backup = 1
is_saved_outcome original_replaced_without_retained_backup = 1
is_saved_outcome _ = 0

abbrev pub is_failed_row : Row → ℕ
is_failed_row r = is_failed_outcome r.result.outcome

abbrev pub is_skipped_row : Row → ℕ
is_skipped_row r = is_skipped_outcome r.result.outcome

abbrev pub is_cancelled_row : Row → ℕ
is_cancelled_row r = is_cancelled_outcome r.result.outcome

pub get_elem?_none {ℓ} : {A : Type ℓ} (xs : List A) (i : ℕ) → get_elem? xs i ≡ none → length xs ≤ i
get_elem?_none [] i e = omega arith
get_elem?_none (y ∷ xs) zero e = absurd (ground arith)
get_elem?_none (y ∷ xs) (suc i) e = omega (arith, get_elem?_none xs i (ground arith))

pub get_elem?_lt {ℓ} :
    {A : Type ℓ} (xs : List A) (i : ℕ) {x : A} → get_elem? xs i ≡ some x → i + 1 ≤ length xs
get_elem?_lt (y ∷ xs) zero e = omega arith
get_elem?_lt (y ∷ xs) (suc i) {x} e = omega (arith, get_elem?_lt xs i {x = x} (ground arith))
get_elem?_lt [] i e = absurd (ground arith)

module _ (batch : AnalyzedImageBatch) (sh : Shared) (w : Worker) (i : ℕ) where
  pub row_along :
      {st : Stage} {o : Ending}
      → w.stage ≡ st
      → Move batch sh w st o
      → total (row_is_at i) o.0.rows
          + total (is_at i) o.0.unfinished
          + has_file_at i o.1
          + is_below sh.next_index i
        ≡ total (row_is_at i) sh.rows
          + total (is_at i) sh.unfinished
          + (if has_file st == 0 then 0 else is_at i w.index)
          + is_below o.0.next_index i
  unfolding record_error count_file release_memory
  row_along q (stays b) = ground arith
  row_along q (leaves e) = ground arith
  row_along q (takes e) = ground arith
  row_along q (passes p) = ground (arith, Passes-InFront p)
  row_along q (approves n t) = ground arith
  row_along q (finds_no_conflict u e) = ground (arith, PassesUnopposed-InFront u)
  row_along q needs_nothing = ground arith
  row_along q (estimates bytes l) = ground arith
  row_along q (admits headroom e) = ground arith
  row_along q (refuses m error entered) = ground (arith, MayRefuse-InFront m)
  row_along q (throws m b) = ground (arith, MayThrow-InFront m)
  row_along q (locks e) = ground arith
  row_along q saved = ground arith
  row_along q (save_refused error) = ground arith
  row_along q (save_threw b) = ground arith
  row_along q stops = ground arith
  row_along q returns = ground arith
  row_along q unwinds_bad_alloc = ground arith
  row_along q unwinds = ground arith
  row_along q (counts b) = ground arith
  row_along q releases = ground arith
  row_along q releases_failed = ground arith
  row_along q fails = ground arith
  row_along q ends = ground arith

module _ (batch : AnalyzedImageBatch) (sh : Shared) (w : Worker) where
  pub next_along :
      {st : Stage} {o : Ending}
      → Move batch sh w st o
      → sh.next_index ≤ length batch.files
      → (sh.next_index ≤ o.0.next_index) × (o.0.next_index ≤ length batch.files)
  unfolding record_error count_file release_memory
  next_along (stays b) = λ l. (omega arith, l)
  next_along (leaves e) = λ l. (omega arith, l)
  next_along (takes e) = λ l. (omega arith, get_elem?_lt batch.files sh.next_index e)
  next_along (passes p) = λ l. (omega arith, l)
  next_along (approves n t) = λ l. (omega arith, l)
  next_along (finds_no_conflict u e) = λ l. (omega arith, l)
  next_along needs_nothing = λ l. (omega arith, l)
  next_along (estimates bytes l) = λ l. (omega arith, l)
  next_along (admits headroom e) = λ l. (omega arith, l)
  next_along (refuses m error entered) = λ l. (omega arith, l)
  next_along (throws m b) = λ l. (omega arith, l)
  next_along (locks e) = λ l. (omega arith, l)
  next_along saved = λ l. (omega arith, l)
  next_along (save_refused error) = λ l. (omega arith, l)
  next_along (save_threw b) = λ l. (omega arith, l)
  next_along stops = λ l. (omega arith, l)
  next_along returns = λ l. (omega arith, l)
  next_along unwinds_bad_alloc = λ l. (omega arith, l)
  next_along unwinds = λ l. (omega arith, l)
  next_along (counts b) = λ l. (omega arith, l)
  next_along releases = λ l. (omega arith, l)
  next_along releases_failed = λ l. (omega arith, l)
  next_along fails = λ l. (omega arith, l)
  next_along ends = λ l. (omega arith, l)

-- The counters say what the rows say.
pub record IsTallied (batch : AnalyzedImageBatch) (progress : BatchProcessingProgress)
    (rows : List Row) : Type 0 where
  pub discovered : progress.discovered ≡ length batch.files
  pub completed : progress.completed ≡ length rows
  pub failed : progress.failed ≡ total is_failed_row rows
  pub skipped : progress.skipped ≡ total is_skipped_row rows
  pub cancelled_count : progress.cancelled_count ≡ total is_cancelled_row rows
  pub remaining : progress.remaining ≡ length batch.files - length rows

IsTallied-counted :
    (batch : AnalyzedImageBatch) (sh : Shared) (w : Worker) (b : Bool)
    → IsTallied batch sh.progress sh.rows
    → IsTallied batch (count_file b sh w).0.progress (count_file b sh w).0.rows
unfolding count_file count_outcome report_progress
IsTallied-counted batch sh w b h =
    let d = h.discovered in
    let c = h.completed in
    let f = h.failed in
    let s = h.skipped in
    let k = h.cancelled_count in
    record {
      discovered = ground arith;
      completed = ground arith;
      failed = ground arith;
      skipped = ground arith;
      cancelled_count = ground arith;
      remaining = ground arith;
    }

module _ (batch : AnalyzedImageBatch) (sh : Shared) (w : Worker) where
  pub tally_along :
      {st : Stage} {o : Ending}
      → Move batch sh w st o
      → IsTallied batch sh.progress sh.rows
      → IsTallied batch o.0.progress o.0.rows
  unfolding record_error release_memory
  tally_along (stays b) h = h
  tally_along (leaves e) h = h
  tally_along (takes e) h = h
  tally_along (passes p) h = h
  tally_along (approves n t) h = h
  tally_along (finds_no_conflict u e) h = h
  tally_along needs_nothing h = h
  tally_along (estimates bytes l) h = h
  tally_along (admits headroom e) h = h
  tally_along (refuses m error entered) h = h
  tally_along (throws m b) h = h
  tally_along (locks e) h = h
  tally_along saved h = h
  tally_along (save_refused error) h = h
  tally_along (save_threw b) h = h
  tally_along stops h = h
  tally_along returns h = h
  tally_along unwinds_bad_alloc h = h
  tally_along unwinds h = h
  tally_along (counts b) h = IsTallied-counted batch sh w b h
  tally_along releases h = h
  tally_along releases_failed h = h
  tally_along fails h = h
  tally_along ends h = h
