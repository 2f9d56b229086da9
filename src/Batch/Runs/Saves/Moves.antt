-- ===== src/Batch/Runs/Saves/Moves.antt =====
-- How a move changes the calls of `commit`.
use jpg_spinner.Batch.Runs.Accounting.{is_at, is_below, is_saved_outcome}
use jpg_spinner.Batch.State.{Row}
use jpg_spinner.Batch.Files.{BatchFileProcessingResult}
use jpg_spinner.Batch.Sections.Stages.{
  is_unsaved, is_past_check, Passes-InFront, PassesUnopposed-InFront, MayRefuse-InFront,
  MayThrow-InFront,
}
use jpg_spinner.Domain.Failure.{
  plain_error, working_memory_allocation_failed, coefficient_transformation,
}
use jpg_spinner.Batch.Admission.{first_failure}
use jpg_spinner.Prelude.{All-weaken, All}
use jpg_spinner.Batch.State.{Stage, Worker, Shared}
use jpg_spinner.Batch.Sections.Moves.{
  approves, finds_no_conflict, Move, stays, leaves, takes, passes, needs_nothing, estimates, admits,
  refuses, throws, locks, saved, save_refused, save_threw, stops, returns, unwinds_bad_alloc,
  unwinds, counts, releases, releases_failed, fails, ends,
}
use jpg_spinner.Batch.Admission.{Ending, record_error}
use jpg_spinner.Batch.Sections.{count_file, release_memory}
use jpg_spinner.Batch.Files.{AnalyzedImageBatch, is_recovery_conflict, outcome_of_error}
use jpg_spinner.Domain.Failure.{ImageProcessingError}
use jpg_spinner.Prelude.{
  ℕ, ◌+◌, ◌≡◌, ◌≢◌, ◌≤◌, refl, Bool, true, false, arith, Option, none, List, ◌∷◌, total, ◌==◌,
  if◌then◌else◌, ◌⊎◌, inl, inr,
}

-- One for a worker that may still save the file with the index.
abbrev pub is_unsaved_at : ℕ → Worker → ℕ
is_unsaved_at i w = if is_unsaved w.stage == 0 then 0 else is_at i w.index

abbrev pub is_past_check_worker : Worker → ℕ
is_past_check_worker w = is_past_check w.stage

pub first_failure_some :
    (error : ImageProcessingError) (f : Option ImageProcessingError)
    → f ≢ none
    → (if is_recovery_conflict error.code then first_failure f error else f) ≢ none
first_failure_some error f n = ground arith

module _ (batch : AnalyzedImageBatch) (sh : Shared) (w : Worker) (i : ℕ) where
  pub save_along :
      {st : Stage} {o : Ending}
      → w.stage ≡ st
      → Move batch sh w st o
      → total (is_at i) o.0.saves + is_unsaved_at i o.1 + is_below sh.next_index i
        ≤ total (is_at i) sh.saves
          + (if is_unsaved st == 0 then 0 else is_at i w.index)
          + is_below o.0.next_index i
  unfolding record_error count_file release_memory
  save_along q (stays b) = ground arith
  save_along q (leaves e) = ground arith
  save_along q (takes e) = ground arith
  save_along q (passes p) = ground (arith, Passes-InFront p)
  save_along q (approves n t) = ground arith
  save_along q (finds_no_conflict u e) = ground (arith, PassesUnopposed-InFront u)
  save_along q needs_nothing = ground arith
  save_along q (estimates bytes l) = ground arith
  save_along q (admits headroom e) = ground arith
  save_along q (refuses m error entered) = ground (arith, MayRefuse-InFront m)
  save_along q (throws m b) = ground (arith, MayThrow-InFront m)
  save_along q (locks e) = ground arith
  save_along q saved = ground arith
  save_along q (save_refused error) = ground arith
  save_along q (save_threw b) = ground arith
  save_along q stops = ground arith
  save_along q returns = ground arith
  save_along q unwinds_bad_alloc = ground arith
  save_along q unwinds = ground arith
  save_along q (counts b) = ground arith
  save_along q releases = ground arith
  save_along q releases_failed = ground arith
  save_along q fails = ground arith
  save_along q ends = ground arith

-- A result that reports a save is one of a file whose `commit` was called.
abbrev pub IsBacked : List ℕ → ℕ → BatchFileProcessingResult → Type 0
IsBacked saves i r = (is_saved_outcome r.outcome ≡ 0) ⊎ (1 ≤ total (is_at i) saves)

abbrev pub IsBackedRow : List ℕ → Row → Type 0
IsBackedRow saves r = IsBacked saves r.index r.result

abbrev pub IsBackedWorker : List ℕ → Worker → Type 0
IsBackedWorker saves w = IsBacked saves w.index w.terminal

IsBacked-error :
    (error : ImageProcessingError) (entered : Bool)
    → is_saved_outcome (outcome_of_error error.code entered) ≡ 0
unfolding outcome_of_error
IsBacked-error error entered = ground arith

IsBacked-grown :
    (n : ℕ) (saves : List ℕ) (i : ℕ) (r : BatchFileProcessingResult)
    → IsBacked saves i r
    → IsBacked (n ∷ saves) i r
IsBacked-grown n saves i r (inl e) = inl e
IsBacked-grown n saves i r (inr l) = inr (omega (arith, l))

module _ (batch : AnalyzedImageBatch) (sh : Shared) (w : Worker) where
  pub backed_along :
      {st : Stage} {o : Ending}
      → Move batch sh w st o
      → IsBackedWorker sh.saves w
      → IsBackedWorker o.0.saves o.1
  unfolding record_error count_file release_memory
  backed_along (stays b) h = h
  backed_along (leaves e) h = h
  backed_along (takes e) h = inl refl
  backed_along (passes p) h = h
  backed_along (approves n t) h = h
  backed_along (finds_no_conflict u e) h = h
  backed_along needs_nothing h = inl refl
  backed_along (estimates bytes l) h = h
  backed_along (admits headroom e) h = h
  backed_along (refuses m error entered) h = inl (IsBacked-error error entered)
  backed_along (throws m b) h = h
  backed_along (locks e) h = h
  backed_along saved h = inr (ground arith)
  backed_along (save_refused error) h = inl (IsBacked-error error true)
  backed_along (save_threw b) h = IsBacked-grown w.index sh.saves w.index w.terminal h
  backed_along stops h = h
  backed_along returns h = h
  backed_along unwinds_bad_alloc h = inl (
      IsBacked-error (plain_error working_memory_allocation_failed coefficient_transformation)
        false)
  backed_along unwinds h = h
  backed_along (counts b) h = h
  backed_along releases h = h
  backed_along releases_failed h = h
  backed_along fails h = h
  backed_along ends h = h

  pub grow_along :
      {st : Stage} {o : Ending}
      → Move batch sh w st o
      → (i : ℕ) (r : BatchFileProcessingResult) → IsBacked sh.saves i r
      → IsBacked o.0.saves i r
  unfolding record_error count_file release_memory
  grow_along (stays b) = λ j r h. h
  grow_along (leaves e) = λ j r h. h
  grow_along (takes e) = λ j r h. h
  grow_along (passes p) = λ j r h. h
  grow_along (approves n t) = λ j r h. h
  grow_along (finds_no_conflict u e) = λ j r h. h
  grow_along needs_nothing = λ j r h. h
  grow_along (estimates bytes l) = λ j r h. h
  grow_along (admits headroom e) = λ j r h. h
  grow_along (refuses m error entered) = λ j r h. h
  grow_along (throws m b) = λ j r h. h
  grow_along (locks e) = λ j r h. h
  grow_along saved = λ j r. IsBacked-grown w.index sh.saves j r
  grow_along (save_refused error) = λ j r. IsBacked-grown w.index sh.saves j r
  grow_along (save_threw b) = λ j r. IsBacked-grown w.index sh.saves j r
  grow_along stops = λ j r h. h
  grow_along returns = λ j r h. h
  grow_along unwinds_bad_alloc = λ j r h. h
  grow_along unwinds = λ j r h. h
  grow_along (counts b) = λ j r h. h
  grow_along releases = λ j r h. h
  grow_along releases_failed = λ j r h. h
  grow_along fails = λ j r h. h
  grow_along ends = λ j r h. h

  pub rows_along :
      {st : Stage} {o : Ending}
      → Move batch sh w st o
      → IsBackedWorker sh.saves w
      → All (IsBackedRow sh.saves) sh.rows
      → All (IsBackedRow o.0.saves) o.0.rows
  unfolding record_error count_file release_memory
  rows_along (stays b) g h = h
  rows_along (leaves e) g h = h
  rows_along (takes e) g h = h
  rows_along (passes p) g h = h
  rows_along (approves n t) g h = h
  rows_along (finds_no_conflict u e) g h = h
  rows_along needs_nothing g h = h
  rows_along (estimates bytes l) g h = h
  rows_along (admits headroom e) g h = h
  rows_along (refuses m error entered) g h = h
  rows_along (throws m b) g h = h
  rows_along (locks e) g h = h
  rows_along saved g h =
      All-weaken (λ r. IsBacked-grown w.index sh.saves r.index r.result) sh.rows h
  rows_along (save_refused error) g h =
      All-weaken (λ r. IsBacked-grown w.index sh.saves r.index r.result) sh.rows h
  rows_along (save_threw b) g h =
      All-weaken (λ r. IsBacked-grown w.index sh.saves r.index r.result) sh.rows h
  rows_along stops g h = h
  rows_along returns g h = h
  rows_along unwinds_bad_alloc g h = h
  rows_along unwinds g h = h
  rows_along (counts b) g h = (g, h)
  rows_along releases g h = h
  rows_along releases_failed g h = h
  rows_along fails g h = h
  rows_along ends g h = h
