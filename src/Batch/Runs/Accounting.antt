-- ===== src/Batch/Runs/Accounting.antt =====
-- Where the row of each file is, over every interleaving.
pub mod Rows
pub use Rows.{
  is_at, row_is_at, has_file_at, is_below, is_failed_outcome, is_skipped_outcome,
  is_cancelled_outcome, is_saved_outcome, get_elem?_none, get_elem?_lt, next_along,
}
use jpg_spinner.Batch.Runs.Accounting.Rows.{
  IsTallied, is_cancelled_row, is_failed_row, is_skipped_row, row_along, tally_along,
}
use jpg_spinner.Batch.Runs.Invariants.{
  moved, stopped, IsShaped, run_keeps, step_keeps, new_workers_total, new_workers-All,
}
use jpg_spinner.Batch.Sections.Stages.{
  has_file, is_unsaved, is_past_check, rank, InFront, Passes-InFront, PassesUnopposed-InFront,
  MayRefuse-InFront, MayThrow-InFront,
}
use jpg_spinner.Prelude.{All, All-get_elem?, All-set_at, zero, suc}
use jpg_spinner.Batch.Runs.{
  State, Event, worker, cancellation, handle_event, run, start, new_worker, new_workers,
  worker_count,
}
use jpg_spinner.Batch.Sections.Shapes.{Shape, Shaped, IsFree, Holds, Move-Shaped}
use jpg_spinner.Batch.Sections.Moves.Complete.{run_section-Move}
use jpg_spinner.Batch.Sections.{run_section}
use jpg_spinner.Batch.State.{
  Stage, taking, begun, unopposed, estimating, waiting, capturing, captured, transforming,
  transformed, locking, locked, cleared, committing, stopping, returning, unwinding_bad_alloc,
  unwinding, counting, releasing, releasing_failed, failing, ending, exited, Worker, Shared,
}
use jpg_spinner.Batch.Sections.Moves.{
  PassesUnopposed, finds_no_conflict, unopposed_start, unopposed_save, Passes, approves,
  same_revision, before_transform, has_output, before_boundary, before_save, IsBlocked, on_memory,
  on_mutex, past_files, at_exit, Move, stays, leaves, takes, passes, needs_nothing, estimates,
  admits, refuses, throws, locks, saved, save_refused, save_threw, stops, returns,
  unwinds_bad_alloc, unwinds, counts, releases, releases_failed, fails, ends, MayRefuse, MayThrow,
  at_begun, at_unopposed, at_waiting, at_capturing, at_captured, at_transforming, at_transformed,
  at_locked, at_cleared, called, out_of_memory, first_section,
}
use jpg_spinner.Batch.Admission.{
  at, Ending, record_error, unwind, is_admitted, admission_budget, at_least_one,
}
use jpg_spinner.Batch.Sections.{count_file, release_memory, release_guard}
use jpg_spinner.Batch.Files.{
  BatchProcessingProgress, count_outcome, report_progress, BatchFileOutcome, processing_failed,
  unsupported_source_skipped, no_orientation_normalization_required,
  cancelled_before_transformation, cancelled_before_commit, corrected_copy_created,
  original_replaced_with_verified_backup, original_replaced_without_retained_backup,
  AnalyzedImageBatch, is_recovery_conflict, outcome_of_error, BatchFileAnalysis,
}
use jpg_spinner.Domain.Failure.{ImageProcessingError}
use jpg_spinner.Prelude.{
  ℕ, ◌+◌, ◌*◌, ◌-◌, ◌≡◌, ◌≢◌, ◌≤◌, ◌<◌, refl, Bool, true, false, not, ◌&&◌, ◌||◌, arith, if_both,
  Option, none, some, List, [], ◌∷◌, get_elem?, set_at, total, total-set_at, entry_le_total,
  total_pos, length, ltb, leb, ◌==◌, ==_iff, if◌then◌else◌, ◌⊎◌, inl, inr, Bool-cases, min,
  zero_or_pos,
}
use jpg_spinner.Batch.State.{Row}

-- Every file below the next index is, once, in a row, with a worker, or among those whose processing threw; and
-- the counters are those of the rows.
pub record IsAccounted (batch : AnalyzedImageBatch) (s : State) : Type 0 where
  pub bounded : s.shared.next_index ≤ length batch.files
  pub placed :
      (i : ℕ)
      → total (row_is_at i) s.shared.rows
          + total (is_at i) s.shared.unfinished
          + total (has_file_at i) s.workers
        ≡ is_below s.shared.next_index i
  pub tallied : IsTallied batch s.shared.progress s.shared.rows

pub IsAccounted-moved :
    (batch : AnalyzedImageBatch) (s : State) (k : ℕ) (w : Worker) (o : Ending)
    → IsAccounted batch s
    → get_elem? s.workers k ≡ some w
    → Move batch s.shared w w.stage o
    → IsAccounted batch (moved s k o)
IsAccounted-moved batch s k w o h e m = record {
  bounded = (next_along batch s.shared w m h.bounded).1;
  placed = λ i. omega (
    arith,
    h.placed i,
    total-set_at (has_file_at i) s.workers k w o.1 e,
    row_along batch s.shared w i refl m,
  );
  tallied = tally_along batch s.shared w m h.tallied;
}

-- In every interleaving, each file below the next index is exactly once in a row of the result, with a
-- worker, or among the files whose processing threw, and no other file is there; the index is at
-- most the number of files; and the counts of completed, failed, skipped, cancelled and remaining
-- files are those of the rows.
pub run_accounts :
    (batch : AnalyzedImageBatch) (es : List Event) → IsAccounted batch (run batch (start batch) es)
unfolding start report_progress
run_accounts batch es =
    run_keeps batch (IsAccounted batch)
      (λ s h. record { bounded = h.bounded; placed = h.placed; tallied = h.tallied })
      (IsAccounted-moved batch) (start batch) es
      record {
        bounded = ground arith;
        placed = λ i. ground (arith, new_workers_total (has_file_at i) (worker_count batch) refl);
        tallied = record {
          discovered = refl;
          completed = refl;
          failed = refl;
          skipped = refl;
          cancelled_count = refl;
          remaining = refl;
        };
      }
