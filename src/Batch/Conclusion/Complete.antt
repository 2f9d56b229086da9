-- ===== src/Batch/Conclusion/Complete.antt =====
-- The summary of a batch whose workers are at their end.
use jpg_spinner.Batch.Conclusion.{
  workers_started, BatchProcessingSummary, returned, summary_of, conclude, results_from,
}
use jpg_spinner.Batch.Conclusion.Rows.{results_total, results_length, rows_length, results_count}
use jpg_spinner.Batch.Runs.Finish.{
  run-IsFinishing, exited_alone, run_workers, exited_worker, failing_worker,
}
use jpg_spinner.Batch.Runs.Accounting.{
  is_failed_outcome, is_skipped_outcome, is_cancelled_outcome, is_below, has_file_at, row_is_at,
}
use jpg_spinner.Batch.Runs.Halting.{rank_of}
use jpg_spinner.Batch.Runs.{run, start, Event, worker_count, State}
use jpg_spinner.Batch.State.{Worker}
use jpg_spinner.Batch.Runs.Accounting.{run_accounts}
use jpg_spinner.Batch.Files.{AnalyzedImageBatch, BatchFileProcessingResult}
use jpg_spinner.Domain.Failure.{success}
use jpg_spinner.Prelude.{ℕ, ◌≤◌, ◌≡◌, refl, false, List, [], ◌∷◌, length, total, arith}

abbrev pub failed_result : BatchFileProcessingResult → ℕ
failed_result r = is_failed_outcome r.outcome

abbrev pub skipped_result : BatchFileProcessingResult → ℕ
skipped_result r = is_skipped_outcome r.outcome

abbrev pub cancelled_result : BatchFileProcessingResult → ℕ
cancelled_result r = is_cancelled_outcome r.outcome

-- One row for each file, and counters that are those of the rows.
pub record IsComplete (batch : AnalyzedImageBatch) (summary : BatchProcessingSummary) : Type 0 where
  pub rows : length summary.file_results ≡ length batch.files
  pub completed : summary.final_progress.completed ≡ length batch.files
  pub remaining : summary.final_progress.remaining ≡ 0
  pub failed : summary.final_progress.failed ≡ total failed_result summary.file_results
  pub skipped : summary.final_progress.skipped ≡ total skipped_result summary.file_results
  pub cancelled_count :
      summary.final_progress.cancelled_count ≡ total cancelled_result summary.file_results

all_exited : (ws : List Worker) → total rank_of ws ≡ 0 → total exited_worker ws ≡ length ws
all_exited [] e = refl
all_exited (w ∷ ws) e =
    ground (arith, all_exited ws (omega (arith, e)), exited_alone w.stage (omega (arith, e)))

none_with_file : (i : ℕ) (ws : List Worker) → total rank_of ws ≡ 0 → total (has_file_at i) ws ≡ 0
none_with_file i [] e = refl
none_with_file i (w ∷ ws) e =
    ground (arith, none_with_file i ws (omega (arith, e)), exited_alone w.stage (omega (arith, e)))

none_failing : (ws : List Worker) → total rank_of ws ≡ 0 → total failing_worker ws ≡ 0
none_failing [] e = refl
none_failing (w ∷ ws) e =
    ground (arith, none_failing ws (omega (arith, e)), exited_alone w.stage (omega (arith, e)))

module _ (batch : AnalyzedImageBatch) (es : List Event) (l : 1 ≤ worker_count batch)
    (e : total rank_of (run batch (start batch) es).workers ≡ 0)
    (f : (run batch (start batch) es).shared.has_worker_failure ≡ false) where
  abbrev end : State
  end = run batch (start batch) es

  all_taken : end.shared.next_index ≡ length batch.files
  all_taken =
      let exits = (run-IsFinishing batch es).exits in
      let workers = run_workers batch es in let gone = all_exited end.workers e in ground arith

  none_unfinished : end.shared.unfinished ≡ []
  none_unfinished =
      let failures = (run-IsFinishing batch es).failures in
      let none = none_failing end.workers e in ground arith

  each_row : (i : ℕ) → total (row_is_at i) end.shared.rows ≡ is_below (length batch.files) i
  each_row i =
      let placed = (run_accounts batch es).placed i in
      let free = none_with_file i end.workers e in
      let taken = all_taken in let unfinished = none_unfinished in ground arith

  summary-IsComplete : IsComplete batch (summary_of batch end)
  summary-IsComplete =
      let t = (run_accounts batch es).tallied in
      let rows = end.shared.rows in
      let size = length batch.files in
      let long = results_length rows 0 size in
      let all : length rows ≡ size = omega (
        arith,
        results_total (λ r. 1) rows size each_row,
        rows_length rows,
        results_count (results_from rows 0 size),
        long,
      ) in
      record {
        rows = long;
        completed = omega (arith, t.completed, all);
        remaining = omega (arith, t.remaining, all);
        failed = omega (arith, t.failed, results_total failed_result rows size each_row);
        skipped = omega (arith, t.skipped, results_total skipped_result rows size each_row);
        cancelled_count =
            omega (arith, t.cancelled_count, results_total cancelled_result rows size each_row);
      }

  -- When the batch has at least one worker, all workers are at their end and no exception left one of them, the result is the
  -- summary: one row for each file, every file completed, none remaining, and the counts of failed,
  -- skipped and cancelled files are those of the rows.
  pub run_completes :
      (conclude batch workers_started end ≡ returned (success (summary_of batch end)))
      × IsComplete batch (summary_of batch end)
  unfolding conclude
  run_completes = (ground arith, summary-IsComplete)
