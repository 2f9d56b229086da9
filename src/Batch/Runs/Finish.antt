-- ===== src/Batch/Runs/Finish.antt =====
-- Where the workers come to an end: what they have left behind.
pub mod Ends
pub use Ends.{exited_worker, ending_worker, failing_worker}
use jpg_spinner.Batch.Runs.Finish.Ends.{
  is_failing, ending_along, exited_along, failing_along, failure_along, is_exited,
}
use jpg_spinner.Batch.Runs.Accounting.{next_along, IsAccounted, IsAccounted-moved, run_accounts}
use jpg_spinner.Batch.Runs.Memory.{weight}
use jpg_spinner.Batch.Sections.Stages.{
  has_file, is_unsaved, is_past_check, rank, InFront, Passes-InFront, PassesUnopposed-InFront,
  MayRefuse-InFront, MayThrow-InFront,
}
use jpg_spinner.Batch.Runs.Invariants.{
  moved, stopped, IsShaped, run_keeps, step_keeps, new_workers_total, new_workers-All,
}
use jpg_spinner.Prelude.{length-set_at, All, All-get_elem?, All-set_at, zero, suc}
use jpg_spinner.Batch.Runs.{
  State, Event, worker, cancellation, handle_event, run, start, new_worker, new_workers,
  worker_count,
}
use jpg_spinner.Batch.Sections.Shapes.{Shape, Shaped, IsFree, Holds, Move-Shaped}
use jpg_spinner.Batch.Sections.Moves.Complete.{run_section-Move}
use jpg_spinner.Batch.Sections.{run_section}
use jpg_spinner.Batch.State.{
  Stage, taking, begun, unopposed, estimating, waiting, capturing, captured, transforming,
  transformed, locking, locked, cleared, committing, stopping, returning, unwinding_bad_alloc,
  unwinding, counting, releasing, releasing_failed, failing, ending, exited, Worker, Shared,
}
use jpg_spinner.Batch.Sections.Moves.{
  PassesUnopposed, finds_no_conflict, unopposed_start, unopposed_save, Passes, approves,
  same_revision, before_transform, has_output, before_boundary, before_save, IsBlocked, on_memory,
  on_mutex, past_files, at_exit, Move, stays, leaves, takes, passes, needs_nothing, estimates,
  admits, refuses, throws, locks, saved, save_refused, save_threw, stops, returns,
  unwinds_bad_alloc, unwinds, counts, releases, releases_failed, fails, ends, MayRefuse, MayThrow,
  at_begun, at_unopposed, at_waiting, at_capturing, at_captured, at_transforming, at_transformed,
  at_locked, at_cleared, called, out_of_memory, first_section,
}
use jpg_spinner.Batch.Admission.{
  at, Ending, record_error, unwind, is_admitted, admission_budget, at_least_one,
}
use jpg_spinner.Batch.Sections.{count_file, release_memory, release_guard}
use jpg_spinner.Batch.Files.{
  AnalyzedImageBatch, is_recovery_conflict, outcome_of_error, BatchFileAnalysis,
}
use jpg_spinner.Domain.Failure.{ImageProcessingError}
use jpg_spinner.Prelude.{
  ℕ, ◌+◌, ◌*◌, ◌-◌, ◌≡◌, ◌≢◌, ◌≤◌, ◌<◌, refl, Bool, true, false, not, ◌&&◌, ◌||◌, arith, if_both,
  Option, none, some, List, [], ◌∷◌, get_elem?, set_at, total, total-set_at, entry_le_total,
  total_pos, length, ltb, leb, ◌==◌, ==_iff, if◌then◌else◌, ◌⊎◌, inl, inr, Bool-cases, min,
  zero_or_pos,
}

-- A worker is at its end behind the last file or a failure, a failure's publication stands behind it, and a file
-- whose processing threw has a failure published or on its way.
pub record IsFinishing (batch : AnalyzedImageBatch) (s : State) : Type 0 where
  pub accounted : IsAccounted batch s
  pub exits :
      (total exited_worker s.workers ≡ 0)
      ⊎ ((s.shared.next_index ≡ length batch.files) ⊎ (1 ≤ weight s.shared.has_worker_failure))
  pub endings : (total ending_worker s.workers ≡ 0) ⊎ (1 ≤ weight s.shared.has_worker_failure)
  pub failures :
      (length s.shared.unfinished ≡ 0)
      ⊎ (1 ≤ total failing_worker s.workers + weight s.shared.has_worker_failure)

module _ (batch : AnalyzedImageBatch) (s : State) (k : ℕ) (w : Worker) (o : Ending)
    (h : IsFinishing batch s) (e : get_elem? s.workers k ≡ some w)
    (m : Move batch s.shared w w.stage o) where
  abbrev kept : weight s.shared.has_worker_failure ≤ weight o.0.has_worker_failure
  kept = failure_along batch s.shared w m

  exits_along :
      (total exited_worker (moved s k o).workers ≡ 0)
      ⊎ ((o.0.next_index ≡ length batch.files) ⊎ (1 ≤ weight o.0.has_worker_failure))
  exits_along =
      let old = h.exits in
      let ends = h.endings in
      let change = total-set_at exited_worker s.workers k w o.1 e in
      let bound = next_along batch s.shared w m h.accounted.bounded in
      let own = exited_along batch s.shared w refl m in
      let few = entry_le_total ending_worker s.workers k w e in ground (arith, kept)

  endings_along :
      (total ending_worker (moved s k o).workers ≡ 0) ⊎ (1 ≤ weight o.0.has_worker_failure)
  endings_along =
      let old = h.endings in
      let change = total-set_at ending_worker s.workers k w o.1 e in
      let own = ending_along batch s.shared w refl m in ground (arith, kept)

  failures_along :
      (length o.0.unfinished ≡ 0)
      ⊎ (1 ≤ total failing_worker (moved s k o).workers + weight o.0.has_worker_failure)
  failures_along =
      let old = h.failures in
      let change = total-set_at failing_worker s.workers k w o.1 e in
      let few = entry_le_total failing_worker s.workers k w e in
      let own = failing_along batch s.shared w refl m in ground (arith, kept)

  IsFinishing-moved : IsFinishing batch (moved s k o)
  IsFinishing-moved = record {
    accounted = IsAccounted-moved batch s k w o h.accounted e m;
    exits = exits_along;
    endings = endings_along;
    failures = failures_along;
  }

pub run-IsFinishing :
    (batch : AnalyzedImageBatch) (es : List Event) → IsFinishing batch (run batch (start batch) es)
unfolding start run
run-IsFinishing batch es =
    let n = worker_count batch in
    run_keeps batch (IsFinishing batch)
      (λ s h. record {
        accounted = record {
          bounded = h.accounted.bounded;
          placed = h.accounted.placed;
          tallied = h.accounted.tallied;
        };
        exits = h.exits;
        endings = h.endings;
        failures = h.failures;
      })
      (IsFinishing-moved batch) (start batch) es
      record {
        accounted = run_accounts batch [];
        exits = inl (new_workers_total exited_worker n refl);
        endings = inl (new_workers_total ending_worker n refl);
        failures = inl refl;
      }

pub exited_alone :
    (st : Stage) → rank st ≡ 0 → (is_exited st ≡ 1) × (has_file st ≡ 0) × (is_failing st ≡ 0)
exited_alone exited e = (refl, refl, refl)
exited_alone st e = absurd (ground arith)

length-new_workers : (n : ℕ) → length (new_workers n) ≡ n
length-new_workers zero = refl
length-new_workers (suc n) = omega (arith, length-new_workers n)

pub run_workers :
    (batch : AnalyzedImageBatch) (es : List Event)
    → length (run batch (start batch) es).workers ≡ worker_count batch
unfolding start
run_workers batch es =
    run_keeps batch (λ s. length s.workers ≡ worker_count batch) (λ s h. h)
      (λ s k w o h e m. omega (arith, h, length-set_at s.workers k o.1)) (start batch) es
      (length-new_workers (worker_count batch))
