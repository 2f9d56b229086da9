-- ===== src/Batch/Runs/Saves.antt =====
-- The calls of `commit`, over every interleaving.
pub mod Moves
pub use Moves.{IsBackedRow}
use jpg_spinner.Batch.Runs.Saves.Moves.{
  first_failure_some, IsBacked, IsBackedWorker, backed_along, grow_along, is_past_check_worker,
  is_unsaved_at, rows_along, save_along,
}
use jpg_spinner.Batch.Runs.Accounting.{is_at, is_below, is_saved_outcome}
use jpg_spinner.Batch.Runs.Memory.{run-IsBalanced, IsBalanced, guard_of}
use jpg_spinner.Batch.State.{Row}
use jpg_spinner.Batch.Files.{
  outcome_of_disposition, BatchFileProcessingResult, is_unsupported_source,
}
use jpg_spinner.Batch.Sections.Stages.{
  has_file, is_unsaved, is_past_check, rank, InFront, Passes-InFront, PassesUnopposed-InFront,
  MayRefuse-InFront, MayThrow-InFront,
}
use jpg_spinner.Batch.Runs.Invariants.{
  moved, stopped, IsShaped, run_keeps, step_keeps, new_workers_total, new_workers-All,
}
use jpg_spinner.Domain.Failure.{
  plain_error, working_memory_allocation_failed, coefficient_transformation,
}
use jpg_spinner.Batch.Admission.{first_failure}
use jpg_spinner.Prelude.{total_le_under, All-weaken, All, All-get_elem?, All-set_at, zero, suc}
use jpg_spinner.Batch.Runs.{
  State, Event, worker, cancellation, handle_event, run, start, new_worker, new_workers,
  worker_count,
}
use jpg_spinner.Batch.Sections.Shapes.{Shape, Shaped, IsFree, Holds, Move-Shaped}
use jpg_spinner.Batch.Sections.Moves.Complete.{run_section-Move}
use jpg_spinner.Batch.Sections.{run_section}
use jpg_spinner.Batch.State.{
  Stage, taking, begun, unopposed, estimating, waiting, capturing, captured, transforming,
  transformed, locking, locked, cleared, committing, stopping, returning, unwinding_bad_alloc,
  unwinding, counting, releasing, releasing_failed, failing, ending, exited, Worker, Shared,
}
use jpg_spinner.Batch.Sections.Moves.{
  PassesUnopposed, finds_no_conflict, unopposed_start, unopposed_save, Passes, approves,
  same_revision, before_transform, has_output, before_boundary, before_save, IsBlocked, on_memory,
  on_mutex, past_files, at_exit, Move, stays, leaves, takes, passes, needs_nothing, estimates,
  admits, refuses, throws, locks, saved, save_refused, save_threw, stops, returns,
  unwinds_bad_alloc, unwinds, counts, releases, releases_failed, fails, ends, MayRefuse, MayThrow,
  at_begun, at_unopposed, at_waiting, at_capturing, at_captured, at_transforming, at_transformed,
  at_locked, at_cleared, called, out_of_memory, first_section,
}
use jpg_spinner.Batch.Admission.{
  at, Ending, record_error, unwind, is_admitted, admission_budget, at_least_one,
}
use jpg_spinner.Batch.Sections.{count_file, release_memory, release_guard}
use jpg_spinner.Batch.Files.{
  AnalyzedImageBatch, is_recovery_conflict, outcome_of_error, BatchFileAnalysis,
}
use jpg_spinner.Domain.Failure.{ImageProcessingError}
use jpg_spinner.Prelude.{
  ℕ, ◌+◌, ◌*◌, ◌-◌, ◌≡◌, ◌≢◌, ◌≤◌, ◌<◌, refl, Bool, true, false, not, ◌&&◌, ◌||◌, arith, if_both,
  Option, none, some, List, [], ◌∷◌, get_elem?, set_at, total, total-set_at, entry_le_total,
  total_pos, length, ltb, leb, ◌==◌, ==_iff, if◌then◌else◌, ◌⊎◌, inl, inr, Bool-cases, min,
  zero_or_pos,
}

-- No file is saved twice, and what reports a save is backed by one.
pub record IsSavedOnce (s : State) : Type 0 where
  pub once :
      (i : ℕ)
      → total (is_at i) s.shared.saves + total (is_unsaved_at i) s.workers
        ≤ is_below s.shared.next_index i
  pub rows : All (IsBackedRow s.shared.saves) s.shared.rows
  pub terminals : All (IsBackedWorker s.shared.saves) s.workers

IsSavedOnce-moved :
    (batch : AnalyzedImageBatch) (s : State) (k : ℕ) (w : Worker) (o : Ending)
    → IsSavedOnce s
    → get_elem? s.workers k ≡ some w
    → Move batch s.shared w w.stage o
    → IsSavedOnce (moved s k o)
IsSavedOnce-moved batch s k w o h e m =
    let own = All-get_elem? (IsBackedWorker s.shared.saves) s.workers k h.terminals e in
    record {
      once = λ i. omega (
        arith,
        h.once i,
        total-set_at (is_unsaved_at i) s.workers k w o.1 e,
        save_along batch s.shared w i refl m,
      );
      rows = rows_along batch s.shared w m own h.rows;
      terminals =
          All-set_at (IsBackedWorker o.0.saves) s.workers k o.1
            (All-weaken (λ v. grow_along batch s.shared w m v.index v.terminal) s.workers
              h.terminals)
            (backed_along batch s.shared w m own);
    }

run-IsSavedOnce :
    (batch : AnalyzedImageBatch) (es : List Event) → IsSavedOnce (run batch (start batch) es)
unfolding start
run-IsSavedOnce batch es =
    let n = worker_count batch in
    run_keeps batch IsSavedOnce
      (λ s h. record { once = h.once; rows = h.rows; terminals = h.terminals })
      (IsSavedOnce-moved batch) (start batch) es
      record {
        once = λ i. ground (arith, new_workers_total (is_unsaved_at i) n refl);
        rows = tt;
        terminals = new_workers-All (IsBackedWorker []) n (inl refl);
      }

is_below_le : (n i : ℕ) → is_below n i ≤ 1
is_below_le n i = ground arith

-- In every interleaving, `commit` was called at most once for each file, and every row of the result that
-- reports a save is of a file for which it was called.
pub run_saves_once :
    (batch : AnalyzedImageBatch) (es : List Event)
    → ((i : ℕ) → total (is_at i) (run batch (start batch) es).shared.saves ≤ 1)
      × All
          (IsBackedRow (run batch (start batch) es).shared.saves)
          (run batch (start batch) es).shared.rows
run_saves_once batch es =
    let h = run-IsSavedOnce batch es in
    (
      λ i.
          let l = h.once i in
          let n = is_below_le (run batch (start batch) es).shared.next_index i in
          omega (arith, l, n),
      h.rows,
    )

module _ (batch : AnalyzedImageBatch) (sh : Shared) (w : Worker) where
  -- Once a conflict is published no worker passes the check.
  conflict_along :
      {st : Stage} {o : Ending}
      → w.stage ≡ st
      → sh.integrity_failure ≢ none
      → Move batch sh w st o
      → (o.0.integrity_failure ≢ none)
        × (length o.0.saves + is_past_check o.1.stage ≤ length sh.saves + is_past_check st)
  unfolding record_error count_file release_memory
  conflict_along q n (stays b) = (n, ground arith)
  conflict_along q n (leaves e) = (n, ground arith)
  conflict_along q n (takes e) = (n, ground arith)
  conflict_along q n (passes p) = (n, ground (arith, Passes-InFront p))
  conflict_along q n (approves c t) = (n, ground arith)
  conflict_along q n (finds_no_conflict u e) = absurd (n e)
  conflict_along q n needs_nothing = (n, ground arith)
  conflict_along q n (estimates bytes l) = (n, ground arith)
  conflict_along q n (admits headroom e) = (n, ground arith)
  conflict_along q n (refuses m error entered) =
      (first_failure_some error sh.integrity_failure n, ground arith)
  conflict_along q n (throws m b) = (n, ground arith)
  conflict_along q n (locks e) = (n, ground arith)
  conflict_along q n saved = (n, ground arith)
  conflict_along q n (save_refused error) =
      (first_failure_some error sh.integrity_failure n, ground arith)
  conflict_along q n (save_threw b) = (n, ground arith)
  conflict_along q n stops = (n, ground arith)
  conflict_along q n returns = (n, ground arith)
  conflict_along q n unwinds_bad_alloc = (n, ground arith)
  conflict_along q n unwinds = (n, ground arith)
  conflict_along q n (counts b) = (n, ground arith)
  conflict_along q n releases = (n, ground arith)
  conflict_along q n releases_failed = (n, ground arith)
  conflict_along q n fails = (n, ground arith)
  conflict_along q n ends = (n, ground arith)

-- A published conflict, with at most `n` saves called or past the check.
record IsFrozen (n : ℕ) (s : State) : Type 0 where
  conflict : s.shared.integrity_failure ≢ none
  few : length s.shared.saves + total is_past_check_worker s.workers ≤ n

IsFrozen-moved :
    (batch : AnalyzedImageBatch) (n : ℕ) (s : State) (k : ℕ) (w : Worker) (o : Ending)
    → IsFrozen n s
    → get_elem? s.workers k ≡ some w
    → Move batch s.shared w w.stage o
    → IsFrozen n (moved s k o)
IsFrozen-moved batch n s k w o h e m =
    let c = conflict_along batch s.shared w refl h.conflict m in
    record {
      conflict = c.0;
      few = omega (arith, h.few, c.1, total-set_at is_past_check_worker s.workers k w o.1 e);
    }

past_check_guards : (w : Worker) → IsShaped w → is_past_check_worker w ≤ guard_of w
past_check_guards w h = go w.stage h
  where
    go : (st : Stage) → Shape st w → is_past_check st ≤ guard_of w
    go cleared h = ground arith
    go committing h = ground arith
    go st h = ground arith

-- From any state of an interleaving in which an integrity conflict is published, however the run goes on, `commit` is
-- called at most once more.
pub run_conflict_ends_saves :
    (batch : AnalyzedImageBatch) (es later : List Event)
    → (run batch (start batch) es).shared.integrity_failure ≢ none
    → length (run batch (run batch (start batch) es) later).shared.saves
      ≤ length (run batch (start batch) es).shared.saves + 1
run_conflict_ends_saves batch es later c =
    let s = run batch (start batch) es in
    let b = run-IsBalanced batch es in
    let guards = b.guards in
    let past =
      total_le_under IsShaped is_past_check_worker guard_of past_check_guards s.workers b.shapes in
    let n = length s.shared.saves + 1 in
    let frozen : IsFrozen n s = record { conflict = c; few = ground (arith, guards, past) } in
    let end =
      run_keeps batch (IsFrozen n) (λ s h. record { conflict = h.conflict; few = h.few })
        (IsFrozen-moved batch n) s later frozen in
    omega (arith, end.few)
