-- ===== src/Batch/Runs/Memory.antt =====
-- The reservations of working memory and the mutex of the saves, over every interleaving.
pub mod Moves
pub use Moves.{weight, guard_of, reservation_of, is_reserving}
use jpg_spinner.Batch.Runs.Memory.Moves.{bound_along, guard_along, reservation_along}
use jpg_spinner.Batch.Runs.Invariants.{
  moved, stopped, IsShaped, run_keeps, step_keeps, new_workers_total, new_workers-All,
}
use jpg_spinner.Prelude.{sym, total_le, total_le_under, All, All-get_elem?, All-set_at, zero, suc}
use jpg_spinner.Batch.Runs.{
  State, Event, worker, cancellation, handle_event, run, start, new_worker, new_workers,
  worker_count,
}
use jpg_spinner.Batch.Sections.Shapes.{Shape, Shaped, IsFree, Holds, Move-Shaped}
use jpg_spinner.Batch.Sections.Moves.Complete.{run_section-Move}
use jpg_spinner.Batch.Sections.{run_section}
use jpg_spinner.Batch.State.{
  Stage, taking, begun, unopposed, estimating, waiting, capturing, captured, transforming,
  transformed, locking, locked, cleared, committing, stopping, returning, unwinding_bad_alloc,
  unwinding, counting, releasing, releasing_failed, failing, ending, exited, Worker, Shared,
}
use jpg_spinner.Batch.Sections.Moves.{
  PassesUnopposed, finds_no_conflict, Passes, unopposed_start, approves, same_revision,
  before_transform, has_output, before_boundary, unopposed_save, before_save, IsBlocked, on_memory,
  on_mutex, past_files, at_exit, Move, stays, leaves, takes, passes, needs_nothing, estimates,
  admits, refuses, throws, locks, saved, save_refused, save_threw, stops, returns,
  unwinds_bad_alloc, unwinds, counts, releases, releases_failed, fails, ends, MayRefuse, MayThrow,
  at_begun, at_unopposed, at_waiting, at_capturing, at_captured, at_transforming, at_transformed,
  at_locked, at_cleared, called, out_of_memory, first_section,
}
use jpg_spinner.Batch.Admission.{
  at, Ending, record_error, unwind, is_admitted, admission_budget, at_least_one,
}
use jpg_spinner.Batch.Sections.{count_file, release_memory, release_guard}
use jpg_spinner.Batch.Files.{
  AnalyzedImageBatch, is_recovery_conflict, outcome_of_error, BatchFileAnalysis,
}
use jpg_spinner.Domain.Failure.{ImageProcessingError}
use jpg_spinner.Prelude.{
  ℕ, ◌+◌, ◌*◌, ◌-◌, ◌≡◌, ◌≢◌, ◌≤◌, ◌<◌, refl, Bool, true, false, not, ◌&&◌, ◌||◌, arith, if_both,
  Option, none, some, List, [], ◌∷◌, get_elem?, set_at, total, total-set_at, entry_le_total,
  total_pos, length, ltb, leb, ◌==◌, ==_iff, if◌then◌else◌, ◌⊎◌, inl, inr, Bool-cases, min,
  zero_or_pos,
}

-- What is reserved and whether the mutex is held is what the workers hold.
pub record IsBalanced (s : State) : Type 0 where
  pub shapes : All IsShaped s.workers
  pub reservations : s.shared.reserved_memory_bytes ≡ total reservation_of s.workers
  pub guards : weight s.shared.is_commit_mutex_held ≡ total guard_of s.workers

IsBalanced-moved :
    (batch : AnalyzedImageBatch) (s : State) (k : ℕ) (w : Worker) (o : Ending)
    → IsBalanced s
    → get_elem? s.workers k ≡ some w
    → Move batch s.shared w w.stage o
    → IsBalanced (moved s k o)
IsBalanced-moved batch s k w o h e m =
    let shape = All-get_elem? IsShaped s.workers k h.shapes e in
    record {
      shapes =
          All-set_at IsShaped s.workers k o.1 h.shapes (Move-Shaped batch s.shared w shape m refl);
      reservations =
          let l = entry_le_total reservation_of s.workers k w e in
          omega (
            arith,
            h.reservations,
            total-set_at reservation_of s.workers k w o.1 e,
            reservation_along batch s.shared w shape (omega (arith, l, h.reservations)) m,
          );
      guards =
          let l = entry_le_total guard_of s.workers k w e in
          omega (
            arith,
            h.guards,
            total-set_at guard_of s.workers k w o.1 e,
            guard_along batch s.shared w shape (omega (arith, l, h.guards)) m,
          );
    }

IsBalanced-stopped : (s : State) → IsBalanced s → IsBalanced (stopped s)
IsBalanced-stopped s h = record {
  shapes = h.shapes;
  reservations = h.reservations;
  guards = h.guards;
}

pub run-IsBalanced :
    (batch : AnalyzedImageBatch) (es : List Event) → IsBalanced (run batch (start batch) es)
unfolding start
run-IsBalanced batch es =
    let n = worker_count batch in
    run_keeps batch IsBalanced IsBalanced-stopped (IsBalanced-moved batch) (start batch) es record {
      shapes = new_workers-All IsShaped n (refl, refl);
      reservations = sym (new_workers_total reservation_of n refl);
      guards = sym (new_workers_total guard_of n refl);
    }

-- One for a worker between the admission to the boundary of the saves and the end of its save.
abbrev pub is_saving : Worker → ℕ
is_saving w = elim w.stage [ locked ↦ 1 | cleared ↦ 1 | committing ↦ 1 | _ ↦ 0 ]

is_saving_guards : (w : Worker) → IsShaped w → is_saving w ≤ guard_of w
is_saving_guards w h = go w.stage h
  where
    go :
        (st : Stage)
        → Shape st w
        → (elim st [ locked ↦ 1 | cleared ↦ 1 | committing ↦ 1 | _ ↦ 0 ]) ≤ guard_of w
    go locked h = ground arith
    go cleared h = ground arith
    go committing h = ground arith
    go st h = ground arith

-- In every interleaving, at most one worker is between the admission to the boundary of the saves and
-- the end of its save, and the bytes reserved are the sum of the workers' reservations.
pub run_one_saver :
    (batch : AnalyzedImageBatch) (es : List Event)
    → (total is_saving (run batch (start batch) es).workers ≤ 1)
      × ((run batch (start batch) es).shared.reserved_memory_bytes
          ≡ total reservation_of (run batch (start batch) es).workers)
run_one_saver batch es =
    let h = run-IsBalanced batch es in
    let g = h.guards in
    let ws = (run batch (start batch) es).workers in
    let l = total_le_under IsShaped is_saving guard_of is_saving_guards ws h.shapes in
    (ground (arith, g, l), h.reservations)

module _ (batch : AnalyzedImageBatch) (limit : ℕ)
    (q : batch.execution_limits.estimated_working_memory_budget_bytes ≡ some limit) where
  record IsWithin (s : State) : Type 0 where
    balanced : IsBalanced s
    within :
        (s.shared.reserved_memory_bytes ≤ at_least_one limit) ⊎ (total is_reserving s.workers ≤ 1)

  IsWithin-moved :
      (s : State) (k : ℕ) (w : Worker) (o : Ending)
      → IsWithin s
      → get_elem? s.workers k ≡ some w
      → Move batch s.shared w w.stage o
      → IsWithin (moved s k o)
  IsWithin-moved s k w o h e m =
      let shape = All-get_elem? IsShaped s.workers k h.balanced.shapes e in
      let sum = h.balanced.reservations in
      let few = total_le is_reserving reservation_of (λ x. ground arith) s.workers in
      let change = total-set_at is_reserving s.workers k w o.1 e in
      let old = h.within in
      let small : is_reserving o.1 ≤ 1 = ground arith in
      record {
        balanced = IsBalanced-moved batch s k w o h.balanced e m;
        within = elim (bound_along batch s.shared w limit q shape m) [
          | inl kept ↦ elim old [
            | inl l ↦ inl (omega (arith, l, kept.0))
            | inr l ↦ inr (omega (arith, l, kept.1, change))
          ]
          | inr (inl none_reserved) ↦ inr (omega (arith, none_reserved, sum, few, change, small))
          | inr (inr l) ↦ inl l
        ];
      }

  -- With a budget set for the batch, in every interleaving the bytes reserved are within the budget, or within one byte for
  -- a budget of none, or else at most one worker has a reservation.
  pub run_within_budget :
      (es : List Event)
      → ((run batch (start batch) es).shared.reserved_memory_bytes ≤ at_least_one limit)
        ⊎ (total is_reserving (run batch (start batch) es).workers ≤ 1)
  unfolding start run
  run_within_budget es =
      (run_keeps batch IsWithin
        (λ s h. record { balanced = IsBalanced-stopped s h.balanced; within = h.within })
        IsWithin-moved (start batch) es
        record { balanced = run-IsBalanced batch []; within = inl (ground arith) }).within
