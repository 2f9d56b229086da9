-- ===== src/Batch/Runs/Halting.antt =====
-- That the workers come to an end, over every interleaving.
pub mod Ranks
pub use Ranks.{rank_of, measure}
use jpg_spinner.Batch.Runs.Halting.Ranks.{rank_along}
use jpg_spinner.Batch.Runs.Accounting.{
  IsAccounted, run_accounts, get_elem?_none, get_elem?_lt, next_along,
}
use jpg_spinner.Batch.Runs.Memory.{run-IsBalanced, IsBalanced, guard_of, reservation_of, weight}
use jpg_spinner.Batch.Sections.Stages.{
  has_file, is_unsaved, is_past_check, rank, InFront, Passes-InFront, PassesUnopposed-InFront,
  MayRefuse-InFront, MayThrow-InFront,
}
use jpg_spinner.Batch.Runs.Invariants.{
  moved, stopped, IsShaped, run_keeps, step_keeps, new_workers_total, new_workers-All,
}
use jpg_spinner.Prelude.{◌++◌, ap, sym, ◌∙◌, All, All-get_elem?, All-set_at, zero, suc}
use jpg_spinner.Batch.Runs.{
  State, Event, worker, cancellation, handle_event, run, start, new_worker, new_workers,
  worker_count,
}
use jpg_spinner.Batch.Sections.Shapes.{Shape, Shaped, IsFree, Holds, Move-Shaped}
use jpg_spinner.Batch.Sections.Moves.Complete.{run_section-Move}
use jpg_spinner.Batch.Sections.{run_section}
use jpg_spinner.Batch.State.{
  Stage, taking, begun, unopposed, estimating, waiting, capturing, captured, transforming,
  transformed, locking, locked, cleared, committing, stopping, returning, unwinding_bad_alloc,
  unwinding, counting, releasing, releasing_failed, failing, ending, exited, Worker, Shared,
}
use jpg_spinner.Batch.Sections.Moves.{
  PassesUnopposed, finds_no_conflict, unopposed_start, unopposed_save, Passes, approves,
  same_revision, before_transform, has_output, before_boundary, before_save, IsBlocked, on_memory,
  on_mutex, past_files, at_exit, Move, stays, leaves, takes, passes, needs_nothing, estimates,
  admits, refuses, throws, locks, saved, save_refused, save_threw, stops, returns,
  unwinds_bad_alloc, unwinds, counts, releases, releases_failed, fails, ends, MayRefuse, MayThrow,
  at_begun, at_unopposed, at_waiting, at_capturing, at_captured, at_transforming, at_transformed,
  at_locked, at_cleared, called, out_of_memory, first_section,
}
use jpg_spinner.Batch.Admission.{
  at, Ending, record_error, unwind, is_admitted, admission_budget, at_least_one,
}
use jpg_spinner.Batch.Sections.{count_file, release_memory, release_guard}
use jpg_spinner.Batch.Files.{
  AnalyzedImageBatch, is_recovery_conflict, outcome_of_error, BatchFileAnalysis,
}
use jpg_spinner.Domain.Failure.{ImageProcessingError}
use jpg_spinner.Prelude.{
  ℕ, ◌+◌, ◌*◌, ◌-◌, ◌≡◌, ◌≢◌, ◌≤◌, ◌<◌, refl, Bool, true, false, not, ◌&&◌, ◌||◌, arith, if_both,
  Option, none, some, List, [], ◌∷◌, get_elem?, set_at, total, total-set_at, entry_le_total,
  total_pos, length, ltb, leb, ◌==◌, ==_iff, if◌then◌else◌, ◌⊎◌, inl, inr, Bool-cases, min,
  zero_or_pos,
}
use jpg_spinner.Batch.State.{Answers}

set_at_same : (ws : List Worker) (k : ℕ) (w : Worker) → get_elem? ws k ≡ some w → set_at ws k w ≡ ws
set_at_same (v ∷ ws) zero w e = ground arith
set_at_same (v ∷ ws) (suc k) w e = ap (λ x. v ∷ x) (set_at_same ws k w e)
set_at_same [] k w e = refl

moved_same :
    (s : State) (k : ℕ) (w : Worker) (o : Ending)
    → get_elem? s.workers k ≡ some w
    → o ≡ (s.shared, w)
    → moved s k o ≡ s
moved_same s k w o e q =
    ap (moved s k) q
    ∙ ap (λ ws. record { shared = s.shared; workers = ws }) (set_at_same s.workers k w e)

run-append :
    (batch : AnalyzedImageBatch) (s : State) (es : List Event) (e : Event)
    → run batch s (es ++ e ∷ []) ≡ handle_event batch (run batch s es) e
unfolding run
run-append batch s [] e = refl
run-append batch s (d ∷ es) e = run-append batch (handle_event batch s d) es e

-- A reachable state's measure falls with the section of a worker, if the worker is not blocked.
module _ (batch : AnalyzedImageBatch) (s : State)
    (b : s.shared.next_index ≤ length batch.files) where
  step_measure :
      (k : ℕ) (a : Answers)
      → (handle_event batch s (worker k a) ≡ s)
        ⊎ (measure batch (handle_event batch s (worker k a)) < measure batch s)
  unfolding handle_event
  step_measure k a = go (get_elem? s.workers k) refl
    where
      go :
          (f : Option Worker)
          → get_elem? s.workers k ≡ f
          → ((elim f [ none ↦ s | some w ↦ moved s k (run_section w.stage batch a s.shared w) ])
              ≡ s)
            ⊎ (measure batch (elim f [
              | none ↦ s
              | some w ↦ moved s k (run_section w.stage batch a s.shared w)
            ])
                < measure batch s)
      go none e = inl refl
      go (some w) e =
          elim (rank_along batch s.shared w refl b (run_section-Move batch s.shared w w.stage a)) [
            | inl same ↦ inl (moved_same s k w (run_section w.stage batch a s.shared w) e same.1)
            | inr less ↦ inr (
                omega (
                  arith,
                  less,
                  total-set_at rank_of s.workers k w (run_section w.stage batch a s.shared w).1 e,
                ))
          ]

-- In every interleaving, a section of a worker either leaves the state as it is or lowers the measure, the number of
-- sections that the workers have before them in their files at most, and seventeen more for each
-- file that is not taken yet.
pub run_sections_end :
    (batch : AnalyzedImageBatch) (es : List Event) (k : ℕ) (a : Answers)
    → (run batch (start batch) (es ++ worker k a ∷ []) ≡ run batch (start batch) es)
      ⊎ (measure batch (run batch (start batch) (es ++ worker k a ∷ []))
          < measure batch (run batch (start batch) es))
run_sections_end batch es k a =
    rw (run-append batch (start batch) es (worker k a))
      (step_measure batch (run batch (start batch) es) (run_accounts batch es).bounded k a)
