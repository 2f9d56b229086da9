-- ===== src/Batch/Sections.antt =====
-- BatchProcessingCoordinator::execute: the sections of `recordError`, `processFile`, `processFileAt` and of the
-- worker's loop.
pub mod Stages
pub mod Shapes
pub mod Moves
use jpg_spinner.Batch.Admission.{
  at, Ending, at_least_one, first_failure, record_error, unwind, transformation_started,
  admission_budget, is_admitted, take_index, observe_conflict, observe_stop, check_plan, check_file,
  estimate, await_memory,
}
use jpg_spinner.Batch.State.{
  Stage, taking, begun, unopposed, estimating, waiting, capturing, captured, transforming,
  transformed, locking, locked, cleared, committing, stopping, returning, unwinding_bad_alloc,
  unwinding, counting, releasing, releasing_failed, failing, ending, exited, Worker, Row, Shared,
  Reply, replied, threw_bad_alloc, threw, Answers,
}
use jpg_spinner.Batch.Files.{
  BatchFileProcessingResult, cancelled_before_transformation, no_orientation_normalization_required,
  BatchFileAnalysis, AnalyzedImageBatch, is_recovery_conflict, outcome_of_error,
  outcome_of_disposition, report_progress, count_outcome, is_same_revision,
}
use jpg_spinner.Domain.Geometry.{is_identity}
use jpg_spinner.Domain.Failure.{
  cancelled, source_changed_after_analysis, working_memory_allocation_failed, ImageProcessingError,
  source_revision_capture, source_revision_revalidation, coefficient_transformation,
  output_validation, ImageProcessingResult, success, failure, not_started, started, execution_state,
  ImageProcessingDiagnosticContext, plain_error,
}
use jpg_spinner.Domain.Geometry.{LosslessTransform}
use jpg_spinner.Storage.Records.{SourceFileRevision}
use jpg_spinner.Prelude.{
  ℕ, suc, ◌+◌, ◌-◌, min, Bool, true, false, not, ◌&&◌, ◌||◌, Option, none, some, List, ◌∷◌, length,
  get_elem?, leb, ltb, ◌==◌, if◌then◌else◌,
}

-- The capture under the admitted reservation, compared with the analysed revision.
unfoldable pub capture_source :
    Reply (ImageProcessingResult SourceFileRevision) → Shared → Worker → Ending
capture_source (replied (failure error)) sh w = record_error error false sh w
capture_source (replied (success revision)) sh w =
    if is_same_revision revision w.file.source_revision
    then (sh, at captured w)
    else record_error (plain_error source_changed_after_analysis source_revision_revalidation) false
        sh w
capture_source threw_bad_alloc sh w = unwind true sh w
capture_source threw sh w = unwind false sh w

unfoldable pub create_output : Reply (Option ImageProcessingError) → Shared → Worker → Ending
create_output (replied (some error)) sh w =
    record_error error (transformation_started error.diagnostic_context) sh w
create_output (replied none) sh w = (sh, at transformed w)
create_output threw_bad_alloc sh w = unwind true sh w
create_output threw sh w = unwind false sh w

-- `commitMutex`; the worker waits while another one holds it.
unfoldable pub lock_commit : Shared → Worker → Ending
lock_commit sh w = if sh.is_commit_mutex_held then (sh, w) else (
  record sh { is_commit_mutex_held = true },
  record w { stage = locked; has_commit_guard = true },
)

-- The call of `commit`.
unfoldable pub save :
    AnalyzedImageBatch → Reply (Option ImageProcessingError) → Shared → Worker → Ending
save batch reply sh w = go reply (record sh { saves = w.index ∷ sh.saves })
  where
    go : Reply (Option ImageProcessingError) → Shared → Ending
    go (replied (some error)) called = record_error error true called w
    go (replied none) called = (
      called,
      record w {
        stage = returning;
        terminal = record w.terminal { outcome = outcome_of_disposition batch.disposition };
      },
    )
    go threw_bad_alloc called = unwind true called w
    go threw called = unwind false called w

-- The end of the scope of `commitGuard`.
abbrev pub release_guard : Worker → Shared → Shared
release_guard w sh = record sh {
  is_commit_mutex_held = sh.is_commit_mutex_held && not w.has_commit_guard;
}

-- The count of the row under the mutex, and the observer.
unfoldable pub count_file : Bool → Shared → Worker → Ending
count_file observer_throws sh w = (
  record sh {
    progress = report_progress (
        count_outcome w.terminal.outcome
          (record sh.progress { completed = sh.progress.completed + 1 }));
    rows = record { index = w.index; result = w.terminal } ∷ sh.rows;
  },
  at (if observer_throws then releasing_failed else releasing) w,
)

-- The destructor of the reservation, but for its notify_all: a waiting worker may look at any time.
unfoldable pub release_memory : Stage → Shared → Worker → Ending
release_memory next sh w = (
  record sh { reserved_memory_bytes = sh.reserved_memory_bytes - w.reservation },
  record w { stage = next; reservation = 0 },
)

-- The next section of a worker.
unfoldable pub run_section : Stage → AnalyzedImageBatch → Answers → Shared → Worker → Ending
run_section taking batch a sh w = take_index batch sh w
run_section begun batch a sh w = observe_conflict false unopposed sh w
run_section unopposed batch a sh w = check_file batch sh w
run_section estimating batch a sh w = estimate a.estimated_working_memory_bytes sh w
run_section waiting batch a sh w = await_memory batch a.working_memory_budget sh w
run_section capturing batch a sh w = capture_source a.capture sh w
run_section captured batch a sh w =
    observe_stop (plain_error cancelled coefficient_transformation) false transforming sh w
run_section transforming batch a sh w = create_output a.create_validated_output sh w
run_section transformed batch a sh w =
    observe_stop (plain_error cancelled output_validation) true locking sh w
run_section locking batch a sh w = lock_commit sh w
run_section locked batch a sh w = observe_conflict true cleared sh w
run_section cleared batch a sh w =
    observe_stop (plain_error cancelled output_validation) true committing sh w
run_section committing batch a sh w = save batch a.commit sh w
run_section stopping batch a sh w = (record sh { is_stop_requested = true }, at returning w)
run_section returning batch a sh w =
    (release_guard w sh, record w { stage = counting; has_commit_guard = false })
run_section unwinding_bad_alloc batch a sh w =
    let failed =
      record_error (plain_error working_memory_allocation_failed coefficient_transformation) false
        (release_guard w sh) w in
    (failed.0, record failed.1 { stage = counting; has_commit_guard = false })
run_section unwinding batch a sh w = (
  record (release_guard w sh) { unfinished = w.index ∷ sh.unfinished },
  record w { stage = releasing_failed; has_commit_guard = false },
)
run_section counting batch a sh w = count_file a.observer_throws sh w
run_section releasing batch a sh w = release_memory taking sh w
run_section releasing_failed batch a sh w = release_memory failing sh w
run_section failing batch a sh w = (record sh { has_worker_failure = true }, at ending w)
run_section ending batch a sh w = (record sh { is_stop_requested = true }, at exited w)
run_section exited batch a sh w = (sh, w)
