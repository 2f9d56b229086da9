-- ===== src/Batch/Admission.antt =====
-- BatchProcessingCoordinator::execute: `recordError`, and the sections of `processFile` from the index of a file to the
-- admission of its memory.
use jpg_spinner.Batch.State.{
  Stage, begun, estimating, waiting, capturing, stopping, returning, unwinding_bad_alloc, unwinding,
  exited, Worker, Shared, Reply, replied, threw_bad_alloc, threw,
}
use jpg_spinner.Batch.Files.{
  cancelled_before_transformation, no_orientation_normalization_required, AnalyzedImageBatch,
  is_recovery_conflict, outcome_of_error,
}
use jpg_spinner.Domain.Geometry.{is_identity}
use jpg_spinner.Domain.Failure.{
  cancelled, ImageProcessingError, source_revision_capture, not_started, execution_state,
  ImageProcessingDiagnosticContext, plain_error,
}
use jpg_spinner.Prelude.{
  ℕ, ◌+◌, ◌-◌, min, Bool, true, false, not, ◌&&◌, ◌||◌, Option, none, some, length, get_elem?, leb,
  ◌==◌, if◌then◌else◌,
}

abbrev pub at : Stage → Worker → Worker
at st w = record w { stage = st }

-- The state behind a section.
abbrev pub Ending : Type 0
Ending = Shared × Worker

-- `max(1, n)`.
abbrev pub at_least_one : ℕ → ℕ
at_least_one n = if n == 0 then 1 else n

abbrev pub first_failure :
    Option ImageProcessingError → ImageProcessingError → Option ImageProcessingError
first_failure none e = some e
first_failure (some first) e = some first

-- `recordError`, but for the request to stop, which is a section of its own.
unfoldable pub record_error : ImageProcessingError → Bool → Shared → Worker → Ending
record_error error transformation_entered sh w =
    let is_conflict = is_recovery_conflict error.code in
    (
      record sh {
        integrity_failure =
            if is_conflict then first_failure sh.integrity_failure error else sh.integrity_failure;
        transaction_integrity_uncertain = is_conflict || sh.transaction_integrity_uncertain;
      },
      record w {
        stage = if is_conflict then stopping else returning;
        terminal = record {
          outcome = outcome_of_error error.code transformation_entered;
          error = some error;
        };
      },
    )

-- A call that threw leaves `processFile`.
abbrev pub unwind : Bool → Shared → Worker → Ending
unwind is_bad_alloc sh w = (sh, at (if is_bad_alloc then unwinding_bad_alloc else unwinding) w)

-- Only the explicit report that nothing ran tells that the transformation was not entered.
unfoldable pub transformation_started : ImageProcessingDiagnosticContext → Bool
transformation_started (execution_state not_started) = false
transformation_started _ = true

-- The budget of an admission, at least one byte, and its test.
abbrev pub admission_budget : Option ℕ → ℕ → ℕ
admission_budget none headroom = at_least_one headroom
admission_budget (some limit) headroom = at_least_one (min limit headroom)

abbrev pub is_admitted : ℕ → ℕ → ℕ → Bool
is_admitted reserved charge budget =
    reserved == 0 || (leb reserved budget && leb charge (budget - reserved))

-- The index under the mutex; past the last one the worker leaves the loop.
unfoldable pub take_index : AnalyzedImageBatch → Shared → Worker → Ending
take_index batch sh w =
    if sh.next_index == length batch.files
    then (sh, at exited w)
    else elim (get_elem? batch.files sh.next_index) [
      | none ↦ (sh, w)
      | some file ↦ (
        record sh { next_index = sh.next_index + 1 },
        record {
          stage = begun;
          index = sh.next_index;
          file = file;
          charge = 0;
          reservation = 0;
          has_commit_guard = false;
          terminal = record { outcome = cancelled_before_transformation; error = none };
        },
      )
    ]

-- `observedIntegrityFailure`, and where the worker goes without one.
unfoldable pub observe_conflict : Bool → Stage → Shared → Worker → Ending
observe_conflict entered next sh w = elim sh.integrity_failure [
  | none ↦ (sh, at next w)
  | some conflict ↦ record_error conflict entered sh w
]

-- A reading of the worker's stop token, and where the worker goes when no stop was requested.
unfoldable pub observe_stop : ImageProcessingError → Bool → Stage → Shared → Worker → Ending
observe_stop error entered next sh w =
    if sh.is_stop_requested then record_error error entered sh w else (sh, at next w)

-- The checks of a file without an error.
unfoldable pub check_plan : AnalyzedImageBatch → Shared → Worker → Ending
check_plan batch sh w =
    if sh.is_stop_requested || not batch.is_discovery_complete
    then record_error (plain_error cancelled source_revision_capture) false sh w
    else if is_identity w.file.transform
    then (
      sh,
      record w {
        stage = returning;
        terminal = record w.terminal { outcome = no_orientation_normalization_required };
      },
    )
    else (sh, at estimating w)

unfoldable pub check_file : AnalyzedImageBatch → Shared → Worker → Ending
check_file batch sh w = elim w.file.error [
  | some error ↦ record_error error false sh w
  | none ↦ check_plan batch sh w
]

unfoldable pub estimate : Reply ℕ → Shared → Worker → Ending
estimate (replied bytes) sh w = (sh, record w { stage = waiting; charge = at_least_one bytes })
estimate threw_bad_alloc sh w = unwind true sh w
estimate threw sh w = unwind false sh w

-- One round of the wait for memory, under the mutex: the admission, the end of the wait once a stop was requested,
-- or no change. The wait's sleep between two rounds is not modelled: a worker may look at any time.
unfoldable pub await_memory : AnalyzedImageBatch → Reply ℕ → Shared → Worker → Ending
await_memory batch (replied headroom) sh w =
    if is_admitted sh.reserved_memory_bytes w.charge
      (admission_budget batch.execution_limits.estimated_working_memory_budget_bytes headroom)
    then (
      record sh { reserved_memory_bytes = sh.reserved_memory_bytes + w.charge },
      record w { stage = capturing; reservation = w.charge },
    )
    else if sh.is_stop_requested
    then elim sh.integrity_failure [
      | none ↦ record_error (plain_error cancelled source_revision_capture) false sh w
      | some conflict ↦ record_error conflict false sh w
    ]
    else (sh, w)
await_memory batch threw_bad_alloc sh w = unwind true sh w
await_memory batch threw sh w = unwind false sh w
