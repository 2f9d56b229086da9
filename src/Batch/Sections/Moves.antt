-- ===== src/Batch/Sections/Moves.antt =====
-- The sections of `execute` as the edges of a state machine: one constructor for each way in which a section ends.
pub mod Complete
use jpg_spinner.Batch.Admission.{
  at, Ending, at_least_one, record_error, unwind, admission_budget, is_admitted, take_index,
  observe_conflict, observe_stop, check_file, estimate, await_memory,
}
use jpg_spinner.Batch.Sections.{
  capture_source, create_output, lock_commit, save, release_guard, count_file, release_memory,
  run_section,
}
use jpg_spinner.Batch.State.{
  Stage, taking, begun, unopposed, estimating, waiting, capturing, captured, transforming,
  transformed, locking, locked, cleared, committing, stopping, returning, unwinding_bad_alloc,
  unwinding, counting, releasing, releasing_failed, failing, ending, exited, Worker, Shared, Reply,
  replied, threw_bad_alloc, threw, Answers,
}
use jpg_spinner.Batch.Files.{
  BatchFileProcessingResult, BatchFileOutcome, cancelled_before_transformation,
  no_orientation_normalization_required, BatchFileAnalysis, AnalyzedImageBatch, is_same_revision,
  outcome_of_disposition,
}
use jpg_spinner.Domain.Geometry.{is_identity}
use jpg_spinner.Domain.Failure.{
  ImageProcessingError, ImageProcessingResult, success, failure, plain_error,
  working_memory_allocation_failed, coefficient_transformation,
}
use jpg_spinner.Prelude.{
  ℕ, ◌+◌, ◌-◌, ◌≤◌, ◌<◌, ◌≡◌, ◌≢◌, refl, Bool, true, false, not, ◌||◌, Option, none, some, ◌∷◌,
  length, get_elem?, ◌==◌, if_both, Bool-cases, inl, inr, arith,
}
use jpg_spinner.Storage.Records.{SourceFileRevision}

-- From a stage to the next with no effect.
pub data Passes : Stage → Stage → Type 0 where
  same_revision : Passes capturing captured
  before_transform : Passes captured transforming
  has_output : Passes transforming transformed
  before_boundary : Passes transformed locking
  before_save : Passes cleared committing

-- From a stage to the next, where no integrity conflict was observed.
pub data PassesUnopposed : Stage → Stage → Type 0 where
  unopposed_start : PassesUnopposed begun unopposed
  unopposed_save : PassesUnopposed locked cleared

-- Where an error may be recorded.
pub data MayRefuse : Stage → Type 0 where
  at_begun : MayRefuse begun
  at_unopposed : MayRefuse unopposed
  at_waiting : MayRefuse waiting
  at_capturing : MayRefuse capturing
  at_captured : MayRefuse captured
  at_transforming : MayRefuse transforming
  at_transformed : MayRefuse transformed
  at_locked : MayRefuse locked
  at_cleared : MayRefuse cleared

-- Where a call may throw, in front of the boundary of the saves.
pub data MayThrow : Stage → Type 0 where
  throws_estimating : MayThrow estimating
  throws_waiting : MayThrow waiting
  throws_capturing : MayThrow capturing
  throws_transforming : MayThrow transforming

-- Why a worker stays where it is.
pub data IsBlocked (batch : AnalyzedImageBatch) (sh : Shared) (w : Worker) : Stage → Type 0 where
  on_memory : 0 < sh.reserved_memory_bytes → IsBlocked batch sh w waiting
  on_mutex : sh.is_commit_mutex_held ≡ true → IsBlocked batch sh w locking
  past_files :
      (sh.next_index == length batch.files) ≡ false
      → get_elem? batch.files sh.next_index ≡ none
      → IsBlocked batch sh w taking
  at_exit : IsBlocked batch sh w exited

abbrev pub called : Shared → Worker → Shared
called sh w = record sh { saves = w.index ∷ sh.saves }

abbrev pub first_section : Shared → BatchFileAnalysis → Worker
first_section sh file = record {
  stage = begun;
  index = sh.next_index;
  file = file;
  charge = 0;
  reservation = 0;
  has_commit_guard = false;
  terminal = record { outcome = cancelled_before_transformation; error = none };
}

abbrev pub out_of_memory : Shared → Worker → Ending
out_of_memory sh w =
    record_error (plain_error working_memory_allocation_failed coefficient_transformation) false
      (release_guard w sh) w

pub data Move (batch : AnalyzedImageBatch) (sh : Shared) (w : Worker)
    : Stage → Ending → Type 0 where
  stays : {st : Stage} → IsBlocked batch sh w st → Move batch sh w st (sh, w)
  leaves : sh.next_index ≡ length batch.files → Move batch sh w taking (sh, at exited w)
  takes :
      {file : BatchFileAnalysis}
      → get_elem? batch.files sh.next_index ≡ some file
      → Move batch sh w taking (record sh { next_index = sh.next_index + 1 }, first_section sh file)
  passes : {st next : Stage} → Passes st next → Move batch sh w st (sh, at next w)
  finds_no_conflict :
      {st next : Stage}
      → PassesUnopposed st next
      → sh.integrity_failure ≡ none
      → Move batch sh w st (sh, at next w)
  approves :
      w.file.error ≡ none
      → is_identity w.file.transform ≡ false
      → Move batch sh w unopposed (sh, at estimating w)
  needs_nothing : Move batch sh w unopposed (
    sh,
    record w {
      stage = returning;
      terminal = record w.terminal { outcome = no_orientation_normalization_required };
    },
  )
  estimates :
      (bytes : ℕ)
      → 1 ≤ bytes
      → Move batch sh w estimating (sh, record w { stage = waiting; charge = bytes })
  admits :
      (headroom : ℕ)
      → is_admitted sh.reserved_memory_bytes w.charge
          (admission_budget batch.execution_limits.estimated_working_memory_budget_bytes headroom)
        ≡ true
      → Move batch sh w waiting (
        record sh { reserved_memory_bytes = sh.reserved_memory_bytes + w.charge },
        record w { stage = capturing; reservation = w.charge },
      )
  refuses :
      {st : Stage}
      → MayRefuse st
      → (error : ImageProcessingError) (entered : Bool)
      → Move batch sh w st (record_error error entered sh w)
  throws : {st : Stage} → MayThrow st → (b : Bool) → Move batch sh w st (unwind b sh w)
  locks :
      sh.is_commit_mutex_held ≡ false
      → Move batch sh w locking (
        record sh { is_commit_mutex_held = true },
        record w { stage = locked; has_commit_guard = true },
      )
  saved : Move batch sh w committing (
    called sh w,
    record w {
      stage = returning;
      terminal = record w.terminal { outcome = outcome_of_disposition batch.disposition };
    },
  )
  save_refused :
      (error : ImageProcessingError)
      → Move batch sh w committing (record_error error true (called sh w) w)
  save_threw : (b : Bool) → Move batch sh w committing (unwind b (called sh w) w)
  stops : Move batch sh w stopping (record sh { is_stop_requested = true }, at returning w)
  returns :
      Move batch sh w returning
        (release_guard w sh, record w { stage = counting; has_commit_guard = false })
  unwinds_bad_alloc : Move batch sh w unwinding_bad_alloc (
    (out_of_memory sh w).0,
    record (out_of_memory sh w).1 { stage = counting; has_commit_guard = false },
  )
  unwinds : Move batch sh w unwinding (
    record (release_guard w sh) { unfinished = w.index ∷ sh.unfinished },
    record w { stage = releasing_failed; has_commit_guard = false },
  )
  counts : (b : Bool) → Move batch sh w counting (count_file b sh w)
  releases : Move batch sh w releasing (release_memory taking sh w)
  releases_failed : Move batch sh w releasing_failed (release_memory failing sh w)
  fails : Move batch sh w failing (record sh { has_worker_failure = true }, at ending w)
  ends : Move batch sh w ending (record sh { is_stop_requested = true }, at exited w)
