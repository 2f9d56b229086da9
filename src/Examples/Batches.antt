-- ===== src/Examples/Batches.antt =====
-- Batches of two files on two workers, run section by section.
use jpg_spinner.Batch.Conclusion.Complete.{run_completes, IsComplete}
use jpg_spinner.Batch.Conclusion.{workers_started, returned, summary_of, conclude}
use jpg_spinner.Batch.Runs.Accounting.{is_at, IsAccounted, run_accounts}
use jpg_spinner.Batch.Runs.Halting.{rank_of, measure, run_sections_end}
use jpg_spinner.Batch.Runs.Idle.{IsIdle, IsAdmission, run_admits_last}
use jpg_spinner.Batch.Runs.Memory.{
  is_saving, is_reserving, reservation_of, run_one_saver, run_within_budget,
}
use jpg_spinner.Batch.Runs.Needed.{IsNeeded, run_saves-IsNeeded}
use jpg_spinner.Batch.Runs.Saves.{IsBackedRow, run_saves_once, run_conflict_ends_saves}
use jpg_spinner.Batch.Runs.{Event, new_worker, worker, start, handle_event, run, worker_count}
use jpg_spinner.Batch.Admission.{
  record_error, take_index, observe_conflict, observe_stop, check_plan, check_file, estimate,
  await_memory, transformation_started,
}
use jpg_spinner.Batch.Sections.{
  capture_source, create_output, lock_commit, save, count_file, release_memory, run_section,
}
use jpg_spinner.Batch.State.{waiting, Worker, replied, Answers}
use jpg_spinner.Batch.Files.{
  BatchFileAnalysis, AnalyzedImageBatch, report_progress, count_outcome, outcome_of_error,
  outcome_of_disposition, is_unsupported_source, is_same_revision,
}
use jpg_spinner.Domain.Failure.{
  ImageProcessingError, recovery_conflict, original_replacement, plain_error, success,
}
use jpg_spinner.Domain.Geometry.{rotate_180}
use jpg_spinner.Prelude.{
  ℕ, zero, suc, ◌+◌, ◌≤◌, ◌<◌, ◌≡◌, refl, ◌≢◌, ◌⊎◌, inl, true, false, Option, none, some, List, [],
  ◌∷◌, ◌++◌, length, total, All, arith, is_same_list,
}
use jpg_spinner.Storage.Records.{SourceFileRevision, replace_original_with_verified_backup}

abbrev revision : SourceFileRevision
revision = record { encoded_length_bytes = 700; last_write_time_utc = 9; encoded_sha256 = [] }

abbrev turned : BatchFileAnalysis
turned = record { error = none; source_revision = revision; transform = rotate_180 }

abbrev two_files : AnalyzedImageBatch
two_files = record {
  disposition = replace_original_with_verified_backup;
  execution_limits = record {
    maximum_concurrent_image_count = 4;
    estimated_working_memory_budget_bytes = some 1000;
  };
  files = turned ∷ turned ∷ [];
  is_discovery_complete = true;
  analyzed_count = 2;
}

-- Every call succeeds; the commit replies as given.
abbrev answers : Option ImageProcessingError → Answers
answers e = record {
  estimated_working_memory_bytes = replied 800;
  working_memory_budget = replied 5000;
  capture = replied (success revision);
  create_validated_output = replied none;
  commit = replied e;
  observer_throws = false;
}

abbrev conflict : Option ImageProcessingError
conflict = some (plain_error recovery_conflict original_replacement)

-- Sections of one worker, one after the other.
abbrev sections : ℕ → ℕ → Option ImageProcessingError → List Event
sections zero k e = []
sections (suc n) k e = worker k (answers e) ∷ sections n k e

-- Both workers take a file; the first saves it and is counted, then the second; then both leave.
abbrev both : List Event
both = sections 2 0 none ++ sections 3 1 none ++ sections 15 0 none ++ sections 17 1 none

abbrev with_conflict : List Event
with_conflict = sections 2 0 none ++ sections 3 1 none ++ sections 12 0 conflict

both_counted : (run two_files (start two_files) both).shared.progress.completed ≡ 2
unfolding run start handle_event run_section take_index observe_conflict observe_stop check_plan
    check_file estimate await_memory capture_source create_output lock_commit save count_file
    release_memory record_error report_progress count_outcome outcome_of_error
    outcome_of_disposition is_same_revision is_same_list worker_count transformation_started
    is_unsupported_source
both_counted = refl

both_end : total rank_of (run two_files (start two_files) both).workers ≡ 0
unfolding run start handle_event run_section take_index observe_conflict observe_stop check_plan
    check_file estimate await_memory capture_source create_output lock_commit save count_file
    release_memory record_error report_progress count_outcome outcome_of_error
    outcome_of_disposition is_same_revision is_same_list worker_count transformation_started
    is_unsupported_source
both_end = refl

both_well : (run two_files (start two_files) both).shared.has_worker_failure ≡ false
unfolding run start handle_event run_section take_index observe_conflict observe_stop check_plan
    check_file estimate await_memory capture_source create_output lock_commit save count_file
    release_memory record_error report_progress count_outcome outcome_of_error
    outcome_of_disposition is_same_revision is_same_list worker_count transformation_started
    is_unsupported_source
both_well = refl

two_workers : 1 ≤ worker_count two_files
unfolding worker_count
two_workers = omega arith

run_one_saver_example :
    (total is_saving (run two_files (start two_files) (sections 11 0 none)).workers ≤ 1)
    × ((run two_files (start two_files) (sections 11 0 none)).shared.reserved_memory_bytes
        ≡ total reservation_of (run two_files (start two_files) (sections 11 0 none)).workers)
run_one_saver_example = run_one_saver two_files (sections 11 0 none)

run_within_budget_example :
    ((run two_files (start two_files) (sections 5 0 none)).shared.reserved_memory_bytes ≤ 1000)
    ⊎ (total is_reserving (run two_files (start two_files) (sections 5 0 none)).workers ≤ 1)
run_within_budget_example = run_within_budget two_files 1000 refl (sections 5 0 none)

run_accounts_example : IsAccounted two_files (run two_files (start two_files) both)
run_accounts_example = run_accounts two_files both

run_saves_once_example :
    ((i : ℕ) → total (is_at i) (run two_files (start two_files) both).shared.saves ≤ 1)
    × All
        (IsBackedRow (run two_files (start two_files) both).shared.saves)
        (run two_files (start two_files) both).shared.rows
run_saves_once_example = run_saves_once two_files both

conflict_published : (run two_files (start two_files) with_conflict).shared.integrity_failure ≢ none
unfolding run start handle_event run_section take_index observe_conflict observe_stop check_plan
    check_file estimate await_memory capture_source create_output lock_commit save count_file
    release_memory record_error report_progress count_outcome outcome_of_error
    outcome_of_disposition is_same_revision is_same_list worker_count transformation_started
    is_unsupported_source
conflict_published e = ground arith

run_conflict_ends_saves_example :
    length
      (run two_files
        (run two_files (start two_files) with_conflict)
        (sections 17 1 none)).shared.saves
    ≤ length (run two_files (start two_files) with_conflict).shared.saves + 1
run_conflict_ends_saves_example =
    run_conflict_ends_saves two_files with_conflict (sections 17 1 none) conflict_published

run_sections_end_example :
    (run two_files (start two_files) (both ++ worker 0 (answers none) ∷ [])
      ≡ run two_files (start two_files) both)
    ⊎ (measure two_files (run two_files (start two_files) (both ++ worker 0 (answers none) ∷ []))
        < measure two_files (run two_files (start two_files) both))
run_sections_end_example = run_sections_end two_files both 0 (answers none)

-- Both workers take a file and come to the wait.
abbrev both_wait : List Event
both_wait = sections 4 0 none ++ sections 4 1 none

both_wait-IsIdle : All IsIdle (run two_files (start two_files) both_wait).workers
unfolding run start handle_event run_section take_index observe_conflict check_plan check_file
    estimate worker_count
both_wait-IsIdle = (inl refl, (inl refl, tt))

abbrev waiter : Worker
waiter = record new_worker { stage = waiting; index = 0; file = turned; charge = 800 }

run_admits_last_example :
    ((run two_files (start two_files) both_wait).shared.reserved_memory_bytes ≡ 0)
    × ((run two_files (start two_files) both_wait).shared.is_commit_mutex_held ≡ false)
    × IsAdmission waiter (
        await_memory two_files
          (replied 5000)
          (run two_files (start two_files) both_wait).shared
          waiter)
run_admits_last_example = run_admits_last two_files both_wait waiter 5000 both_wait-IsIdle

run_completes_example :
    (conclude two_files workers_started (run two_files (start two_files) both)
      ≡ returned (success (summary_of two_files (run two_files (start two_files) both))))
    × IsComplete two_files (summary_of two_files (run two_files (start two_files) both))
run_completes_example = run_completes two_files both two_workers both_end both_well

run_saves-IsNeeded_example :
    All (IsNeeded two_files) (run two_files (start two_files) both).shared.saves
run_saves-IsNeeded_example = run_saves-IsNeeded two_files both
