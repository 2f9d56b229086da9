-- ===== src/Batch/Conclusion.antt =====
-- BatchProcessingCoordinator::execute: what it returns once its workers are joined.
pub mod Rows
pub mod Complete
use jpg_spinner.Batch.Runs.{State, worker_count}
use jpg_spinner.Batch.State.{Row}
use jpg_spinner.Batch.Files.{
  BatchFileProcessingResult, cancelled_before_transformation, BatchProcessingProgress,
  AnalyzedImageBatch,
}
use jpg_spinner.Domain.Failure.{
  ImageProcessingError, ImageProcessingResult, success, failure, plain_error, error_code,
  windows_hresult, NativeErrorProjection, execution_state, not_started,
  working_memory_allocation_failed, coefficient_transformation_failed, coefficient_transformation,
}
use jpg_spinner.Prelude.{ℕ, zero, suc, ◌+◌, Bool, List, [], ◌∷◌, none, length, ◌==◌, if◌then◌else◌}

-- How the rows and the threads were made: `thread_failed` carries the code of the system error, `apartment_failed` the
-- HRESULT of the workers' initialization.
pub data Startup : Type 0 where
  workers_started rows_out_of_memory threads_out_of_memory : Startup
  thread_failed apartment_failed : ℕ → Startup

pub record BatchProcessingSummary : Type 0 where
  pub file_results : List BatchFileProcessingResult
  pub final_progress : BatchProcessingProgress
  pub transaction_integrity_uncertain : Bool

pub data Conclusion : Type 0 where
  returned : ImageProcessingResult BatchProcessingSummary → Conclusion
  rethrown : Conclusion

-- The row with the index, as it was allocated when no worker has counted the file.
abbrev pub row_of : List Row → ℕ → BatchFileProcessingResult
row_of [] i = record { outcome = cancelled_before_transformation; error = none }
row_of (r ∷ rows) i = let rest = row_of rows i in if r.index == i then r.result else rest

-- The rows of `n` files from the index on, in the order of the files.
abbrev pub results_from : List Row → ℕ → ℕ → List BatchFileProcessingResult
results_from rows i zero = []
results_from rows i (suc n) = row_of rows i ∷ results_from rows (i + 1) n

abbrev pub summary_of : AnalyzedImageBatch → State → BatchProcessingSummary
summary_of batch s = record {
  file_results = results_from s.shared.rows 0 (length batch.files);
  final_progress = s.shared.progress;
  transaction_integrity_uncertain = s.shared.transaction_integrity_uncertain;
}

abbrev startup_error : NativeErrorProjection → ImageProcessingError
startup_error native = record {
  code = coefficient_transformation_failed;
  stage = coefficient_transformation;
  native_error_projection = native;
  diagnostic_context = execution_state not_started;
}

abbrev out_of_memory_error : ImageProcessingError
out_of_memory_error = plain_error working_memory_allocation_failed coefficient_transformation

-- The result when the workers are joined; a single worker is the caller's thread and needs no start.
unfoldable pub conclude : AnalyzedImageBatch → Startup → State → Conclusion
conclude batch rows_out_of_memory s = returned (failure out_of_memory_error)
conclude batch startup s =
    let finished =
      if s.shared.has_worker_failure then rethrown else returned (success (summary_of batch s)) in
    if worker_count batch == 0
    then returned (success (summary_of batch s))
    else if worker_count batch == 1
    then finished
    else elim startup [
      | thread_failed code ↦ returned (failure (startup_error (error_code code)))
      | threads_out_of_memory ↦ returned (failure out_of_memory_error)
      | apartment_failed result ↦ returned (failure (startup_error (windows_hresult result)))
      | _ ↦ finished
    ]
