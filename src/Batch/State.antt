-- ===== src/Batch/State.antt =====
-- BatchProcessingCoordinator::execute: what its workers share, what each one holds, and what the code that it calls
-- may answer.
use jpg_spinner.Batch.Files.{BatchFileAnalysis, BatchFileProcessingResult, BatchProcessingProgress}
use jpg_spinner.Domain.Failure.{ImageProcessingError, ImageProcessingResult}
use jpg_spinner.Prelude.{ℕ, Bool, List, Option}
use jpg_spinner.Storage.Records.{SourceFileRevision}

-- Where a worker is in the loop over the files.
pub data Stage : Type 0 where
  taking begun unopposed estimating waiting capturing captured transforming transformed : Stage
  locking locked cleared committing : Stage
  stopping returning unwinding_bad_alloc unwinding counting : Stage
  releasing releasing_failed failing ending exited : Stage

-- `reservation` is the destructor's `bytes`, `has_commit_guard` tells that `commitGuard` is alive, and `terminal` is
-- the row of the file with the index.
pub record Worker : Type 0 where
  pub stage : Stage
  pub index : ℕ
  pub file : BatchFileAnalysis
  pub charge : ℕ
  pub reservation : ℕ
  pub has_commit_guard : Bool
  pub terminal : BatchFileProcessingResult

pub record Row : Type 0 where
  pub index : ℕ
  pub result : BatchFileProcessingResult

-- `rows` are the rows of the counted files, the last counted first; `unfinished` the files whose processing
-- threw; `saves` the files whose `commit` was called. `has_worker_failure` tells that `workerFailure` is set.
pub record Shared : Type 0 where
  pub next_index : ℕ
  pub reserved_memory_bytes : ℕ
  pub is_commit_mutex_held : Bool
  pub is_stop_requested : Bool
  pub integrity_failure : Option ImageProcessingError
  pub transaction_integrity_uncertain : Bool
  pub has_worker_failure : Bool
  pub progress : BatchProcessingProgress
  pub rows : List Row
  pub unfinished : List ℕ
  pub saves : List ℕ

-- How a call ends; a call whose value is of no concern replies with its error, if there is one.
pub data Reply {ℓ} (A : Type ℓ) : Type ℓ where
  replied : A → Reply A
  threw_bad_alloc threw : Reply A

-- What the code outside of the coordinator does when a section calls it.
pub record Answers : Type 0 where
  pub estimated_working_memory_bytes : Reply ℕ
  pub working_memory_budget : Reply ℕ
  pub capture : Reply (ImageProcessingResult SourceFileRevision)
  pub create_validated_output : Reply (Option ImageProcessingError)
  pub commit : Reply (Option ImageProcessingError)
  pub observer_throws : Bool
