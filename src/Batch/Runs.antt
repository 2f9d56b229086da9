-- ===== src/Batch/Runs.antt =====
-- BatchProcessingCoordinator::execute: its start, the interleavings of its workers and its result. The path with one
-- worker in the caller's thread runs the same sections.
pub mod Invariants
pub mod Memory
pub mod Accounting
pub mod Saves
pub mod Needed
pub mod Halting
pub mod Idle
pub mod Finish
use jpg_spinner.Batch.Sections.{run_section}
use jpg_spinner.Batch.State.{taking, Worker, Shared, Answers}
use jpg_spinner.Batch.Files.{
  cancelled_before_transformation, BatchFileAnalysis, BatchProcessingProgress, BatchExecutionLimits,
  AnalyzedImageBatch, report_progress,
}
use jpg_spinner.Domain.Geometry.{is_identity}
use jpg_spinner.Domain.Failure.{cancelled, source_revision_capture, plain_error}
use jpg_spinner.Domain.Geometry.{LosslessTransform}
use jpg_spinner.Prelude.{
  ℕ, zero, suc, ◌+◌, min, Bool, true, false, Option, none, some, List, [], ◌∷◌, length, get_elem?,
  set_at, if◌then◌else◌,
}

pub record State : Type 0 where
  pub shared : Shared
  pub workers : List Worker

-- A worker's next section with the answers that it gets, or the caller's request to stop.
pub data Event : Type 0 where
  worker : ℕ → Answers → Event
  cancellation : Event

-- The files with an analysis whose plan has a transform.
abbrev pub eligible_files : List BatchFileAnalysis → ℕ
eligible_files [] = 0
eligible_files (file ∷ files) =
    let rest = eligible_files files in
    elim file.error [
      | some error ↦ rest
      | none ↦ if is_identity file.transform then rest else rest + 1
    ]

abbrev initial_progress : AnalyzedImageBatch → BatchProcessingProgress
initial_progress batch = report_progress (record {
  discovered = length batch.files;
  analyzed = batch.analyzed_count;
  eligible = eligible_files batch.files;
  completed = 0;
  failed = 0;
  skipped = 0;
  cancelled_count = 0;
  remaining = 0;
  discovery_complete = batch.is_discovery_complete;
})

unfoldable pub worker_count : AnalyzedImageBatch → ℕ
worker_count batch = min batch.execution_limits.maximum_concurrent_image_count (length batch.files)

-- A worker in front of its first file; the members but for the stage have no meaning yet.
abbrev pub new_worker : Worker
new_worker = record {
  stage = taking;
  index = 0;
  file = record {
    error = none;
    source_revision = record {
      encoded_length_bytes = 0;
      last_write_time_utc = 0;
      encoded_sha256 = [];
    };
    transform = LosslessTransform.none;
  };
  charge = 0;
  reservation = 0;
  has_commit_guard = false;
  terminal = record { outcome = cancelled_before_transformation; error = none };
}

abbrev pub new_workers : ℕ → List Worker
new_workers zero = []
new_workers (suc n) = new_worker ∷ new_workers n

unfoldable pub start : AnalyzedImageBatch → State
start batch = record {
  shared = record {
    next_index = 0;
    reserved_memory_bytes = 0;
    is_commit_mutex_held = false;
    is_stop_requested = false;
    integrity_failure = none;
    transaction_integrity_uncertain = false;
    has_worker_failure = false;
    progress = initial_progress batch;
    rows = [];
    unfinished = [];
    saves = [];
  };
  workers = new_workers (worker_count batch);
}

unfoldable pub handle_event : AnalyzedImageBatch → State → Event → State
handle_event batch s cancellation = record s {
  shared = record s.shared { is_stop_requested = true };
}
handle_event batch s (worker k answers) = elim (get_elem? s.workers k) [
  | none ↦ s
  | some w ↦
      let r = run_section w.stage batch answers s.shared w in
      record { shared = r.0; workers = set_at s.workers k r.1 }
]

-- The state behind a sequence of events, any interleaving of the workers.
unfoldable pub run : AnalyzedImageBatch → State → List Event → State
run batch s [] = s
run batch s (event ∷ events) = run batch (handle_event batch s event) events
