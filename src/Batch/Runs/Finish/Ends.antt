-- ===== src/Batch/Runs/Finish/Ends.antt =====
-- How a move brings workers to their end.
use jpg_spinner.Batch.Runs.Memory.{weight}
use jpg_spinner.Batch.Sections.Stages.{
  Passes-InFront, PassesUnopposed-InFront, MayRefuse-InFront, MayThrow-InFront,
}
use jpg_spinner.Batch.State.{Stage, releasing_failed, failing, ending, exited, Worker, Shared}
use jpg_spinner.Batch.Sections.Moves.{
  approves, finds_no_conflict, Move, stays, leaves, takes, passes, needs_nothing, estimates, admits,
  refuses, throws, locks, saved, save_refused, save_threw, stops, returns, unwinds_bad_alloc,
  unwinds, counts, releases, releases_failed, fails, ends,
}
use jpg_spinner.Batch.Admission.{Ending, record_error}
use jpg_spinner.Batch.Sections.{count_file, release_memory}
use jpg_spinner.Batch.Files.{AnalyzedImageBatch}
use jpg_spinner.Prelude.{ℕ, ◌+◌, ◌≡◌, ◌≤◌, arith, length, ◌⊎◌, inl, inr}

abbrev pub is_exited : Stage → ℕ
is_exited exited = 1
is_exited _ = 0

abbrev is_ending : Stage → ℕ
is_ending ending = 1
is_ending _ = 0

-- One for a stage on the way from a failure to its publication.
abbrev pub is_failing : Stage → ℕ
is_failing releasing_failed = 1
is_failing failing = 1
is_failing _ = 0

abbrev pub exited_worker : Worker → ℕ
exited_worker w = is_exited w.stage

abbrev pub ending_worker : Worker → ℕ
ending_worker w = is_ending w.stage

abbrev pub failing_worker : Worker → ℕ
failing_worker w = is_failing w.stage

module _ (batch : AnalyzedImageBatch) (sh : Shared) (w : Worker) where
  pub failure_along :
      {st : Stage} {o : Ending}
      → Move batch sh w st o
      → weight sh.has_worker_failure ≤ weight o.0.has_worker_failure
  unfolding record_error count_file release_memory
  failure_along (stays b) = ground arith
  failure_along (leaves e) = ground arith
  failure_along (takes e) = ground arith
  failure_along (passes p) = ground arith
  failure_along (approves n t) = ground arith
  failure_along (finds_no_conflict u e) = ground arith
  failure_along needs_nothing = ground arith
  failure_along (estimates bytes l) = ground arith
  failure_along (admits headroom e) = ground arith
  failure_along (refuses m error entered) = ground arith
  failure_along (throws m b) = ground arith
  failure_along (locks e) = ground arith
  failure_along saved = ground arith
  failure_along (save_refused error) = ground arith
  failure_along (save_threw b) = ground arith
  failure_along stops = ground arith
  failure_along returns = ground arith
  failure_along unwinds_bad_alloc = ground arith
  failure_along unwinds = ground arith
  failure_along (counts b) = ground arith
  failure_along releases = ground arith
  failure_along releases_failed = ground arith
  failure_along fails = ground arith
  failure_along ends = ground arith

  pub exited_along :
      {st : Stage} {o : Ending}
      → w.stage ≡ st
      → Move batch sh w st o
      → (is_exited o.1.stage ≤ is_exited st)
        ⊎ ((sh.next_index ≡ length batch.files) ⊎ (1 ≤ is_ending st))
  unfolding record_error count_file release_memory
  exited_along q (stays b) = inl (ground arith)
  exited_along q (leaves e) = inr (inl e)
  exited_along q (takes e) = inl (ground arith)
  exited_along q (passes p) = inl (ground (arith, Passes-InFront p))
  exited_along q (approves n t) = inl (ground arith)
  exited_along q (finds_no_conflict u e) = inl (ground (arith, PassesUnopposed-InFront u))
  exited_along q needs_nothing = inl (ground arith)
  exited_along q (estimates bytes l) = inl (ground arith)
  exited_along q (admits headroom e) = inl (ground arith)
  exited_along q (refuses m error entered) = inl (ground (arith, MayRefuse-InFront m))
  exited_along q (throws m b) = inl (ground (arith, MayThrow-InFront m))
  exited_along q (locks e) = inl (ground arith)
  exited_along q saved = inl (ground arith)
  exited_along q (save_refused error) = inl (ground arith)
  exited_along q (save_threw b) = inl (ground arith)
  exited_along q stops = inl (ground arith)
  exited_along q returns = inl (ground arith)
  exited_along q unwinds_bad_alloc = inl (ground arith)
  exited_along q unwinds = inl (ground arith)
  exited_along q (counts b) = inl (ground arith)
  exited_along q releases = inl (ground arith)
  exited_along q releases_failed = inl (ground arith)
  exited_along q fails = inl (ground arith)
  exited_along q ends = inr (inr (ground arith))

  pub ending_along :
      {st : Stage} {o : Ending}
      → w.stage ≡ st
      → Move batch sh w st o
      → (is_ending o.1.stage ≤ is_ending st) ⊎ (1 ≤ weight o.0.has_worker_failure)
  unfolding record_error count_file release_memory
  ending_along q (stays b) = inl (ground arith)
  ending_along q (leaves e) = inl (ground arith)
  ending_along q (takes e) = inl (ground arith)
  ending_along q (passes p) = inl (ground (arith, Passes-InFront p))
  ending_along q (approves n t) = inl (ground arith)
  ending_along q (finds_no_conflict u e) = inl (ground (arith, PassesUnopposed-InFront u))
  ending_along q needs_nothing = inl (ground arith)
  ending_along q (estimates bytes l) = inl (ground arith)
  ending_along q (admits headroom e) = inl (ground arith)
  ending_along q (refuses m error entered) = inl (ground (arith, MayRefuse-InFront m))
  ending_along q (throws m b) = inl (ground (arith, MayThrow-InFront m))
  ending_along q (locks e) = inl (ground arith)
  ending_along q saved = inl (ground arith)
  ending_along q (save_refused error) = inl (ground arith)
  ending_along q (save_threw b) = inl (ground arith)
  ending_along q stops = inl (ground arith)
  ending_along q returns = inl (ground arith)
  ending_along q unwinds_bad_alloc = inl (ground arith)
  ending_along q unwinds = inl (ground arith)
  ending_along q (counts b) = inl (ground arith)
  ending_along q releases = inl (ground arith)
  ending_along q releases_failed = inl (ground arith)
  ending_along q fails = inr (ground arith)
  ending_along q ends = inl (ground arith)

  pub failing_along :
      {st : Stage} {o : Ending}
      → w.stage ≡ st
      → Move batch sh w st o
      → ((length o.0.unfinished ≤ length sh.unfinished) × (is_failing st ≤ is_failing o.1.stage))
        ⊎ (1 ≤ is_failing o.1.stage + weight o.0.has_worker_failure)
  unfolding record_error count_file release_memory
  failing_along q (stays b) = inl (ground arith)
  failing_along q (leaves e) = inl (ground arith)
  failing_along q (takes e) = inl (ground arith)
  failing_along q (passes p) = inl (ground (arith, Passes-InFront p))
  failing_along q (approves n t) = inl (ground arith)
  failing_along q (finds_no_conflict u e) = inl (ground (arith, PassesUnopposed-InFront u))
  failing_along q needs_nothing = inl (ground arith)
  failing_along q (estimates bytes l) = inl (ground arith)
  failing_along q (admits headroom e) = inl (ground arith)
  failing_along q (refuses m error entered) = inl (ground (arith, MayRefuse-InFront m))
  failing_along q (throws m b) = inl (ground (arith, MayThrow-InFront m))
  failing_along q (locks e) = inl (ground arith)
  failing_along q saved = inl (ground arith)
  failing_along q (save_refused error) = inl (ground arith)
  failing_along q (save_threw b) = inl (ground arith)
  failing_along q stops = inl (ground arith)
  failing_along q returns = inl (ground arith)
  failing_along q unwinds_bad_alloc = inl (ground arith)
  failing_along q unwinds = inr (ground arith)
  failing_along q (counts b) = inl (ground arith)
  failing_along q releases = inl (ground arith)
  failing_along q releases_failed = inr (ground arith)
  failing_along q fails = inr (ground arith)
  failing_along q ends = inl (ground arith)
