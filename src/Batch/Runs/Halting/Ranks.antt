-- ===== src/Batch/Runs/Halting/Ranks.antt =====
-- How a move lowers the rank of its worker.
use jpg_spinner.Batch.Runs.Accounting.{get_elem?_lt}
use jpg_spinner.Batch.Sections.Stages.{
  rank, Passes-InFront, PassesUnopposed-InFront, MayRefuse-InFront, MayThrow-InFront,
}
use jpg_spinner.Batch.Runs.{State}
use jpg_spinner.Batch.State.{Stage, Worker, Shared}
use jpg_spinner.Batch.Sections.Moves.{
  approves, finds_no_conflict, IsBlocked, Move, stays, leaves, takes, passes, needs_nothing,
  estimates, admits, refuses, throws, locks, saved, save_refused, save_threw, stops, returns,
  unwinds_bad_alloc, unwinds, counts, releases, releases_failed, fails, ends,
}
use jpg_spinner.Batch.Admission.{Ending, record_error}
use jpg_spinner.Batch.Sections.{count_file, release_memory}
use jpg_spinner.Batch.Files.{AnalyzedImageBatch}
use jpg_spinner.Prelude.{ℕ, ◌+◌, ◌*◌, ◌-◌, ◌≡◌, ◌≤◌, ◌<◌, refl, arith, total, length, ◌⊎◌, inl, inr}

abbrev pub rank_of : Worker → ℕ
rank_of w = rank w.stage

-- A bound on the sections that are still to be run.
abbrev pub measure : AnalyzedImageBatch → State → ℕ
measure batch s = total rank_of s.workers + 17 * (length batch.files - s.shared.next_index)

module _ (batch : AnalyzedImageBatch) (sh : Shared) (w : Worker) where
  pub rank_along :
      {st : Stage} {o : Ending}
      → w.stage ≡ st
      → sh.next_index ≤ length batch.files
      → Move batch sh w st o
      → (IsBlocked batch sh w st × (o ≡ (sh, w)))
        ⊎ (rank o.1.stage + 17 * (length batch.files - o.0.next_index)
            < rank st + 17 * (length batch.files - sh.next_index))
  unfolding record_error count_file release_memory
  rank_along q b (stays r) = inl (r, refl)
  rank_along q b (leaves e) = inr (ground arith)
  rank_along q b (takes e) = inr (ground (arith, get_elem?_lt batch.files sh.next_index e))
  rank_along q b (passes p) = inr (ground (arith, Passes-InFront p))
  rank_along q b (approves n t) = inr (ground arith)
  rank_along q b (finds_no_conflict u e) = inr (ground (arith, PassesUnopposed-InFront u))
  rank_along q b needs_nothing = inr (ground arith)
  rank_along q b (estimates bytes l) = inr (ground arith)
  rank_along q b (admits headroom e) = inr (ground arith)
  rank_along q b (refuses m error entered) = inr (ground (arith, MayRefuse-InFront m))
  rank_along q b (throws m f) = inr (ground (arith, MayThrow-InFront m))
  rank_along q b (locks e) = inr (ground arith)
  rank_along q b saved = inr (ground arith)
  rank_along q b (save_refused error) = inr (ground arith)
  rank_along q b (save_threw f) = inr (ground arith)
  rank_along q b stops = inr (ground arith)
  rank_along q b returns = inr (ground arith)
  rank_along q b unwinds_bad_alloc = inr (ground arith)
  rank_along q b unwinds = inr (ground arith)
  rank_along q b (counts f) = inr (ground arith)
  rank_along q b releases = inr (ground arith)
  rank_along q b releases_failed = inr (ground arith)
  rank_along q b fails = inr (ground arith)
  rank_along q b ends = inr (ground arith)
