-- ===== src/Batch/Runs/Needed.antt =====
-- Which files are saved: the ones that the analysis left without an error and that need a transform.
use jpg_spinner.Domain.Geometry.{is_identity}
use jpg_spinner.Batch.State.{
  Stage, taking, begun, unopposed, committing, stopping, returning, unwinding_bad_alloc, unwinding,
  counting, releasing, releasing_failed, failing, ending, exited, Worker, Shared,
}
use jpg_spinner.Batch.Sections.Moves.{
  PassesUnopposed, finds_no_conflict, unopposed_start, unopposed_save, Passes, approves,
  same_revision, before_transform, has_output, before_boundary, before_save, Move, stays, leaves,
  takes, passes, needs_nothing, estimates, admits, refuses, throws, locks, saved, save_refused,
  save_threw, stops, returns, unwinds_bad_alloc, unwinds, counts, releases, releases_failed, fails,
  ends,
}
use jpg_spinner.Batch.Admission.{Ending, record_error}
use jpg_spinner.Batch.Sections.{count_file, release_memory}
use jpg_spinner.Batch.Files.{AnalyzedImageBatch, BatchFileAnalysis}
use jpg_spinner.Prelude.{ℕ, ◌≡◌, refl, false, arith, none, some, List, get_elem?, ◌⊎◌, inl, inr}
use jpg_spinner.Batch.Runs.{State, Event, run, start, worker_count}
use jpg_spinner.Batch.Runs.Invariants.{run_keeps, new_workers-All}
use jpg_spinner.Prelude.{All, All-get_elem?, All-set_at}
use jpg_spinner.Batch.Sections.Stages.{has_file, MayRefuse-InFront, MayThrow-InFront}

-- One for a stage behind the checks of the file and in front of its save.
abbrev is_checked : Stage → ℕ
is_checked taking = 0
is_checked begun = 0
is_checked unopposed = 0
is_checked stopping = 0
is_checked returning = 0
is_checked unwinding_bad_alloc = 0
is_checked unwinding = 0
is_checked counting = 0
is_checked releasing = 0
is_checked releasing_failed = 0
is_checked failing = 0
is_checked ending = 0
is_checked exited = 0
is_checked _ = 1

-- The file has no error, and its plan has a transform.
abbrev pub NeedsTransform : BatchFileAnalysis → Type 0
NeedsTransform file = (file.error ≡ none) × (is_identity file.transform ≡ false)

-- A worker's file is the one with its index, and behind the checks it needs a transform.
abbrev IsCheckedAt : AnalyzedImageBatch → Stage → Worker → Type 0
IsCheckedAt batch st w =
    ((has_file st ≡ 0) ⊎ (get_elem? batch.files w.index ≡ some w.file))
    × ((is_checked st ≡ 0) ⊎ NeedsTransform w.file)

abbrev IsChecked : AnalyzedImageBatch → Worker → Type 0
IsChecked batch w = IsCheckedAt batch w.stage w

-- The number is that of a file that needs a transform.
abbrev pub IsNeeded : AnalyzedImageBatch → ℕ → Type 0
IsNeeded batch i =
    (file : BatchFileAnalysis) × (get_elem? batch.files i ≡ some file) × NeedsTransform file

Passes-is_checked : {st next : Stage} → Passes st next → (is_checked st ≡ 1) × (has_file st ≡ 1)
Passes-is_checked same_revision = (refl, refl)
Passes-is_checked before_transform = (refl, refl)
Passes-is_checked has_output = (refl, refl)
Passes-is_checked before_boundary = (refl, refl)
Passes-is_checked before_save = (refl, refl)

PassesUnopposed-is_checked :
    {st next : Stage}
    → PassesUnopposed st next
    → (is_checked next ≡ is_checked st) × (has_file st ≡ 1)
PassesUnopposed-is_checked unopposed_start = (refl, refl)
PassesUnopposed-is_checked unopposed_save = (refl, refl)

checked-IsNeeded :
    (batch : AnalyzedImageBatch) (w : Worker)
    → IsCheckedAt batch committing w
    → IsNeeded batch w.index
checked-IsNeeded batch w (inr e, inr c) = (w.file, e, c)
checked-IsNeeded batch w (inl z, c) = absurd (omega (arith, z))
checked-IsNeeded batch w (inr e, inl z) = absurd (omega (arith, z))

module _ (batch : AnalyzedImageBatch) (sh : Shared) (w : Worker) where
  checked_along :
      {st : Stage} {o : Ending}
      → w.stage ≡ st
      → Move batch sh w st o
      → IsCheckedAt batch st w
      → IsCheckedAt batch o.1.stage o.1
  unfolding record_error count_file release_memory
  checked_along q (stays b) h = ground arith
  checked_along q (leaves e) h = ground arith
  checked_along q (takes e) h = (inr e, inl refl)
  checked_along q (passes p) h = ground (arith, Passes-is_checked p)
  checked_along q (approves n t) h = (h.0, inr (n, t))
  checked_along q (finds_no_conflict u e) h = ground (arith, PassesUnopposed-is_checked u)
  checked_along q needs_nothing h = ground arith
  checked_along q (estimates bytes l) h = ground arith
  checked_along q (admits headroom e) h = ground arith
  checked_along q (refuses m error entered) h = ground (arith, MayRefuse-InFront m)
  checked_along q (throws m b) h = ground (arith, MayThrow-InFront m)
  checked_along q (locks e) h = ground arith
  checked_along q saved h = ground arith
  checked_along q (save_refused error) h = ground arith
  checked_along q (save_threw b) h = ground arith
  checked_along q stops h = ground arith
  checked_along q returns h = ground arith
  checked_along q unwinds_bad_alloc h = ground arith
  checked_along q unwinds h = ground arith
  checked_along q (counts b) h = ground arith
  checked_along q releases h = ground arith
  checked_along q releases_failed h = ground arith
  checked_along q fails h = ground arith
  checked_along q ends h = ground arith

  saves_along :
      {st : Stage} {o : Ending}
      → w.stage ≡ st
      → Move batch sh w st o
      → IsCheckedAt batch st w
      → All (IsNeeded batch) sh.saves
      → All (IsNeeded batch) o.0.saves
  unfolding record_error count_file release_memory
  saves_along q (stays b) c h = h
  saves_along q (leaves e) c h = h
  saves_along q (takes e) c h = h
  saves_along q (passes p) c h = h
  saves_along q (approves n t) c h = h
  saves_along q (finds_no_conflict u e) c h = h
  saves_along q needs_nothing c h = h
  saves_along q (estimates bytes l) c h = h
  saves_along q (admits headroom e) c h = h
  saves_along q (refuses m error entered) c h = h
  saves_along q (throws m b) c h = h
  saves_along q (locks e) c h = h
  saves_along q saved c h = (checked-IsNeeded batch w c, h)
  saves_along q (save_refused error) c h = (checked-IsNeeded batch w c, h)
  saves_along q (save_threw b) c h = (checked-IsNeeded batch w c, h)
  saves_along q stops c h = h
  saves_along q returns c h = h
  saves_along q unwinds_bad_alloc c h = h
  saves_along q unwinds c h = h
  saves_along q (counts b) c h = h
  saves_along q releases c h = h
  saves_along q releases_failed c h = h
  saves_along q fails c h = h
  saves_along q ends c h = h

record IsCalledFor (batch : AnalyzedImageBatch) (s : State) : Type 0 where
  checked : All (IsChecked batch) s.workers
  needed : All (IsNeeded batch) s.shared.saves

-- In every interleaving, every file for which `commit` was called is one that the analysis left without an error
-- and whose plan has a transform.
pub run_saves-IsNeeded :
    (batch : AnalyzedImageBatch) (es : List Event)
    → All (IsNeeded batch) (run batch (start batch) es).shared.saves
unfolding start
run_saves-IsNeeded batch es =
    (run_keeps batch (IsCalledFor batch) (λ s h. record { checked = h.checked; needed = h.needed })
      (λ s k w o h e m.
        let own = All-get_elem? (IsChecked batch) s.workers k h.checked e in
        record {
          checked =
              All-set_at (IsChecked batch) s.workers k o.1 h.checked
                (checked_along batch s.shared w refl m own);
          needed = saves_along batch s.shared w refl m own h.needed;
        })
      (start batch) es
      record {
        checked = new_workers-All (IsChecked batch) (worker_count batch) (inl refl, inl refl);
        needed = tt;
      }).needed
