-- ===== src/Batch/Sections/Shapes.antt =====
-- What a worker holds at each stage.
use jpg_spinner.Batch.State.{
  Stage, taking, begun, unopposed, estimating, waiting, capturing, captured, transforming,
  transformed, locking, locked, cleared, committing, stopping, returning, unwinding_bad_alloc,
  unwinding, counting, releasing, releasing_failed, failing, ending, exited, Worker, Shared,
}
use jpg_spinner.Batch.Sections.Moves.{
  PassesUnopposed, finds_no_conflict, Passes, unopposed_start, approves, same_revision,
  before_transform, has_output, before_boundary, unopposed_save, before_save, Move, stays, leaves,
  takes, passes, needs_nothing, estimates, admits, refuses, throws, locks, saved, save_refused,
  save_threw, stops, returns, unwinds_bad_alloc, unwinds, counts, releases, releases_failed, fails,
  ends, called,
}
use jpg_spinner.Batch.Admission.{at, Ending, record_error, unwind}
use jpg_spinner.Batch.Sections.{count_file, release_memory}
use jpg_spinner.Batch.Files.{AnalyzedImageBatch, is_recovery_conflict}
use jpg_spinner.Domain.Failure.{ImageProcessingError}
use jpg_spinner.Prelude.{◌≡◌, ◌≤◌, refl, Bool, true, false, if_both}

-- Nothing is held.
abbrev pub IsFree : Worker → Type 0
IsFree w = (w.reservation ≡ 0) × (w.has_commit_guard ≡ false)

-- A reservation of at least one byte, and the mutex as `guarded` says.
abbrev pub Holds : Bool → Worker → Type 0
Holds guarded w = (1 ≤ w.reservation) × (w.has_commit_guard ≡ guarded)

-- The stages in front of the admission hold nothing, those behind it a reservation, and those from the boundary of
-- the saves to the end of the call the mutex.
abbrev pub Shape : Stage → Worker → Type 0
Shape taking w = IsFree w
Shape begun w = IsFree w
Shape unopposed w = IsFree w
Shape estimating w = IsFree w
Shape waiting w = (w.reservation ≡ 0) × (w.has_commit_guard ≡ false) × (1 ≤ w.charge)
Shape capturing w = Holds false w
Shape captured w = Holds false w
Shape transforming w = Holds false w
Shape transformed w = Holds false w
Shape locking w = Holds false w
Shape locked w = Holds true w
Shape cleared w = Holds true w
Shape committing w = Holds true w
Shape stopping w = Unit
Shape returning w = Unit
Shape unwinding_bad_alloc w = Unit
Shape unwinding w = Unit
Shape counting w = w.has_commit_guard ≡ false
Shape releasing w = w.has_commit_guard ≡ false
Shape releasing_failed w = w.has_commit_guard ≡ false
Shape failing w = IsFree w
Shape ending w = IsFree w
Shape exited w = IsFree w

abbrev pub Shaped : Ending → Type 0
Shaped r = Shape r.1.stage r.1

Shape-eq : (a b : Stage) (w : Worker) → a ≡ b → Shape b w → Shape a w
Shape-eq a b w e h = rw e h

module _ (batch : AnalyzedImageBatch) (sh : Shared) (w : Worker) where
  Passes-Shape : {st next : Stage} → Passes st next → Shape st w → Shape next (at next w)
  Passes-Shape same_revision h = h
  Passes-Shape before_transform h = h
  Passes-Shape has_output h = h
  Passes-Shape before_boundary h = h
  Passes-Shape before_save h = h

  PassesUnopposed-Shape :
      {st next : Stage} → PassesUnopposed st next → Shape st w → Shape next (at next w)
  PassesUnopposed-Shape unopposed_start h = h
  PassesUnopposed-Shape unopposed_save h = h

  record_error-Shaped :
      (error : ImageProcessingError) (entered : Bool) (s : Shared)
      → Shaped (record_error error entered s w)
  unfolding record_error
  record_error-Shaped error entered s =
      if_both (λ st. Shape st (record_error error entered s w).1) (is_recovery_conflict error.code)
        (λ e. tt) (λ e. tt)

  unwind-Shaped : (b : Bool) (s : Shared) → Shaped (unwind b s w)
  unwind-Shaped true s = tt
  unwind-Shaped false s = tt

  -- A section that starts in its stage's shape ends in the shape of the next one.
  pub Move-Shaped :
      {st : Stage} {o : Ending} → Shape st w → Move batch sh w st o → w.stage ≡ st → Shaped o
  unfolding count_file release_memory record_error
  Move-Shaped {st} h (stays b) e = Shape-eq w.stage st w e h
  Move-Shaped h (leaves e) q = h
  Move-Shaped h (takes e) q = (refl, refl)
  Move-Shaped h (passes p) q = Passes-Shape p h
  Move-Shaped h (approves n t) q = h
  Move-Shaped h (finds_no_conflict p e) q = PassesUnopposed-Shape p h
  Move-Shaped h needs_nothing q = tt
  Move-Shaped h (estimates bytes l) q = (h.0, h.1, l)
  Move-Shaped h (admits headroom e) q = (h.2, h.1)
  Move-Shaped h (refuses m error entered) q = record_error-Shaped error entered sh
  Move-Shaped h (throws m b) q = unwind-Shaped b sh
  Move-Shaped h (locks e) q = (h.0, refl)
  Move-Shaped h saved q = tt
  Move-Shaped h (save_refused error) q = record_error-Shaped error true (called sh w)
  Move-Shaped h (save_threw b) q = unwind-Shaped b (called sh w)
  Move-Shaped h stops q = tt
  Move-Shaped h returns q = refl
  Move-Shaped h unwinds_bad_alloc q = refl
  Move-Shaped h unwinds q = refl
  Move-Shaped h (counts true) q = h
  Move-Shaped h (counts false) q = h
  Move-Shaped h releases q = (refl, h)
  Move-Shaped h releases_failed q = (refl, h)
  Move-Shaped h fails q = h
  Move-Shaped h ends q = h
