-- ===== src/Batch/Sections/Moves/Complete.antt =====
-- Every section of a worker ends in one of the moves.
use jpg_spinner.Batch.Sections.Moves.{
  PassesUnopposed, finds_no_conflict, Passes, unopposed_start, approves, same_revision,
  before_transform, has_output, before_boundary, unopposed_save, before_save, MayRefuse, at_begun,
  at_unopposed, at_waiting, at_capturing, at_captured, at_transforming, at_transformed, at_locked,
  at_cleared, throws_estimating, throws_waiting, throws_capturing, throws_transforming, on_memory,
  on_mutex, past_files, at_exit, first_section, Move, stays, leaves, takes, passes, needs_nothing,
  estimates, admits, refuses, throws, locks, saved, save_refused, save_threw, stops, returns,
  unwinds_bad_alloc, unwinds, counts, releases, releases_failed, fails, ends,
}
use jpg_spinner.Batch.Admission.{
  at, Ending, at_least_one, record_error, admission_budget, is_admitted, transformation_started,
  take_index, observe_conflict, observe_stop, check_plan, check_file, estimate, await_memory,
}
use jpg_spinner.Batch.Sections.{capture_source, create_output, lock_commit, save, run_section}
use jpg_spinner.Batch.State.{
  Stage, taking, begun, unopposed, estimating, waiting, capturing, captured, transforming,
  transformed, locking, locked, cleared, committing, stopping, returning, unwinding_bad_alloc,
  unwinding, counting, releasing, releasing_failed, failing, ending, exited, Worker, Shared, Reply,
  replied, threw_bad_alloc, threw, Answers,
}
use jpg_spinner.Batch.Files.{BatchFileAnalysis, AnalyzedImageBatch, is_same_revision}
use jpg_spinner.Domain.Geometry.{is_identity}
use jpg_spinner.Domain.Failure.{
  cancelled, source_revision_capture, source_changed_after_analysis, source_revision_revalidation,
  output_validation, ImageProcessingError, ImageProcessingResult, success, failure, plain_error,
  coefficient_transformation,
}
use jpg_spinner.Prelude.{
  ℕ, ◌+◌, ◌≡◌, refl, Bool, true, false, not, ◌||◌, Option, none, some, length, get_elem?, ◌==◌,
  if_both, arith,
}
use jpg_spinner.Storage.Records.{SourceFileRevision}

module _ (batch : AnalyzedImageBatch) (sh : Shared) (w : Worker) where
  abbrev M : Stage → Ending → Type 0
  M = Move batch sh w

  take_index-Move : M taking (take_index batch sh w)
  unfolding take_index
  take_index-Move =
      if_both (M taking) (sh.next_index == length batch.files) (λ e. leaves (ground arith))
        (λ e. go e (get_elem? batch.files sh.next_index) refl)
    where
      go :
          (sh.next_index == length batch.files) ≡ false
          → (f : Option BatchFileAnalysis) → get_elem? batch.files sh.next_index ≡ f
          → M taking (elim f [
            | none ↦ (sh, w)
            | some file ↦ (record sh { next_index = sh.next_index + 1 }, first_section sh file)
          ])
      go e none q = stays (past_files e q)
      go e (some file) q = takes q

  observe_conflict-Move :
      (entered : Bool) {st next : Stage}
      → PassesUnopposed st next
      → MayRefuse st
      → M st (observe_conflict entered next sh w)
  unfolding observe_conflict
  observe_conflict-Move entered {st} {next} p r = go sh.integrity_failure refl
    where
      go :
          (f : Option ImageProcessingError)
          → sh.integrity_failure ≡ f
          → M st (elim f [ none ↦ (sh, at next w) | some c ↦ record_error c entered sh w ])
      go none e = finds_no_conflict p e
      go (some c) e = refuses r c entered

  observe_stop-Move :
      (error : ImageProcessingError) (entered : Bool) {st next : Stage}
      → Passes st next
      → MayRefuse st
      → M st (observe_stop error entered next sh w)
  unfolding observe_stop
  observe_stop-Move error entered {st} p r =
      if_both (M st) sh.is_stop_requested (λ e. refuses r error entered) (λ e. passes p)

  check_plan-Move : w.file.error ≡ none → M unopposed (check_plan batch sh w)
  unfolding check_plan
  check_plan-Move e =
      if_both (M unopposed) (sh.is_stop_requested || not batch.is_discovery_complete)
        (λ q. refuses at_unopposed (plain_error cancelled source_revision_capture) false)
        (λ q.
          if_both (M unopposed) (is_identity w.file.transform) (λ t. needs_nothing)
            (λ t. approves e t))

  check_file-Move : M unopposed (check_file batch sh w)
  unfolding check_file
  check_file-Move = go w.file.error refl
    where
      go :
          (f : Option ImageProcessingError)
          → w.file.error ≡ f
          → M unopposed
              (elim f [ some error ↦ record_error error false sh w | none ↦ check_plan batch sh w ])
      go none e = check_plan-Move e
      go (some error) e = refuses at_unopposed error false

  estimate-Move : (r : Reply ℕ) → M estimating (estimate r sh w)
  unfolding estimate
  estimate-Move (replied bytes) = estimates (at_least_one bytes) (ground arith)
  estimate-Move threw_bad_alloc = throws throws_estimating true
  estimate-Move threw = throws throws_estimating false

  give_up-Move :
      (f : Option ImageProcessingError)
      → M waiting (elim f [
        | none ↦ record_error (plain_error cancelled source_revision_capture) false sh w
        | some conflict ↦ record_error conflict false sh w
      ])
  give_up-Move none = refuses at_waiting (plain_error cancelled source_revision_capture) false
  give_up-Move (some conflict) = refuses at_waiting conflict false

  await_memory-Move : (r : Reply ℕ) → M waiting (await_memory batch r sh w)
  unfolding await_memory
  await_memory-Move (replied headroom) =
      let budget =
        admission_budget batch.execution_limits.estimated_working_memory_budget_bytes headroom in
      if_both (M waiting) (is_admitted sh.reserved_memory_bytes w.charge budget) (admits headroom)
        (λ e.
          if_both (M waiting) sh.is_stop_requested (λ q. give_up-Move sh.integrity_failure)
            (λ q. stays (on_memory (ground arith))))
  await_memory-Move threw_bad_alloc = throws throws_waiting true
  await_memory-Move threw = throws throws_waiting false

  capture_source-Move :
      (r : Reply (ImageProcessingResult SourceFileRevision)) → M capturing (capture_source r sh w)
  unfolding capture_source
  capture_source-Move (replied (failure error)) = refuses at_capturing error false
  capture_source-Move (replied (success revision)) =
      if_both (M capturing) (is_same_revision revision w.file.source_revision)
        (λ e. passes same_revision)
        (λ e.
          refuses at_capturing
            (plain_error source_changed_after_analysis source_revision_revalidation) false)
  capture_source-Move threw_bad_alloc = throws throws_capturing true
  capture_source-Move threw = throws throws_capturing false

  create_output-Move :
      (r : Reply (Option ImageProcessingError)) → M transforming (create_output r sh w)
  unfolding create_output
  create_output-Move (replied (some error)) =
      refuses at_transforming error (transformation_started error.diagnostic_context)
  create_output-Move (replied none) = passes has_output
  create_output-Move threw_bad_alloc = throws throws_transforming true
  create_output-Move threw = throws throws_transforming false

  lock_commit-Move : M locking (lock_commit sh w)
  unfolding lock_commit
  lock_commit-Move =
      if_both (M locking) sh.is_commit_mutex_held (λ e. stays (on_mutex e)) (λ e. locks e)

  save-Move : (r : Reply (Option ImageProcessingError)) → M committing (save batch r sh w)
  unfolding save
  save-Move (replied (some error)) = save_refused error
  save-Move (replied none) = saved
  save-Move threw_bad_alloc = save_threw true
  save-Move threw = save_threw false

  -- Every section is one of the moves.
  pub run_section-Move : (st : Stage) (a : Answers) → M st (run_section st batch a sh w)
  unfolding run_section
  run_section-Move taking a = take_index-Move
  run_section-Move begun a = observe_conflict-Move false unopposed_start at_begun
  run_section-Move unopposed a = check_file-Move
  run_section-Move estimating a = estimate-Move a.estimated_working_memory_bytes
  run_section-Move waiting a = await_memory-Move a.working_memory_budget
  run_section-Move capturing a = capture_source-Move a.capture
  run_section-Move captured a =
      observe_stop-Move (plain_error cancelled coefficient_transformation) false before_transform
        at_captured
  run_section-Move transforming a = create_output-Move a.create_validated_output
  run_section-Move transformed a =
      observe_stop-Move (plain_error cancelled output_validation) true before_boundary
        at_transformed
  run_section-Move locking a = lock_commit-Move
  run_section-Move locked a = observe_conflict-Move true unopposed_save at_locked
  run_section-Move cleared a =
      observe_stop-Move (plain_error cancelled output_validation) true before_save at_cleared
  run_section-Move committing a = save-Move a.commit
  run_section-Move stopping a = stops
  run_section-Move returning a = returns
  run_section-Move unwinding_bad_alloc a = unwinds_bad_alloc
  run_section-Move unwinding a = unwinds
  run_section-Move counting a = counts a.observer_throws
  run_section-Move releasing a = releases
  run_section-Move releasing_failed a = releases_failed
  run_section-Move failing a = fails
  run_section-Move ending a = ends
  run_section-Move exited a = stays at_exit
