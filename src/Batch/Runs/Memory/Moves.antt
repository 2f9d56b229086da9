-- ===== src/Batch/Runs/Memory/Moves.antt =====
-- How a move changes what is reserved and who holds the mutex of the saves.
use jpg_spinner.Batch.Sections.Shapes.{Shape}
use jpg_spinner.Batch.State.{Stage, Worker, Shared}
use jpg_spinner.Batch.Sections.Moves.{
  approves, finds_no_conflict, Move, stays, leaves, takes, passes, needs_nothing, estimates, admits,
  refuses, throws, locks, saved, save_refused, save_threw, stops, returns, unwinds_bad_alloc,
  unwinds, counts, releases, releases_failed, fails, ends,
}
use jpg_spinner.Batch.Admission.{Ending, record_error, is_admitted, admission_budget, at_least_one}
use jpg_spinner.Batch.Sections.{count_file, release_memory}
use jpg_spinner.Batch.Files.{AnalyzedImageBatch}
use jpg_spinner.Prelude.{
  ℕ, ◌+◌, ◌≡◌, ◌≤◌, refl, Bool, true, false, arith, some, ◌==◌, if◌then◌else◌, ◌⊎◌, inl, inr,
}

abbrev pub weight : Bool → ℕ
weight true = 1
weight false = 0

abbrev pub reservation_of : Worker → ℕ
reservation_of w = w.reservation

abbrev pub guard_of : Worker → ℕ
guard_of w = weight w.has_commit_guard

-- One for a worker that holds a reservation.
abbrev pub is_reserving : Worker → ℕ
is_reserving w = if w.reservation == 0 then 0 else 1

admitted_within :
    (limit headroom reserved charge : ℕ)
    → is_admitted reserved charge (admission_budget (some limit) headroom) ≡ true
    → (reserved ≡ 0) ⊎ (reserved + charge ≤ at_least_one limit)
admitted_within limit headroom reserved charge h = ground arith

module _ (batch : AnalyzedImageBatch) (sh : Shared) (w : Worker) where
  pub reservation_along :
      {st : Stage} {o : Ending}
      → Shape st w
      → w.reservation ≤ sh.reserved_memory_bytes
      → Move batch sh w st o
      → o.0.reserved_memory_bytes + w.reservation ≡ sh.reserved_memory_bytes + o.1.reservation
  unfolding record_error count_file release_memory
  reservation_along h l (stays b) = refl
  reservation_along h l (leaves e) = refl
  reservation_along h l (takes e) = ground arith
  reservation_along h l (passes p) = refl
  reservation_along h l (approves n t) = refl
  reservation_along h l (finds_no_conflict p e) = refl
  reservation_along h l needs_nothing = refl
  reservation_along h l (estimates bytes e) = refl
  reservation_along h l (admits headroom e) = ground arith
  reservation_along h l (refuses m error entered) = refl
  reservation_along h l (throws m b) = refl
  reservation_along h l (locks e) = refl
  reservation_along h l saved = refl
  reservation_along h l (save_refused error) = refl
  reservation_along h l (save_threw b) = refl
  reservation_along h l stops = refl
  reservation_along h l returns = refl
  reservation_along h l unwinds_bad_alloc = refl
  reservation_along h l unwinds = refl
  reservation_along h l (counts b) = refl
  reservation_along h l releases = ground arith
  reservation_along h l releases_failed = ground arith
  reservation_along h l fails = refl
  reservation_along h l ends = refl

  pub guard_along :
      {st : Stage} {o : Ending}
      → Shape st w
      → weight w.has_commit_guard ≤ weight sh.is_commit_mutex_held
      → Move batch sh w st o
      → weight o.0.is_commit_mutex_held + weight w.has_commit_guard
        ≡ weight sh.is_commit_mutex_held + weight o.1.has_commit_guard
  unfolding record_error count_file release_memory
  guard_along h l (stays b) = refl
  guard_along h l (leaves e) = refl
  guard_along h l (takes e) = ground arith
  guard_along h l (passes p) = refl
  guard_along h l (approves n t) = refl
  guard_along h l (finds_no_conflict p e) = refl
  guard_along h l needs_nothing = refl
  guard_along h l (estimates bytes e) = refl
  guard_along h l (admits headroom e) = refl
  guard_along h l (refuses m error entered) = refl
  guard_along h l (throws m b) = refl
  guard_along h l (locks e) = ground arith
  guard_along h l saved = refl
  guard_along h l (save_refused error) = refl
  guard_along h l (save_threw b) = refl
  guard_along h l stops = refl
  guard_along h l returns = ground arith
  guard_along h l unwinds_bad_alloc = ground arith
  guard_along h l unwinds = ground arith
  guard_along h l (counts b) = refl
  guard_along h l releases = refl
  guard_along h l releases_failed = refl
  guard_along h l fails = refl
  guard_along h l ends = refl

  pub bound_along :
      (limit : ℕ) {st : Stage} {o : Ending}
      → batch.execution_limits.estimated_working_memory_budget_bytes ≡ some limit
      → Shape st w
      → Move batch sh w st o
      → ((o.0.reserved_memory_bytes ≤ sh.reserved_memory_bytes)
          × (is_reserving o.1 ≤ is_reserving w))
        ⊎ ((sh.reserved_memory_bytes ≡ 0) ⊎ (o.0.reserved_memory_bytes ≤ at_least_one limit))
  unfolding record_error count_file release_memory
  bound_along limit q h (stays b) = inl (ground arith)
  bound_along limit q h (leaves e) = inl (ground arith)
  bound_along limit q h (takes e) = inl (ground arith)
  bound_along limit q h (passes p) = inl (ground arith)
  bound_along limit q h (approves n t) = inl (ground arith)
  bound_along limit q h (finds_no_conflict p e) = inl (ground arith)
  bound_along limit q h needs_nothing = inl (ground arith)
  bound_along limit q h (estimates bytes e) = inl (ground arith)
  bound_along limit q h (admits headroom e) =
      inr (admitted_within limit headroom sh.reserved_memory_bytes w.charge (rw q at e))
  bound_along limit q h (refuses m error entered) = inl (ground arith)
  bound_along limit q h (throws m b) = inl (ground arith)
  bound_along limit q h (locks e) = inl (ground arith)
  bound_along limit q h saved = inl (ground arith)
  bound_along limit q h (save_refused error) = inl (ground arith)
  bound_along limit q h (save_threw b) = inl (ground arith)
  bound_along limit q h stops = inl (ground arith)
  bound_along limit q h returns = inl (ground arith)
  bound_along limit q h unwinds_bad_alloc = inl (ground arith)
  bound_along limit q h unwinds = inl (ground arith)
  bound_along limit q h (counts b) = inl (ground arith)
  bound_along limit q h releases = inl (ground arith)
  bound_along limit q h releases_failed = inl (ground arith)
  bound_along limit q h fails = inl (ground arith)
  bound_along limit q h ends = inl (ground arith)
