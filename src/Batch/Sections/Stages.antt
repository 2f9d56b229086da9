-- ===== src/Batch/Sections/Stages.antt =====
-- What the proofs count of a stage, and how the moves between stages without an effect change it.
use jpg_spinner.Batch.State.{
  Stage, taking, begun, unopposed, estimating, waiting, capturing, captured, transforming,
  transformed, locking, locked, cleared, committing, stopping, returning, unwinding_bad_alloc,
  unwinding, counting, releasing, releasing_failed, failing, ending, exited,
}
use jpg_spinner.Batch.Sections.Moves.{
  PassesUnopposed, unopposed_start, unopposed_save, Passes, same_revision, before_transform,
  has_output, before_boundary, before_save, MayRefuse, MayThrow, at_begun, at_unopposed, at_waiting,
  at_capturing, at_captured, at_transforming, at_transformed, at_locked, at_cleared,
  throws_estimating, throws_waiting, throws_capturing, throws_transforming,
}
use jpg_spinner.Prelude.{ℕ, ◌≡◌, ◌≤◌, ◌<◌, refl, arith}

-- One for a stage whose worker has a file that is not counted yet.
abbrev pub has_file : Stage → ℕ
has_file taking = 0
has_file releasing = 0
has_file releasing_failed = 0
has_file failing = 0
has_file ending = 0
has_file exited = 0
has_file _ = 1

-- One for a stage whose worker has a file that it may still save.
abbrev pub is_unsaved : Stage → ℕ
is_unsaved begun = 1
is_unsaved unopposed = 1
is_unsaved estimating = 1
is_unsaved waiting = 1
is_unsaved capturing = 1
is_unsaved captured = 1
is_unsaved transforming = 1
is_unsaved transformed = 1
is_unsaved locking = 1
is_unsaved locked = 1
is_unsaved cleared = 1
is_unsaved committing = 1
is_unsaved _ = 0

-- One for a stage between the last check for a conflict and the save.
abbrev pub is_past_check : Stage → ℕ
is_past_check cleared = 1
is_past_check committing = 1
is_past_check _ = 0

-- The sections that a worker has before it at most, the loop over the files apart.
abbrev pub rank : Stage → ℕ
rank begun = 20
rank unopposed = 19
rank estimating = 18
rank waiting = 17
rank capturing = 16
rank captured = 15
rank transforming = 14
rank transformed = 13
rank locking = 12
rank locked = 11
rank cleared = 10
rank committing = 9
rank stopping = 8
rank returning = 7
rank unwinding_bad_alloc = 7
rank unwinding = 7
rank counting = 6
rank releasing = 5
rank releasing_failed = 5
rank taking = 4
rank failing = 3
rank ending = 2
rank exited = 0

-- The stages of one file in front of its save.
abbrev pub InFront : Stage → Type 0
InFront st = (has_file st ≡ 1) × (is_unsaved st ≡ 1)

pub Passes-InFront :
    {st next : Stage}
    → Passes st next
    → InFront st × InFront next × (is_past_check next ≤ is_past_check st) × (rank next < rank st)
Passes-InFront same_revision = ((refl, refl), (refl, refl), omega arith, omega arith)
Passes-InFront before_transform = ((refl, refl), (refl, refl), omega arith, omega arith)
Passes-InFront has_output = ((refl, refl), (refl, refl), omega arith, omega arith)
Passes-InFront before_boundary = ((refl, refl), (refl, refl), omega arith, omega arith)
Passes-InFront before_save = ((refl, refl), (refl, refl), omega arith, omega arith)

pub PassesUnopposed-InFront :
    {st next : Stage} → PassesUnopposed st next → InFront st × InFront next × (rank next < rank st)
PassesUnopposed-InFront unopposed_start = ((refl, refl), (refl, refl), omega arith)
PassesUnopposed-InFront unopposed_save = ((refl, refl), (refl, refl), omega arith)

pub MayRefuse-InFront : {st : Stage} → MayRefuse st → InFront st × (9 < rank st)
MayRefuse-InFront at_begun = ((refl, refl), omega arith)
MayRefuse-InFront at_unopposed = ((refl, refl), omega arith)
MayRefuse-InFront at_waiting = ((refl, refl), omega arith)
MayRefuse-InFront at_capturing = ((refl, refl), omega arith)
MayRefuse-InFront at_captured = ((refl, refl), omega arith)
MayRefuse-InFront at_transforming = ((refl, refl), omega arith)
MayRefuse-InFront at_transformed = ((refl, refl), omega arith)
MayRefuse-InFront at_locked = ((refl, refl), omega arith)
MayRefuse-InFront at_cleared = ((refl, refl), omega arith)

pub MayThrow-InFront : {st : Stage} → MayThrow st → InFront st × (9 < rank st)
MayThrow-InFront throws_estimating = ((refl, refl), omega arith)
MayThrow-InFront throws_waiting = ((refl, refl), omega arith)
MayThrow-InFront throws_capturing = ((refl, refl), omega arith)
MayThrow-InFront throws_transforming = ((refl, refl), omega arith)
