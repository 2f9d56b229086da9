-- ===== src/Batch/Runs/Idle.antt =====
-- The states in which no worker can do anything but wait for memory.
use jpg_spinner.Batch.Runs.Memory.{guard_of, reservation_of, run-IsBalanced}
use jpg_spinner.Batch.Runs.Invariants.{IsShaped}
use jpg_spinner.Batch.Runs.{Event, run, start}
use jpg_spinner.Batch.Sections.Shapes.{Shape}
use jpg_spinner.Batch.State.{waiting, capturing, exited, Worker, replied}
use jpg_spinner.Batch.Admission.{Ending, await_memory}
use jpg_spinner.Batch.Files.{AnalyzedImageBatch}
use jpg_spinner.Prelude.{ℕ, ◌≡◌, false, List, [], ◌∷◌, arith, total, ◌⊎◌, inl, inr, All}
use mathlib.Core.Path.{subst}

-- A worker that waits for memory, or that is at its end.
abbrev pub IsIdle : Worker → Type 0
IsIdle w = (w.stage ≡ waiting) ⊎ (w.stage ≡ exited)

idle_holds_nothing :
    (w : Worker) → IsIdle w → IsShaped w → (reservation_of w ≡ 0) × (guard_of w ≡ 0)
idle_holds_nothing w (inl e) h =
    let shape = subst (λ st. Shape st w) e h in (shape.0, ground (arith, shape.1))
idle_holds_nothing w (inr e) h =
    let shape = subst (λ st. Shape st w) e h in (shape.0, ground (arith, shape.1))

idle_hold_nothing :
    (ws : List Worker)
    → All IsIdle ws
    → All IsShaped ws
    → (total reservation_of ws ≡ 0) × (total guard_of ws ≡ 0)
idle_hold_nothing [] i h = (omega arith, omega arith)
idle_hold_nothing (w ∷ ws) i h =
    let here = idle_holds_nothing w i.0 h.0 in
    let rest = idle_hold_nothing ws i.1 h.1 in
    (omega (arith, here.0, rest.0), omega (arith, here.1, rest.1))

-- The worker goes on to the capture, and its charge is all that is reserved.
abbrev pub IsAdmission : Worker → Ending → Type 0
IsAdmission w o =
    (o.1.stage ≡ capturing) × (o.1.reservation ≡ w.charge) × (o.0.reserved_memory_bytes ≡ w.charge)

-- In every interleaving behind which each worker waits for memory or is at its end, nothing is
-- reserved, the mutex of the saves is free, and the test of the wait admits any worker that looks
-- at it, with its whole charge, whatever the headroom and the budget are.
pub run_admits_last :
    (batch : AnalyzedImageBatch) (es : List Event) (w : Worker) (headroom : ℕ)
    → All IsIdle (run batch (start batch) es).workers
    → ((run batch (start batch) es).shared.reserved_memory_bytes ≡ 0)
      × ((run batch (start batch) es).shared.is_commit_mutex_held ≡ false)
      × IsAdmission w (await_memory batch (replied headroom) (run batch (start batch) es).shared w)
unfolding await_memory
run_admits_last batch es w headroom i =
    let h = run-IsBalanced batch es in
    let held = idle_hold_nothing (run batch (start batch) es).workers i h.shapes in
    let reserved : (run batch (start batch) es).shared.reserved_memory_bytes ≡ 0 =
      omega (arith, held.0, h.reservations) in
    let guards = h.guards in (reserved, ground (arith, held.1, guards), ground (arith, reserved))
