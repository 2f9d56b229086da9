-- ===== src/Batch/Runs/Invariants.antt =====
-- How a property of the states is kept: by the moves of one worker and by the request to stop.
use jpg_spinner.Batch.Runs.{
  State, Event, worker, cancellation, handle_event, run, new_worker, new_workers,
}
use jpg_spinner.Batch.Sections.Shapes.{Shape}
use jpg_spinner.Batch.Sections.Moves.Complete.{run_section-Move}
use jpg_spinner.Batch.Sections.{run_section}
use jpg_spinner.Batch.State.{Worker}
use jpg_spinner.Batch.Sections.Moves.{Move}
use jpg_spinner.Batch.Admission.{Ending}
use jpg_spinner.Batch.Files.{AnalyzedImageBatch}
use jpg_spinner.Prelude.{
  ℕ, ◌≡◌, refl, true, arith, Option, none, some, List, [], ◌∷◌, get_elem?, set_at, total,
}
use jpg_spinner.Prelude.{All, zero, suc}

-- The state behind the move of the worker with the number `k`.
abbrev pub moved : State → ℕ → Ending → State
moved s k o = record { shared = o.0; workers = set_at s.workers k o.1 }

abbrev pub stopped : State → State
stopped s = record s { shared = record s.shared { is_stop_requested = true } }

abbrev pub IsShaped : Worker → Type 0
IsShaped w = Shape w.stage w

module _ {κ} (batch : AnalyzedImageBatch) (P : State → Type κ)
    (on_stop : (s : State) → P s → P (stopped s))
    (on_along : (s : State) (k : ℕ) (w : Worker) (o : Ending)
      → P s
      → get_elem? s.workers k ≡ some w
      → Move batch s.shared w w.stage o
      → P (moved s k o)) where
  pub step_keeps : (s : State) (e : Event) → P s → P (handle_event batch s e)
  unfolding handle_event
  step_keeps s cancellation h = on_stop s h
  step_keeps s (worker k a) h = go (get_elem? s.workers k) refl
    where
      go :
          (f : Option Worker)
          → get_elem? s.workers k ≡ f
          → P (elim f [ none ↦ s | some w ↦ moved s k (run_section w.stage batch a s.shared w) ])
      go none e = h
      go (some w) e =
          on_along s k w (run_section w.stage batch a s.shared w) h e
            (run_section-Move batch s.shared w w.stage a)

  pub run_keeps : (s : State) (es : List Event) → P s → P (run batch s es)
  unfolding run
  run_keeps s [] h = h
  run_keeps s (e ∷ es) h = run_keeps (handle_event batch s e) es (step_keeps s e h)

pub new_workers-All {κ} : (P : Worker → Type κ) (n : ℕ) → P new_worker → All P (new_workers n)
new_workers-All P zero p = tt
new_workers-All P (suc n) p = (p, new_workers-All P n p)

pub new_workers_total : (f : Worker → ℕ) (n : ℕ) → f new_worker ≡ 0 → total f (new_workers n) ≡ 0
new_workers_total f zero e = refl
new_workers_total f (suc n) e = ground (arith, new_workers_total f n e)
