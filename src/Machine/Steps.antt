-- ===== src/Machine/Steps.antt =====
-- src/finishing_line/core/machine.py: `step`.
use finishing_line.Common.{
  Bool, List, Option, [], false, if◌then◌else◌, is_empty, none, some, ℕ, ◌==◌, ◌||◌, ◌∷◌,
}
use finishing_line.Config.{ProcessConfig}
use finishing_line.Guards.{occupancy_mismatch}
use finishing_line.Machine.Phases.{dispatch}
use finishing_line.Machine.Results.{Inputs, StepResult, enter_fault, is_faulted, is_moving, stay}
use finishing_line.Model.{LineState, Reason}
use finishing_line.Timers.{advance_flash_timers}

abbrev pub member : ℕ → List ℕ → Bool
member n [] = false
member n (m ∷ ms) = n == m || member n ms

abbrev pub unreported : List ℕ → List ℕ → List ℕ
unreported completed [] = []
unreported completed (p ∷ ps) =
    if member p completed then unreported completed ps else p ∷ unreported completed ps

-- What `step` does first, whatever the phase: bank flash time, and strike out reported intents.
unfoldable pub observe : LineState → Inputs → ProcessConfig → LineState
unfolding advance_flash_timers
observe s i cfg = record s {
  parts = advance_flash_timers s i.dt cfg;
  pending = unreported i.completed s.pending;
}

-- The rest of `step`, after the sensors were compared.
unfoldable pub proceed : Option Reason → LineState → Inputs → ProcessConfig → ℕ → Option StepResult
unfolding dispatch enter_fault
proceed (some why) s i cfg n = some (enter_fault s why n)
proceed none s i cfg n =
    if is_empty s.pending then dispatch s.phase s i cfg n else some (stay s none n)

unfoldable pub respond : Option Reason → LineState → Inputs → ProcessConfig → ℕ → Option StepResult
unfolding proceed enter_fault occupancy_mismatch
respond (some why) s i cfg n = some (enter_fault s why n)
respond none s i cfg n =
    if is_faulted s.phase
    then some (stay s s.fault n)
    else proceed (if is_moving s.phase then none else occupancy_mismatch s i.sensors) s i cfg n

unfoldable pub step : LineState → Inputs → ProcessConfig → ℕ → Option StepResult
unfolding respond observe
step s i cfg n = respond i.fault (observe s i cfg) i cfg n
