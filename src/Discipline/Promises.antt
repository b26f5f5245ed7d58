-- ===== src/Discipline/Promises.antt =====
-- The promises of the controller in its runs from an empty line (Runs.antt: `Happens`).
use finishing_line.Common.{List, Option, String, none, some, subst, sym, true, ℕ, ◌≡◌}
use finishing_line.Controller.{Controller, start_up}
use finishing_line.Discipline.{IsDisciplined, working_phase}
use finishing_line.Discipline.Aging.{observe-IsDisciplined}
use finishing_line.Discipline.Coats.{IsDue, IsFinished, out-IsFinished, spray-IsDue}
use finishing_line.Discipline.Runs.{Reaches, new_line-IsDisciplined, Reaches-IsOrderly}
use finishing_line.Intents.{advance_train, spray_part}
use finishing_line.Interlocks.{Asks}
use finishing_line.Interlocks.Steps.{advance-MovePermitted, spray-SprayPermitted}
use finishing_line.Machine.{StepResult, observe, step}
use finishing_line.Model.{
  Direction, LineState, Move, PartState, Station, has_move, new_line, part_at,
}
use finishing_line.Supervisor.{Readings, Supervisor, inputs_of, sensed}

-- The line before the step of a cycle, flash time banked.
abbrev pub seen_by : Controller → Readings → ℕ → LineState
seen_by c now dt = observe (sensed c.sup.state now.cc) (inputs_of c.sup now dt) c.sup.cfg

-- The step of a cycle of the loop.
abbrev pub cycle : Controller → Readings → ℕ → Option StepResult
cycle c now dt = step (sensed c.sup.state now.cc) (inputs_of c.sup now dt) c.sup.cfg c.sup.next_id

-- Every controller that a run reaches from an empty line satisfies the flash discipline in its phase
-- (or, faulted, in the phase of the fault). A run is made of passes of the loop, returning or ended
-- by a device call that raises, pauses, halts, batches whose ids are not empty and not repeated, steps
-- of the worker, and acknowledgements of faults by an operator who gives neither a map nor a beat.
pub reachable-IsDisciplined :
    (sup : Supervisor) (c : Controller)
    → sup.state ≡ new_line
    → Reaches (start_up sup none) c
    → IsDisciplined c.sup.cfg c.sup.state
unfolding start_up
reachable-IsDisciplined sup c e run =
    Reaches-IsOrderly run (subst (IsDisciplined sup.cfg) (sym e) (new_line-IsDisciplined sup.cfg))

seen-IsDisciplined :
    (c : Controller) (now : Readings) (dt : ℕ)
    → IsDisciplined c.sup.cfg c.sup.state
    → IsDisciplined c.sup.cfg (seen_by c now dt)
unfolding observe
seen-IsDisciplined c now dt d =
    observe-IsDisciplined (working_phase c.sup.state.phase c.sup.state.fault_phase) c.sup.cfg
      (sensed c.sup.state now.cc) (inputs_of c.sup now dt) d

-- In a controller that such a run (of passes, pauses, halts, batches
-- whose ids are not empty and not repeated, steps of the worker, and acknowledgements with neither a
-- map nor a beat) reaches from an empty line: when a step asks the gun to spray, the part with that id
-- stands at O, and it is due that coat: coat 1 with no coat on it, or coat 2 with one coat and its
-- first flash complete.
pub sprayed-IsDue :
    (sup : Supervisor) (c : Controller) (now : Readings) (dt : ℕ) (r : StepResult) (id : String)
    (coat : ℕ)
    → sup.state ≡ new_line
    → Reaches (start_up sup none) c
    → cycle c now dt ≡ some r
    → Asks (spray_part id coat) r.intents
    → (p : PartState) × (part_at (seen_by c now dt) Station.o ≡ some p)
      × (p.part_id ≡ id)
      × IsDue c.sup.cfg p coat
sprayed-IsDue sup c now dt r id coat e run returned asked =
    spray-IsDue c.sup.cfg (seen_by c now dt) (inputs_of c.sup now dt).sensors id coat
      (seen-IsDisciplined c now dt (reachable-IsDisciplined sup c e run))
      (spray-SprayPermitted (sensed c.sup.state now.cc) (inputs_of c.sup now dt) c.sup.cfg
        c.sup.next_id r id coat returned asked)

-- In a controller that such a run (of passes, pauses, halts, batches
-- whose ids are not empty and not repeated, steps of the worker, and acknowledgements with neither a
-- map nor a beat) reaches from an empty line: when a step moves the belts so that a part goes from F2
-- to OUT, that part has two coats and both of its flashes are complete.
pub outfed-IsFinished :
    (sup : Supervisor) (c : Controller) (now : Readings) (dt : ℕ) (r : StepResult)
    (direction : Direction) (moves : List Move)
    → sup.state ≡ new_line
    → Reaches (start_up sup none) c
    → cycle c now dt ≡ some r
    → Asks (advance_train direction moves) r.intents
    → has_move Station.f2 Station.out moves ≡ true
    → (p : PartState) × (part_at (seen_by c now dt) Station.f2 ≡ some p) × IsFinished c.sup.cfg p
outfed-IsFinished sup c now dt r direction moves e run returned asked goes_out =
    out-IsFinished c.sup.cfg (seen_by c now dt) (inputs_of c.sup now dt).sensors direction moves
      (seen-IsDisciplined c now dt (reachable-IsDisciplined sup c e run))
      (advance-MovePermitted (sensed c.sup.state now.cc) (inputs_of c.sup now dt) c.sup.cfg
        c.sup.next_id r direction moves returned asked)
      goes_out
