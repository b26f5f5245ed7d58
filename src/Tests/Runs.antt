-- ===== src/Tests/Runs.antt =====
-- The promises of the controller, in the simulated run.
use finishing_line.Common.{[], inl, inr, insert, lookup, none, refl, some, ◌∷◌, ◌≡◌}
use finishing_line.Controller.{Controller}
use finishing_line.Discipline.{IsDisciplined}
use finishing_line.Discipline.Coats.{IsDue, IsFinished}
use finishing_line.Discipline.Phases.{step-Keeps}
use finishing_line.Discipline.Promises.{
  cycle, outfed-IsFinished, reachable-IsDisciplined, seen_by, sprayed-IsDue,
}
use finishing_line.Discipline.Steps.{Keeps}
use finishing_line.Executor.{completed}
use finishing_line.Interlocks.{MovePermitted, SprayPermitted}
use finishing_line.Interlocks.Steps.{advance-MovePermitted, spray-SprayPermitted}
use finishing_line.Machine.{StepResult, observe, or_given, stay, step}
use finishing_line.Model.{Direction, PartState, Station, has_move, new_line, part_at}
use finishing_line.Outcome.{Outcome}
use finishing_line.Supervisor.{build_sensors, fault_of, inputs_of}
use finishing_line.Tests.Line.{config, readings, supervisor}
use finishing_line.Tests.States.{leaving, leaving-Reaches, spraying, spraying-Reaches}

abbrev result : Controller → StepResult
result c = or_given (cycle c (readings c) 100) (stay new_line none 0)

pub leaving-IsDisciplined : IsDisciplined config leaving.sup.state
leaving-IsDisciplined = reachable-IsDisciplined supervisor leaving refl leaving-Reaches

reachable-IsDisciplined_example : IsDisciplined config leaving.sup.state
reachable-IsDisciplined_example = reachable-IsDisciplined supervisor leaving refl leaving-Reaches

sprayed-IsDue_example :
    (p : PartState) × (part_at (seen_by spraying (readings spraying) 100) Station.o ≡ some p)
    × (p.part_id ≡ "a")
    × IsDue spraying.sup.cfg p 2
unfolding step lookup insert fault_of build_sensors completed
sprayed-IsDue_example =
    sprayed-IsDue supervisor spraying (readings spraying) 100 (result spraying) "a" 2 refl
      spraying-Reaches refl (inr (inl refl))

outfed-IsFinished_example :
    (p : PartState) × (part_at (seen_by leaving (readings leaving) 100) Station.f2 ≡ some p)
    × IsFinished leaving.sup.cfg p
unfolding step lookup insert fault_of build_sensors completed has_move
outfed-IsFinished_example =
    outfed-IsFinished supervisor leaving (readings leaving) 100 (result leaving)
      Direction.downstream ((Station.f2, Station.out) ∷ (Station.o, Station.f2) ∷ []) refl
      leaving-Reaches refl (inl refl) refl

step-Keeps_example :
    Outcome ⊥
      (Keeps config)
      (step leaving.sup.state (inputs_of leaving.sup (readings leaving) 100) config 0)
step-Keeps_example =
    step-Keeps config leaving.sup.state (inputs_of leaving.sup (readings leaving) 100) 0
      leaving-IsDisciplined

spray-SprayPermitted_example :
    SprayPermitted
      (observe spraying.sup.state (inputs_of spraying.sup (readings spraying) 100) config)
      (inputs_of spraying.sup (readings spraying) 100).sensors
      "a"
      2
unfolding step lookup insert fault_of build_sensors completed
spray-SprayPermitted_example =
    spray-SprayPermitted spraying.sup.state (inputs_of spraying.sup (readings spraying) 100) config
      0
      (or_given (step spraying.sup.state (inputs_of spraying.sup (readings spraying) 100) config 0)
        (stay new_line none 0))
      "a" 2 refl (inr (inl refl))

advance-MovePermitted_example :
    MovePermitted
      (observe leaving.sup.state (inputs_of leaving.sup (readings leaving) 100) config)
      (inputs_of leaving.sup (readings leaving) 100).sensors
      config
      Direction.downstream
      ((Station.f2, Station.out) ∷ (Station.o, Station.f2) ∷ [])
unfolding step lookup insert fault_of build_sensors completed
advance-MovePermitted_example =
    advance-MovePermitted leaving.sup.state (inputs_of leaving.sup (readings leaving) 100) config 0
      (or_given (step leaving.sup.state (inputs_of leaving.sup (readings leaving) 100) config 0)
        (stay new_line none 0))
      Direction.downstream ((Station.f2, Station.out) ∷ (Station.o, Station.f2) ∷ []) refl
      (inl refl)
