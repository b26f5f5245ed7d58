-- ===== src/Tests/Core.antt =====
-- The core's theorems at the states of the simulated run.
use finishing_line.Common.{List, [], false, inr, lookup, none, refl, some, true, ◌↔◌, ◌∷◌, ◌≡◌}
use finishing_line.Discipline.{IsDisciplined}
use finishing_line.Discipline.Resume.{resume-Keeps}
use finishing_line.Discipline.Steps.{Keeps}
use finishing_line.Model.{FanState}
use finishing_line.Faults.{Faults, IsHeld, step-Faults, step-absorbs}
use finishing_line.Flash.{IsKeyed, credit, dries, lookup-advance_flash_timers}
use finishing_line.Guards.{departure_blocked}
use finishing_line.Interlocks.Exact.{MayDepart, departure_blocked-exact}
use finishing_line.Interlocks.Wet.{ends_safe, fan_after, sprays_in_wind, work_batch-calm}
use finishing_line.Machine.{Inputs, StepResult, pausing, resume, step, work_batch}
use finishing_line.Model.{
  Beat, LineState, PartRole, PartState, Phase, Product, Reason, SensorSnapshot, Station, part_at,
  part_of,
}
use finishing_line.Recovery.{Settled, resume-Settled}
use finishing_line.Schedule.{schedule}
use finishing_line.Supervisor.{inputs_of}
use finishing_line.Tests.Line.{config, readings}
use finishing_line.Tests.Runs.{leaving-IsDisciplined}
use finishing_line.Tests.States.{leaving, spraying}
use finishing_line.Timers.{advance_flash_timers, may_leave_fan}

abbrev before : LineState
before = spraying.sup.state

-- A step in the beat P4, the belts about to move, with nothing wrong.
abbrev inputs : Inputs
inputs = inputs_of leaving.sup (readings leaving) 100

abbrev broken : Inputs
broken = record inputs { fault = some (Reason.external "zone Z1 faulted") }

-- The sensor at O misses the part.
abbrev blind : SensorSnapshot
blind = record (inputs_of spraying.sup (readings spraying) 100).sensors {
  occupied = record { at_in = false; at_f1 = true; at_o = false; at_f2 = false; at_out = false };
}

abbrev blinded : Inputs
blinded = record { dt = 100; sensors = blind; completed = []; fault = none }

abbrev stopped : LineState
stopped = record (leaving.sup.state) {
  phase = Phase.faulted;
  fault = some Reason.watchdog_tripped;
  fault_phase = some Phase.moving;
  pending = [];
  in_flight = (Station.f2, Station.out) ∷ (Station.o, Station.f2) ∷ [];
}

abbrev wet_part : PartState
wet_part = record {
  part_id = "b";
  product = Product.cube;
  role = PartRole.trail;
  pair_index = 0;
  coats_applied = 1;
  flash_1_s = 0;
  flash_2_s = 0;
  is_wet = true;
}

-- The table of the run before the spray is keyed.
keyed : IsKeyed leaving.sup.state.parts
keyed = leaving-IsDisciplined.keyed

lookup-advance_flash_timers_example :
    lookup "a" (advance_flash_timers leaving.sup.state 100 config)
    ≡ credit (dries leaving.sup.state "a") (lookup "a" leaving.sup.state.parts) 100 config
lookup-advance_flash_timers_example =
    lookup-advance_flash_timers leaving.sup.state 100 config "a" keyed

work_batch-calm_example :
    let spec = schedule Beat.p3 in
    let batch = work_batch spec (pausing before spec) "a" in
    (sprays_in_wind FanState.on batch ≡ false)
    × (fan_after FanState.on batch ≡ FanState.on)
    × (ends_safe batch ≡ true)
unfolding part_at lookup schedule
work_batch-calm_example = work_batch-calm before FanState.on "a" refl

step-Faults_example :
    (r : StepResult) × (step leaving.sup.state broken config 46 ≡ some r)
    × Faults leaving.sup.state broken.dt config (Reason.external "zone Z1 faulted") 46 r
step-Faults_example =
    step-Faults leaving.sup.state broken config 46 (Reason.external "zone Z1 faulted") refl refl

step-absorbs_example :
    (r : StepResult) × (step stopped inputs config 46 ≡ some r) × IsHeld stopped inputs config r
step-absorbs_example = step-absorbs stopped inputs config 46 refl

resume-Settled_example :
    Settled stopped inputs.sensors stopped.occupancy 46 (resume stopped inputs.sensors none none 46)
resume-Settled_example = resume-Settled stopped inputs.sensors none none 46 refl

stopped-IsDisciplined : IsDisciplined config stopped
unfolding part_of lookup may_leave_fan
stopped-IsDisciplined = record {
  keyed = keyed;
  slots = leaving-IsDisciplined.slots;
  held = leaving-IsDisciplined.held;
  queued = leaving-IsDisciplined.queued;
  stage = (inr (false, refl, tt, (tt, refl)), leaving-IsDisciplined.stage.1);
}

resume-Keeps_example : Keeps config (resume stopped inputs.sensors none none 46)
resume-Keeps_example = resume-Keeps config stopped inputs.sensors 46 stopped-IsDisciplined

departure_blocked-exact_example :
    (departure_blocked stopped inputs.sensors config stopped.in_flight ≡ none)
    ↔ MayDepart stopped inputs.sensors config stopped.in_flight
departure_blocked-exact_example =
    departure_blocked-exact stopped inputs.sensors config stopped.in_flight

abbrev sighted : SensorSnapshot
sighted = (inputs_of spraying.sup (readings spraying) 100).sensors

abbrev fanless : LineState
fanless = record before { parts = ("a", record wet_part { part_id = "a"; is_wet = false }) ∷ [] }

abbrev full : LineState
full = record before {
  occupancy = record {
    at_in = none;
    at_f1 = some "b";
    at_o = some "a";
    at_f2 = some "z";
    at_out = none;
  };
  in_queue = "c" ∷ "d" ∷ "e" ∷ [];
}

abbrev cube_a : PartState
cube_a = wet_part

abbrev browser_b : PartState
browser_b = record wet_part { product = Product.browser }

abbrev mixed : List PartState
mixed = cube_a ∷ cube_a ∷ cube_a ∷ browser_b ∷ []
