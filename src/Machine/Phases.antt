-- ===== src/Machine/Phases.antt =====
-- src/finishing_line/core/machine.py: one function for each phase of a beat.
-- `none` in place of a result is the KeyError of an id that the table of parts lacks.
use finishing_line.Common.{
  Bool, List, Option, String, [], false, if◌then◌else◌, insert, is_empty, leb, lookup, none, not,
  some, true, truthy, ℕ, ◌&&◌, ◌+◌, ◌∷◌,
}
use finishing_line.Config.{ProcessConfig}
use finishing_line.Guards.{departure_blocked, is_on, spray_station_not_ready, zone_motion_blocked}
use finishing_line.Intents.{
  Action, advance_train, clean_gun, move_to_safe_pose, sand_part, set_fan, set_shutter, spray_part,
}
use finishing_line.Machine.Moves.{apply_moves, live_moves, missing}
use finishing_line.Machine.Results.{Inputs, StepResult, emit, enter_fault, stay, unless}
use finishing_line.Model.{
  Beat, FanState, LineState, Move, PartRole, PartState, Phase, Reason, ShutterState, Station,
  nobody, part_at,
}
use finishing_line.Schedule.{BeatSpec, next_beat, schedule, transitions}

abbrev pub same_role : PartRole → PartRole → Bool
same_role PartRole.lead PartRole.lead = true
same_role PartRole.trail PartRole.trail = true
same_role _ _ = false

-- The rest of `_robot_work` once the work may start: the batch of intents, and the new part.
abbrev pub prep : Bool → String → Action
prep true part_id = clean_gun part_id
prep false part_id = sand_part part_id

abbrev pub is_wet_part : Option PartState → Bool
is_wet_part none = false
is_wet_part (some p) = p.is_wet

unfoldable pub pausing : LineState → BeatSpec → Bool
unfolding part_at
pausing s spec = is_on spec.f1_fan && is_wet_part (part_at s Station.f1)

unfoldable pub work_batch : BeatSpec → Bool → String → List Action
work_batch spec pause part_id =
    let spray = spray_part part_id spec.robot.coat in
    prep spec.robot.clean_gun part_id
    ∷ (if pause
        then set_fan Station.f1 FanState.off
          ∷ spray
          ∷ set_fan Station.f1 FanState.on
          ∷ move_to_safe_pose
          ∷ []
        else spray ∷ move_to_safe_pose ∷ [])

-- `none` where the table of parts lacks the id.
unfoldable pub coated : Option PartState → LineState → BeatSpec → String → Option LineState
coated none s spec part_id = none
coated (some p) s spec part_id = some (record s {
  parts = insert part_id (record p { coats_applied = spec.robot.coat; is_wet = true }) s.parts;
})

unfoldable pub work_on : Option LineState → LineState → BeatSpec → String → ℕ → Option StepResult
unfolding work_batch emit pausing
work_on none s spec part_id n = none
work_on (some t) s spec part_id n =
    some (emit t Phase.await_guards (work_batch spec (pausing s spec) part_id) n)

unfoldable pub robot_work_at :
    Option PartState → BeatSpec → LineState → Inputs → ProcessConfig → ℕ → Option StepResult
unfolding coated work_on enter_fault spray_station_not_ready
robot_work_at none spec s i cfg n = some (stay (record s { phase = Phase.await_guards }) none n)
robot_work_at (some p) spec s i cfg n =
    if not (same_role p.role spec.robot.role)
    then some (enter_fault s (Reason.role_mismatch s.beat spec.robot.role p.role p.part_id) n)
    else if leb spec.robot.coat p.coats_applied
    then some (stay (record s { phase = Phase.await_guards }) none n)
    else unless (spray_station_not_ready s i.sensors cfg)
        (work_on (coated (lookup p.part_id s.parts) s spec p.part_id) s spec p.part_id n) s n

unfoldable pub robot_work : LineState → Inputs → ProcessConfig → ℕ → Option StepResult
unfolding robot_work_at schedule part_at nobody
robot_work s i cfg n =
    if nobody s.occupancy && is_empty s.in_queue
    then some (stay s (some Reason.line_empty) n)
    else robot_work_at (part_at s Station.o) (schedule s.beat) s i cfg n

unfoldable pub await_guards : LineState → Inputs → ProcessConfig → ℕ → Option StepResult
unfolding departure_blocked live_moves
await_guards s i cfg n =
    unless (departure_blocked s i.sensors cfg (live_moves s))
      (some (stay (record s { phase = Phase.shutter_open }) none n)) s n

unfoldable pub confirm_move : List Station → LineState → ℕ → StepResult
unfolding enter_fault apply_moves
confirm_move [] s n =
    stay (record (apply_moves s s.in_flight) { in_flight = []; phase = Phase.shutter_close }) none n
confirm_move (x ∷ xs) s n = enter_fault s (Reason.advance_not_confirmed (x ∷ xs)) n

unfoldable pub start_move : List Move → LineState → Inputs → ProcessConfig → ℕ → Option StepResult
unfolding zone_motion_blocked emit transitions
start_move [] s i cfg n = some (stay (record s { phase = Phase.shutter_close }) none n)
start_move (m ∷ ms) s i cfg n =
    unless (zone_motion_blocked s i.sensors cfg (m ∷ ms))
      (some (
        emit (record s { in_flight = m ∷ ms }) Phase.moving
          (advance_train (transitions s.beat).direction (m ∷ ms) ∷ []) n))
      s n

unfoldable pub moving_in : List Move → LineState → Inputs → ProcessConfig → ℕ → Option StepResult
unfolding start_move live_moves confirm_move missing
moving_in [] s i cfg n = start_move (live_moves s) s i cfg n
moving_in (m ∷ ms) s i cfg n = some (confirm_move (missing i.sensors.occupied (m ∷ ms)) s n)

unfoldable pub moving : LineState → Inputs → ProcessConfig → ℕ → Option StepResult
unfolding moving_in
moving s i cfg n = moving_in s.in_flight s i cfg n

abbrev pub one_if_p1 : Beat → ℕ
one_if_p1 Beat.p1 = 1
one_if_p1 _ = 0

-- A fan over an empty station stays off.
abbrev pub fan_for : FanState → Option String → FanState
fan_for fan occupant = if truthy occupant then fan else FanState.off

unfoldable pub set_fans : LineState → ℕ → StepResult
unfolding emit schedule next_beat
set_fans s n =
    let beat = next_beat s.beat in
    let f1 = fan_for (schedule beat).f1_fan s.occupancy.at_f1 in
    let f2 = fan_for (schedule beat).f2_fan s.occupancy.at_f2 in
    emit
      (record s {
        beat = beat;
        pair_index = s.pair_index + one_if_p1 beat;
        phase = Phase.robot_work;
        f1_fan = f1;
        f2_fan = f2;
        shutter = ShutterState.closed;
      })
      Phase.robot_work (set_fan Station.f1 f1 ∷ set_fan Station.f2 f2 ∷ []) n

unfoldable pub dispatch : Phase → LineState → Inputs → ProcessConfig → ℕ → Option StepResult
unfolding robot_work await_guards moving set_fans emit enter_fault
dispatch Phase.robot_work s i cfg n = robot_work s i cfg n
dispatch Phase.await_guards s i cfg n = await_guards s i cfg n
dispatch Phase.shutter_open s i cfg n =
    some (emit s Phase.moving (set_shutter ShutterState.opened ∷ []) n)
dispatch Phase.moving s i cfg n = moving s i cfg n
dispatch Phase.shutter_close s i cfg n =
    some (emit s Phase.set_fans (set_shutter ShutterState.closed ∷ []) n)
dispatch Phase.set_fans s i cfg n = some (set_fans s n)
dispatch Phase.faulted s i cfg n = some (enter_fault s (Reason.unreachable_phase Phase.faulted) n)
