-- ===== src/Interlocks.antt =====
-- What a step of the machine (src/finishing_line/core/machine.py) may ask the devices for, and what
-- it has checked before it does.
pub mod Phases
pub mod Steps
pub mod Exact
pub mod Wet
use finishing_line.Common.{List, String, [], false, none, some, true, ℕ, ◌<◌, ◌∷◌, ◌≡◌, ◌⊎◌}
use finishing_line.Config.{ProcessConfig}
use finishing_line.Guards.{departure_blocked, occupancy_mismatch}
use finishing_line.Intents.{Action, Intent, advance_train, spray_part}
use finishing_line.Machine.{Inputs, StepResult, live_moves}
use finishing_line.Model.{
  Direction, LineState, Move, PartState, Phase, SensorSnapshot, ShutterState, Station, part_at,
}
use finishing_line.Schedule.{schedule, transitions}

-- An action is among the intents.

abbrev pub Asks : Action → List Intent → Type 0
Asks a [] = ⊥
Asks a (i ∷ intents) = (i.action ≡ a) ⊎ Asks a intents

-- What has been checked when the gun is asked to spray.
pub record SprayPermitted (s : LineState) (sensors : SensorSnapshot) (part_id : String) (coat : ℕ)
    : Type 0 where
  pub part : PartState
  pub at_o : part_at s Station.o ≡ some part
  pub id : part.part_id ≡ part_id
  pub role : part.role ≡ (schedule s.beat).robot.role
  pub due : coat ≡ (schedule s.beat).robot.coat
  pub lacks : part.coats_applied < coat
  pub working : s.phase ≡ Phase.robot_work
  pub idle : s.pending ≡ []
  pub shutter_closed : sensors.shutter ≡ ShutterState.closed
  pub part_seen : sensors.occupied.at_o ≡ true
  pub agreed : occupancy_mismatch s sensors ≡ none

-- What has been checked when the belts are asked to move.
pub record MovePermitted (s : LineState) (sensors : SensorSnapshot) (cfg : ProcessConfig)
    (direction : Direction) (moves : List Move) : Type 0 where
  pub of_beat : direction ≡ (transitions s.beat).direction
  pub live : moves ≡ live_moves s
  pub moving : s.phase ≡ Phase.moving
  pub idle : s.pending ≡ []
  pub shutter_open : sensors.shutter ≡ ShutterState.opened
  pub robot_clear : sensors.robot_clear ≡ true
  pub gun_off : sensors.gun_on ≡ false
  pub departs : departure_blocked s sensors cfg moves ≡ none

abbrev pub Sprays : LineState → SensorSnapshot → List Intent → Type 0
Sprays s sensors intents =
    (part_id : String) (coat : ℕ)
    → Asks (spray_part part_id coat) intents
    → SprayPermitted s sensors part_id coat

abbrev pub MovesBelts : LineState → SensorSnapshot → ProcessConfig → List Intent → Type 0
MovesBelts s sensors cfg intents =
    (direction : Direction) (moves : List Move)
    → Asks (advance_train direction moves) intents
    → MovePermitted s sensors cfg direction moves

-- Every spray and every belt motion among the intents of a result was permitted in `s`.
abbrev pub IsPermitted : LineState → Inputs → ProcessConfig → StepResult → Type 0
IsPermitted s i cfg r = Sprays s i.sensors r.intents × MovesBelts s i.sensors cfg r.intents
