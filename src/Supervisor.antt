-- ===== src/Supervisor.antt =====
-- src/finishing_line/process/supervisor.py: one cycle of the main loop. What the devices read is an
-- argument, and what they are told is part of the result. Here no device call raises (`Raising` has
-- the cycles that one ends), and `none` is the KeyError of the machine's step.
pub mod Cycle
pub mod Raising
use finishing_line.Common.{
  Bool, List, Option, [], false, if◌then◌else◌, is_some, none, not, some, true, ℕ, ◌&&◌, ◌++◌, ◌∷◌,
}
use finishing_line.Config.{ProcessConfig}
use finishing_line.Executor.{Command, Executor, completed, heartbeat, submit}
use finishing_line.Machine.{Inputs, StepResult, step}
use finishing_line.Model.{FanState, LineState, Reason, SensorSnapshot, ShutterState, Station, get}
use finishing_line.Timers.{advance_flash_timers}

pub record ClearCoreInputs : Type 0 where
  pub f1_eye : Bool
  pub o_eye : Bool
  pub f2_eye : Bool
  pub z1_eye : Bool
  pub z2_eye : Bool
  pub in_eye : Bool
  pub out_eye : Bool
  pub in_count : ℕ
  pub shutter : ShutterState
  pub f1_fan_on : Bool
  pub f2_fan_on : Bool
  pub watchdog_tripped : Bool

abbrev pub fan_of : Bool → FanState
fan_of true = FanState.on
fan_of false = FanState.off

unfoldable pub build_sensors : ClearCoreInputs → Bool → Bool → SensorSnapshot
build_sensors cc robot_clear gun_on = record {
  occupied = record {
    at_in = false;
    at_f1 = cc.f1_eye;
    at_o = cc.o_eye;
    at_f2 = cc.f2_eye;
    at_out = false;
  };
  shutter = cc.shutter;
  f1_fan = fan_of cc.f1_fan_on;
  f2_fan = fan_of cc.f2_fan_on;
  robot_clear = robot_clear;
  gun_on = gun_on;
  in_count = cc.in_count;
  in_eye = cc.in_eye;
  out_eye = cc.out_eye;
}

-- `next_id` is the counter of intent ids, which the whole process shares.
pub record Supervisor : Type 0 where
  pub executor : Executor
  pub cfg : ProcessConfig
  pub state : LineState
  pub next_id : ℕ

-- What one cycle reads from the devices.
pub record Readings : Type 0 where
  pub cc : ClearCoreInputs
  pub robot_clear : Bool
  pub gun_on : Bool

abbrev pub sensed : LineState → ClearCoreInputs → LineState
sensed s cc = record s { f1_fan = fan_of cc.f1_fan_on; f2_fan = fan_of cc.f2_fan_on }

unfoldable pub fault_of : Option Reason → Bool → Option Reason
fault_of (some why) tripped = some why
fault_of none tripped = if tripped then some Reason.watchdog_tripped else none

-- On the entry into a fault the fan of every occupied fan station is switched on.
abbrev pub force_fan : SensorSnapshot → Station → List Command
force_fan sensors station =
    if get sensors.occupied station then Command.set_fan station true ∷ [] else []

unfoldable pub force_fans : Bool → Option Reason → SensorSnapshot → List Command
force_fans was_faulted fault sensors =
    if is_some fault && not was_faulted
    then force_fan sensors Station.f1 ++ force_fan sensors Station.f2
    else []

-- What a cycle does with the result of the step.
unfoldable pub after_step :
    Option StepResult
    → Supervisor
    → Executor
    → SensorSnapshot
    → Option (Supervisor × StepResult × List Command)
unfolding submit force_fans
after_step none sup executor sensors = none
after_step (some r) sup executor sensors =
    let (executor', commands) = submit r.intents executor in
    some (
      record sup {
        executor = executor';
        state = record (r.state) { spray_burst_active = sensors.gun_on };
        next_id = r.next_id;
      },
      r,
      commands
          ++ force_fans (is_some sup.state.fault) r.state.fault sensors
          ++ Command.heartbeat ∷ [],
    )

-- What the step of a cycle is given.
abbrev pub inputs_of : Supervisor → Readings → ℕ → Inputs
inputs_of sup now dt = record {
  dt = dt;
  sensors = build_sensors now.cc now.robot_clear now.gun_on;
  completed = (completed sup.executor).1;
  fault = fault_of sup.executor.fault now.cc.watchdog_tripped;
}

unfoldable pub tick : Supervisor → Readings → ℕ → Option (Supervisor × StepResult × List Command)
unfolding after_step step fault_of build_sensors completed
tick sup now dt =
    after_step (step (sensed sup.state now.cc) (inputs_of sup now dt) sup.cfg sup.next_id) sup
      (completed sup.executor).0 (inputs_of sup now dt).sensors

-- A paused cycle: timers and watchdog only.
unfoldable pub idle_tick : Supervisor → ClearCoreInputs → ℕ → Supervisor × List Command
unfolding advance_flash_timers
idle_tick sup cc dt =
    let s = sensed sup.state cc in
    (record sup { state = record s { parts = advance_flash_timers s dt sup.cfg } }, heartbeat ∷ [])
