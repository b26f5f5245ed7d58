-- ===== src/Firmware.antt =====
-- src/finishing_line/sim/fake_clearcore.py: the reference for the ClearCore's firmware. One pass of
-- its loop is `loop_tick`; `Types` has the state and `Zones` the motors.
mod Types
mod Zones
pub mod Watchdog
pub mod Edges
pub mod Protocol
pub use Types.{
  Timing, Deadline, EdgeWatch, ZoneBlock, Firmware, Table, poke, level, reached, still, zeroes,
}
unfoldable pub use Types.{power_on}
pub use Zones.{falling_bit, sensor_reg, stopped_zone, velocity_of}
unfoldable pub use Zones.{
  arm_edge, watch_edge, sensor_stop_tick, run_distance, distance_tick, zone_tick,
}
use finishing_line.Common.{
  Bool, Option, false, if◌then◌else◌, leb, ltb, none, not, some, true, ℕ, ◌&&◌, ◌+◌, ◌-◌, ◌==◌,
}
use finishing_line.Executor.{heartbeat}
use finishing_line.Firmware.Types.{Firmware, Table, Timing, ZoneBlock, level, poke}
use finishing_line.Firmware.Zones.{zone_tick}
use finishing_line.Model.{Station, Zone}
use finishing_line.Registers.{
  acceleration_reg, brush_on_coil, direction_coil, distance_reg, echo_of, fan_cmd, fan_fb,
  feed_conveyor_coil, heartbeat_reg, motion_mode_reg, position_reg, request_id_reg, sh_cmd, sh_fb,
  velocity_reg, watchdog_reg,
}

-- `set_input`
pub data InputTable : Type 0 where
  discrete_table input_table : InputTable

abbrev pub set_input : InputTable → (register value : ℕ) → Firmware → Firmware
set_input InputTable.discrete_table register value f = record f {
  discrete = poke register value f.discrete;
}
set_input InputTable.input_table register value f = record f {
  input_regs = poke register value f.input_regs;
}

-- The commands' echoes.
abbrev pub copied : ℕ → Table → Table → Table
copied command from to = poke (echo_of command) (from command) to

unfoldable pub echo_commands : Firmware → Firmware
echo_commands f = record f {
  discrete =
      copied brush_on_coil f.coils
        (copied feed_conveyor_coil f.coils (copied direction_coil f.coils f.discrete));
  input_regs = copied request_id_reg f.holding (
      copied position_reg f.holding (
        copied distance_reg f.holding (
          copied acceleration_reg f.holding
            (copied velocity_reg f.holding (copied motion_mode_reg f.holding f.input_regs)))));
}

-- The heartbeat must go on changing, from the first one on.
unfoldable pub check_watchdog : Timing → ℕ → Firmware → Firmware
check_watchdog timing now f =
    let heartbeat = f.holding heartbeat_reg in
    if not (heartbeat == f.last_heartbeat)
    then record f {
      watchdog_armed = true;
      last_heartbeat = heartbeat;
      heartbeat_seen_at = now;
      input_regs = poke watchdog_reg 0 f.input_regs;
    }
    else if f.watchdog_armed && ltb timing.watchdog_timeout (now - f.heartbeat_seen_at)
    then record f { input_regs = poke watchdog_reg 1 f.input_regs }
    else f

abbrev pub tripped : Firmware → Bool
tripped f = level f.input_regs watchdog_reg

-- The fans follow their commands, and run while the watchdog has tripped.
abbrev pub fan_feedback : Firmware → Station → ℕ
fan_feedback f station = if tripped f then 1 else f.holding (fan_cmd station)

unfoldable pub drive_fans : Firmware → Firmware
drive_fans f = record f {
  input_regs =
      poke (fan_fb Station.f2) (fan_feedback f Station.f2)
        (poke (fan_fb Station.f1) (fan_feedback f Station.f1) f.input_regs);
}

abbrev pub due : ℕ → Option ℕ → Bool
due now none = false
due now (some deadline) = leb deadline now

-- The shutter's feedback is 2 on the way, and the command when the way is over.
unfoldable pub drive_shutter : Timing → ℕ → Firmware → Firmware
drive_shutter timing now f =
    let cmd = f.holding sh_cmd in
    let fb = f.input_regs sh_fb in
    if not (cmd == fb) && not (fb == 2)
    then record f {
      input_regs = poke sh_fb 2 f.input_regs;
      shutter_deadline = some (now + timing.shutter_actuation);
    }
    else if fb == 2 && due now f.shutter_deadline
    then record f { input_regs = poke sh_fb cmd f.input_regs; shutter_deadline = none }
    else f

-- Both zones, one after the other.
abbrev pub with_zone_2 : Firmware → ZoneBlock → Option (ZoneBlock × Table) → Option Firmware
with_zone_2 f z1 none = none
with_zone_2 f z1 (some (z2, inputs)) =
    some (record f { zone_1 = z1; zone_2 = z2; input_regs = inputs })

abbrev pub then_zone_2 : Timing → ℕ → Bool → Firmware → Option (ZoneBlock × Table) → Option Firmware
then_zone_2 timing now halted f none = none
then_zone_2 timing now halted f (some (z1, inputs)) =
    with_zone_2 f z1 (zone_tick Zone.z2 timing now halted f.holding f.discrete inputs f.zone_2)

abbrev pub zones_by : Bool → Timing → ℕ → Firmware → Option Firmware
zones_by halted timing now f =
    then_zone_2 timing now halted f
      (zone_tick Zone.z1 timing now halted f.holding f.discrete f.input_regs f.zone_1)

unfoldable pub drive_zones : Timing → ℕ → Firmware → Option Firmware
unfolding zone_tick
drive_zones timing now f = zones_by (tripped f) timing now f

-- `_tick`
unfoldable pub loop_tick : Timing → ℕ → Firmware → Option Firmware
unfolding drive_zones drive_shutter drive_fans check_watchdog echo_commands
loop_tick timing now f =
    drive_zones timing now
      (drive_shutter timing now (drive_fans (check_watchdog timing now (echo_commands f))))
