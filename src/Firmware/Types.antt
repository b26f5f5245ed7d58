-- ===== src/Firmware/Types.antt =====
-- The tables, the timing and the state of the ClearCore's firmware, as
-- src/finishing_line/sim/fake_clearcore.py has them. A table is a function from addresses.
use finishing_line.Common.{Bool, Option, false, if◌then◌else◌, leb, none, not, ℕ, ◌*◌, ◌-◌, ◌==◌}
use finishing_line.Model.{Zone}
use finishing_line.Registers.{mode_idle, server_state, state_ready, zone_regs}

abbrev pub Table : Type 0
Table = ℕ → ℕ

abbrev pub poke : ℕ → ℕ → Table → Table
poke a v table b = if a == b then v else table b

-- `bool(table[a])`
abbrev pub level : Table → ℕ → Bool
level table a = not (table a == 0)

-- The clock's units in a second, and the times that the firmware is set to, in those units.
pub record Timing : Type 0 where
  pub second : ℕ
  pub watchdog_timeout : ℕ
  pub shutter_actuation : ℕ
  pub default_velocity : ℕ

-- The time `armed_at + distance / velocity`, kept as its parts: the quotient is a real number.
pub record Deadline : Type 0 where
  pub armed_at : ℕ
  pub steps : ℕ
  pub velocity : ℕ

abbrev pub reached : Timing → ℕ → Deadline → Bool
reached timing now d = leb (d.steps * timing.second) ((now - d.armed_at) * d.velocity)

-- An armed sensor-stop: the sensor, the edge that is wanted, and the level last seen.
pub record EdgeWatch : Type 0 where
  pub sensor : ℕ
  pub want_rising : Bool
  pub last_seen : Bool

pub record ZoneBlock : Type 0 where
  pub last_reqid : ℕ
  pub move_done_at : Option Deadline
  pub edge_watch : Option EdgeWatch

pub record Firmware : Type 0 where
  pub coils : Table
  pub discrete : Table
  pub holding : Table
  pub input_regs : Table
  pub zone_1 : ZoneBlock
  pub zone_2 : ZoneBlock
  pub last_heartbeat : ℕ
  pub heartbeat_seen_at : ℕ
  pub watchdog_armed : Bool
  pub shutter_deadline : Option ℕ

-- The state in which the firmware starts, at a time.
abbrev pub still : ZoneBlock
still = record { last_reqid = 0; move_done_at = none; edge_watch = none }

abbrev pub zeroes : Table
zeroes a = 0

unfoldable pub power_on : ℕ → Firmware
power_on now = record {
  coils = zeroes;
  discrete = zeroes;
  holding =
      poke (zone_regs Zone.z1).mode mode_idle (poke (zone_regs Zone.z2).mode mode_idle zeroes);
  input_regs =
      poke (zone_regs Zone.z1).state state_ready
        (poke (zone_regs Zone.z2).state state_ready (poke server_state state_ready zeroes));
  zone_1 = still;
  zone_2 = still;
  last_heartbeat = 0;
  heartbeat_seen_at = now;
  watchdog_armed = false;
  shutter_deadline = none;
}
