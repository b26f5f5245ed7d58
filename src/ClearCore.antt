-- ===== src/ClearCore.antt =====
-- src/finishing_line/devices/clearcore.py: the client of the ClearCore. A command is the writes that
-- it makes; what it reads comes from the tables of the firmware.
pub mod Requests
pub mod Arming
pub mod Handshake
use finishing_line.Common.{
  Bool, List, Option, [], false, if◌then◌else◌, length, none, some, true, ℕ, ◌%◌, ◌+◌, ◌==◌, ◌∷◌,
}
use finishing_line.Firmware.{Firmware, level, tripped}
use finishing_line.LegacyDriver.{Kinematics, Try, Write, failed, mm_to_steps, passed, ◌>>=◌}
use finishing_line.Model.{ShutterState, Station, Zone}
use finishing_line.Registers.{
  brush_on_coil, f1_eye_in, f2_eye_in, fan_cmd, fan_fb, feed_conveyor_coil, heartbeat_reg,
  in_count_reg, in_eye_in, mode_continuous, mode_distance, mode_idle, mode_sensor_stop, o_eye_in,
  out_eye_in, sh_cmd, sh_fb, z1_eye_in, z2_eye_in, zone_regs,
}
use finishing_line.Supervisor.{ClearCoreInputs}
use finishing_line.Train.{SensorTarget}

-- `log` has the writes so far, the last one first; `answers n` says whether write number `n` succeeds.
pub record Client : Type 0 where
  pub answers : ℕ → Bool
  pub log : List Write
  pub request_id : ℕ
  pub heartbeat_count : ℕ
  pub stub_shutter : Bool
  pub stub_state : ShutterState

abbrev pub send : Write → Client → Try Client
send w c =
    let e = record c { log = w ∷ c.log } in if c.answers (length c.log) then passed e else failed e

-- `_poll_until`: the polls that fit in before the deadline; `none` is a read that raises.
unfoldable pub poll_until : List (Option Bool) → Client → Try Client
poll_until [] c = failed c
poll_until (none ∷ more) c = failed c
poll_until (some true ∷ more) c = passed c
poll_until (some false ∷ more) c = poll_until more c

-- The ids of the requests, and the heartbeat.
abbrev pub next_count : ℕ → ℕ
next_count n = n % 65535 + 1

abbrev pub request : Zone → Client → Try Client
request zone c =
    send (Write.reg (zone_regs zone).reqid (next_count c.request_id))
      (record c { request_id = next_count c.request_id })

unfoldable pub request_mm :
    Kinematics → Zone → (mm : ℕ) → (downstream : Bool) → List (Option Bool) → Client → Try Client
unfolding poll_until
request_mm k zone mm downstream polls c =
    send (Write.coil (zone_regs zone).direction downstream) c
    >>= send (Write.reg (zone_regs zone).mode mode_distance)
    >>= send (Write.reg (zone_regs zone).distance (mm_to_steps k mm))
    >>= request zone
    >>= poll_until polls

-- The code of a sensor, and of its falling edge.
abbrev pub target_code : SensorTarget → ℕ
target_code SensorTarget.f1_seen = 1
target_code SensorTarget.o_seen = 2
target_code SensorTarget.f2_seen = 3
target_code SensorTarget.z1_seen = 4
target_code SensorTarget.z2_seen = 5

abbrev pub edge_code : SensorTarget → Bool → ℕ
edge_code sensor falling = target_code sensor + (if falling then 8 else 0)

unfoldable pub request_until :
    Zone
    → (downstream : Bool) → SensorTarget
    → (falling : Bool) → List (Option Bool)
    → Client
    → Try Client
unfolding poll_until
request_until zone downstream sensor falling polls c =
    send (Write.coil (zone_regs zone).direction downstream) c
    >>= send (Write.reg (zone_regs zone).target (edge_code sensor falling))
    >>= send (Write.reg (zone_regs zone).mode mode_sensor_stop)
    >>= request zone
    >>= poll_until polls

unfoldable pub send_continuous : Zone → (downstream : Bool) → Client → Try Client
send_continuous zone downstream c =
    send (Write.coil (zone_regs zone).direction downstream) c
    >>= send (Write.reg (zone_regs zone).mode mode_continuous)

abbrev pub send_idle : Zone → Client → Try Client
send_idle zone c = send (Write.reg (zone_regs zone).mode mode_idle) c

-- `set_fan`; a station without a fan is a KeyError.
abbrev pub one_if : Bool → ℕ
one_if true = 1
one_if false = 0

abbrev pub send_fan : Station → Bool → Client → Try Client
send_fan Station.f1 on c = send (Write.reg (fan_cmd Station.f1) (one_if on)) c
send_fan Station.f2 on c = send (Write.reg (fan_cmd Station.f2) (one_if on)) c
send_fan _ on c = failed c

abbrev pub send_feed : Bool → Client → Try Client
send_feed on c = send (Write.coil feed_conveyor_coil on) c

abbrev pub send_brush : Bool → Client → Try Client
send_brush on c = send (Write.coil brush_on_coil on) c

-- `set_shutter`; a target that is no position is a ValueError.
abbrev pub stub_to : ShutterState → Client → Try Client
stub_to target c = passed (if c.stub_shutter then record c { stub_state = target } else c)

unfoldable pub send_shutter : ShutterState → Client → Try Client
send_shutter ShutterState.opened c = send (Write.reg sh_cmd 1) c >>= stub_to ShutterState.opened
send_shutter ShutterState.closed c = send (Write.reg sh_cmd 0) c >>= stub_to ShutterState.closed
send_shutter _ c = failed c

unfoldable pub send_heartbeat : Client → Try Client
send_heartbeat c =
    send (Write.reg heartbeat_reg (next_count c.heartbeat_count))
      (record c { heartbeat_count = next_count c.heartbeat_count })

-- The reads, of the firmware's tables.
abbrev pub from_feedback : ℕ → ShutterState
from_feedback raw =
    if raw == 0
    then ShutterState.closed
    else if raw == 1
    then ShutterState.opened
    else if raw == 2
    then ShutterState.moving
    else ShutterState.unknown

unfoldable pub shutter_state : Client → Firmware → ShutterState
shutter_state c f = if c.stub_shutter then c.stub_state else from_feedback (f.input_regs sh_fb)

-- `presence`; another station is a KeyError.
abbrev pub presence : Firmware → Station → Option Bool
presence f Station.f1 = some (level f.discrete f1_eye_in)
presence f Station.o = some (level f.discrete o_eye_in)
presence f Station.f2 = some (level f.discrete f2_eye_in)
presence f _ = none

abbrev pub handoff : Firmware → (downstream : Bool) → Bool
handoff f downstream = level f.discrete (if downstream then z2_eye_in else z1_eye_in)

abbrev pub feedback_on : Firmware → Station → Bool
feedback_on f station = level f.input_regs (fan_fb station)

unfoldable pub read_inputs : Client → Firmware → ClearCoreInputs
unfolding shutter_state
read_inputs c f = record {
  f1_eye = level f.discrete f1_eye_in;
  o_eye = level f.discrete o_eye_in;
  f2_eye = level f.discrete f2_eye_in;
  z1_eye = level f.discrete z1_eye_in;
  z2_eye = level f.discrete z2_eye_in;
  in_eye = level f.discrete in_eye_in;
  out_eye = level f.discrete out_eye_in;
  in_count = f.input_regs in_count_reg;
  shutter = shutter_state c f;
  f1_fan_on = feedback_on f Station.f1;
  f2_fan_on = feedback_on f Station.f2;
  watchdog_tripped = tripped f;
}
