-- ===== src/Firmware/Zones.antt =====
-- The zones' motors in a pass of the firmware's loop (src/finishing_line/sim/fake_clearcore.py:
-- `_tick`).
use finishing_line.Common.{
  Bool, Option, if◌then◌else◌, none, not, same, some, ℕ, ◌%◌, ◌&&◌, ◌*◌, ◌-◌, ◌/◌, ◌==◌,
}
use finishing_line.Firmware.Types.{
  Deadline, EdgeWatch, Table, Timing, ZoneBlock, level, poke, reached,
}
use finishing_line.Model.{Zone}
use finishing_line.Registers.{
  f1_eye_in, f2_eye_in, mode_continuous, mode_distance, mode_idle, mode_sensor_stop, o_eye_in,
  state_moving, state_ready, velocity_reg, z1_eye_in, z2_eye_in, zone_regs,
}

-- The sensor and the edge of a stop target; `none` is the ValueError of a code that names no sensor.
abbrev pub falling_bit : ℕ → ℕ
falling_bit raw = raw / 8 % 2

abbrev pub sensor_reg : ℕ → Option ℕ
sensor_reg code =
    if code == 1
    then some f1_eye_in
    else if code == 2
    then some o_eye_in
    else if code == 3
    then some f2_eye_in
    else if code == 4
    then some z1_eye_in
    else if code == 5
    then some z2_eye_in
    else none

-- What a zone's motor reads: the registers that a pass does not change.
abbrev pub stopped_zone : ZoneBlock → ZoneBlock
stopped_zone z = record z { move_done_at = none; edge_watch = none }

-- A motion to a sensor's edge begins.
unfoldable pub arm_edge :
    Zone → Option ℕ → Bool → ℕ → Table → Table → ZoneBlock → Option (ZoneBlock × Table)
arm_edge zone none want_rising reqid discrete inputs z = none
arm_edge zone (some sensor) want_rising reqid discrete inputs z = some (
  record z {
    last_reqid = reqid;
    edge_watch =
        some (record {
          sensor = sensor;
          want_rising = want_rising;
          last_seen = level discrete sensor;
        });
  },
  poke (zone_regs zone).ack reqid (poke (zone_regs zone).state state_moving inputs),
)

-- A motion to a sensor's edge goes on, or ends.
unfoldable pub watch_edge : Zone → Option EdgeWatch → Table → Table → ZoneBlock → ZoneBlock × Table
watch_edge zone none discrete inputs z = (z, inputs)
watch_edge zone (some w) discrete inputs z =
    let seen = level discrete w.sensor in
    if not (same seen w.last_seen) && same seen w.want_rising
    then (record z { edge_watch = none }, poke (zone_regs zone).state state_ready inputs)
    else (record z { edge_watch = some (record w { last_seen = seen }) }, inputs)

unfoldable pub sensor_stop_tick :
    Zone → Table → Table → Table → ZoneBlock → Option (ZoneBlock × Table)
unfolding arm_edge watch_edge
sensor_stop_tick zone holding discrete inputs z =
    let reqid = holding (zone_regs zone).reqid in
    let raw = holding (zone_regs zone).target in
    if not (reqid == z.last_reqid)
    then arm_edge zone (sensor_reg (raw - 8 * falling_bit raw)) (falling_bit raw == 0) reqid
        discrete inputs z
    else some (watch_edge zone z.edge_watch discrete inputs z)

-- A motion by a distance.
unfoldable pub run_distance :
    Zone → Timing → ℕ → Option Deadline → Table → ZoneBlock → ZoneBlock × Table
run_distance zone timing now none inputs z = (z, inputs)
run_distance zone timing now (some deadline) inputs z =
    if reached timing now deadline
    then (record z { move_done_at = none }, poke (zone_regs zone).state state_ready inputs)
    else (z, inputs)

abbrev pub velocity_of : Timing → Table → ℕ
velocity_of timing holding =
    if holding velocity_reg == 0 then timing.default_velocity else holding velocity_reg

unfoldable pub distance_tick : Zone → Timing → ℕ → Table → Table → ZoneBlock → ZoneBlock × Table
unfolding run_distance
distance_tick zone timing now holding inputs z =
    let reqid = holding (zone_regs zone).reqid in
    if not (reqid == z.last_reqid)
    then (
      record z {
        last_reqid = reqid;
        move_done_at = some (record {
          armed_at = now;
          steps = holding (zone_regs zone).distance;
          velocity = velocity_of timing holding;
        });
      },
      poke (zone_regs zone).ack reqid (poke (zone_regs zone).state state_moving inputs),
    )
    else run_distance zone timing now z.move_done_at inputs z

-- One zone in a pass: its motor's state, and the input registers.
unfoldable pub zone_tick :
    Zone → Timing → ℕ → Bool → Table → Table → Table → ZoneBlock → Option (ZoneBlock × Table)
unfolding sensor_stop_tick distance_tick
zone_tick zone timing now halted holding discrete inputs z =
    let mode = holding (zone_regs zone).mode in
    if halted
    then some (stopped_zone z, poke (zone_regs zone).state state_ready inputs)
    else if mode == mode_continuous
    then some (stopped_zone z, poke (zone_regs zone).state state_moving inputs)
    else if mode == mode_idle
    then some (stopped_zone z, poke (zone_regs zone).state state_ready inputs)
    else if mode == mode_distance
    then some (distance_tick zone timing now holding inputs z)
    else if mode == mode_sensor_stop
    then sensor_stop_tick zone holding discrete inputs z
    else some (z, inputs)
