-- ===== src/Guards.antt =====
-- src/finishing_line/core/guards.py: the interlocks. Each gives the reason by which it blocks.
use finishing_line.Common.{
  Bool, List, Option, [], false, if◌then◌else◌, is_some, none, not, some, true, ◌&&◌, ◌||◌, ◌∷◌,
}
use finishing_line.Config.{ProcessConfig}
use finishing_line.Model.{
  FanState, LineState, Move, PartState, Reason, SensorSnapshot, ShutterState, Station, StationSet,
  active_flash_seconds, get, has_move, is_station, part_at, set,
}
use finishing_line.Timers.{may_leave_fan}

abbrev pub is_open : ShutterState → Bool
is_open ShutterState.opened = true
is_open _ = false

abbrev pub is_closed : ShutterState → Bool
is_closed ShutterState.closed = true
is_closed _ = false

abbrev pub is_on : FanState → Bool
is_on FanState.on = true
is_on FanState.off = false

abbrev pub is_fan_station : Station → Bool
is_fan_station station = is_station station Station.f1 || is_station station Station.f2

-- Why the part that a move takes along may not leave.
unfoldable pub leave_blocked : Station → Option PartState → ProcessConfig → Option Reason
unfolding may_leave_fan active_flash_seconds
leave_blocked source none cfg = none
leave_blocked source (some p) cfg =
    if is_fan_station source && not (may_leave_fan p cfg)
    then some (Reason.under_flashed p.part_id (active_flash_seconds p) cfg.flash_seconds source)
    else none

abbrev pub or_else {ℓ} : {A : Type ℓ} → Option A → Option A → Option A
or_else (some a) next = some a
or_else none next = next

-- The stations that are taken after a move from `source` to `dest`.
abbrev pub shift : StationSet → Station → Station → StationSet
shift occupied source dest =
    let left = set source false occupied in
    if is_station dest Station.out then left else set dest true left

-- The loop over the moves.
unfoldable pub walk_blocked : LineState → ProcessConfig → StationSet → List Move → Option Reason
unfolding leave_blocked part_at
walk_blocked s cfg occupied [] = none
walk_blocked s cfg occupied ((source, dest) ∷ moves) =
    let rest = walk_blocked s cfg (shift occupied source dest) moves in
    if not (is_station dest Station.out) && get (set source false occupied) dest
    then some (Reason.destination_occupied dest)
    else or_else (leave_blocked source (part_at s source) cfg) rest

unfoldable pub departure_blocked :
    LineState → SensorSnapshot → ProcessConfig → List Move → Option Reason
unfolding walk_blocked has_move
departure_blocked s sensors cfg moves =
    if not sensors.robot_clear
    then some Reason.robot_not_clear
    else if sensors.gun_on
    then some Reason.gun_live
    else if has_move Station.inq Station.f1 moves && not sensors.in_eye
    then some Reason.queue_head_empty
    else if has_move Station.f2 Station.out moves && sensors.out_eye
    then some Reason.outfeed_occupied
    else walk_blocked s cfg sensors.occupied moves

unfoldable pub zone_motion_blocked :
    LineState → SensorSnapshot → ProcessConfig → List Move → Option Reason
unfolding departure_blocked
zone_motion_blocked s sensors cfg moves =
    if is_open sensors.shutter
    then departure_blocked s sensors cfg moves
    else some (Reason.shutter_not_open sensors.shutter)

unfoldable pub spray_station_not_ready : LineState → SensorSnapshot → ProcessConfig → Option Reason
unfolding part_at
spray_station_not_ready s sensors cfg =
    if not (is_closed sensors.shutter)
    then some (Reason.shutter_not_closed sensors.shutter)
    else if not sensors.occupied.at_o
    then some Reason.no_part_at_o
    else if is_some (part_at s Station.o)
    then none
    else some Reason.no_part_recorded_at_o

-- The clause on a wet part at F1.
abbrev pub wet_blocked : Option PartState → FanState → Option Reason
wet_blocked none fan = none
wet_blocked (some p) fan =
    if p.is_wet && is_on fan then some (Reason.wet_part_at_f1 p.part_id) else none

unfoldable pub spray_blocked : LineState → SensorSnapshot → ProcessConfig → Option Reason
unfolding spray_station_not_ready part_at
spray_blocked s sensors cfg =
    or_else (spray_station_not_ready s sensors cfg)
      (wet_blocked (part_at s Station.f1) sensors.f1_fan)

abbrev pub mismatch_at : LineState → SensorSnapshot → Station → Option Reason
mismatch_at s sensors station =
    let expected = is_some (get s.occupancy station) in
    let observed = get sensors.occupied station in
    if expected
    then (if observed then none else some (Reason.sensor_mismatch station expected observed))
    else (if observed then some (Reason.sensor_mismatch station expected observed) else none)

unfoldable pub occupancy_mismatch : LineState → SensorSnapshot → Option Reason
occupancy_mismatch s sensors =
    or_else (mismatch_at s sensors Station.f1)
      (or_else (mismatch_at s sensors Station.o) (mismatch_at s sensors Station.f2))
