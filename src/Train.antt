-- ===== src/Train.antt =====
-- src/finishing_line/process/train.py: the two belts' handoff. A device call returns or raises; which
-- of them it does is an argument, and the calls that were made are the result.
pub mod Handoff
pub mod Stops
use finishing_line.Common.{
  Bool, List, Option, [], false, if◌then◌else◌, is_some, none, not, some, true, ◌&&◌, ◌++◌, ◌||◌,
  ◌∷◌,
}
use finishing_line.Discipline.Shift.{fed}
use finishing_line.Guards.{shift}
use finishing_line.Model.{Direction, Move, Station, Zone, has_move, is_station}

-- src/finishing_line/devices/registers.py: the sensor that stops a belt.
pub data SensorTarget : Type 0 where
  f1_seen o_seen f2_seen z1_seen z2_seen : SensorTarget

-- A belt stops at an edge of a sensor, the falling one or the rising one.
abbrev pub Stop : Type 0
Stop = SensorTarget × Bool

pub record Targets : Type 0 where
  pub for_z1 : Option Stop
  pub for_z2 : Option Stop

unfoldable pub downstream_targets : List Move → Targets
unfolding has_move
downstream_targets moves =
    let crossing = has_move Station.f1 Station.o moves in
    record {
      for_z1 =
          if has_move Station.inq Station.f1 moves
          then some (f1_seen, false)
          else if crossing
          then some (z2_seen, false)
          else none;
      for_z2 =
          if has_move Station.o Station.f2 moves
          then some (f2_seen, false)
          else if has_move Station.f2 Station.out moves
          then some (f2_seen, true)
          else if crossing
          then some (o_seen, false)
          else none;
    }

unfoldable pub upstream_targets : List Move → Targets
unfolding has_move
upstream_targets moves =
    let crossing = has_move Station.o Station.f1 moves in
    record {
      for_z1 = if crossing then some (f1_seen, false) else none;
      for_z2 =
          if has_move Station.f2 Station.o moves
          then some (o_seen, false)
          else if crossing
          then some (z1_seen, false)
          else none;
    }

-- `_zone_targets`
unfoldable pub zone_targets : List Move → Direction → Targets
unfolding downstream_targets upstream_targets
zone_targets moves Direction.downstream = downstream_targets moves
zone_targets moves Direction.upstream = upstream_targets moves

-- The calls that `advance` makes; `wait_pattern` waits for parts at some stations and none at others.
pub data BeltCall : Type 0 where
  set_feed_conveyor : Bool → BeltCall
  move_zone_until : Zone → Direction → Stop → BeltCall
  wait_zone_ready : Zone → BeltCall
  wait_pattern : (present absent : List Station) → BeltCall
  belt_idle : Zone → BeltCall

-- The calls of a block: each is made if those before it have returned.
unfoldable pub run_calls : (BeltCall → Bool) → List BeltCall → List BeltCall × Bool
run_calls returns [] = ([], true)
run_calls returns (c ∷ calls) =
    let (made, ended) = run_calls returns calls in
    if returns c then (c ∷ made, ended) else (c ∷ [], false)

abbrev zone_call : (Stop → BeltCall) → Option Stop → List BeltCall
zone_call f none = []
zone_call f (some stop) = f stop ∷ []

abbrev pub per_zone : (Zone → Stop → BeltCall) → Targets → List BeltCall
per_zone call targets =
    zone_call (call Zone.z1) targets.for_z1 ++ zone_call (call Zone.z2) targets.for_z2

-- The destinations on the line, and the sources that are no destination; a move that stands twice
-- would be listed twice here, and once in the code's sets.
unfoldable pub destinations : List Move → List Station
destinations [] = []
destinations ((src, dst) ∷ moves) =
    let rest = destinations moves in if is_station dst Station.out then rest else dst ∷ rest

abbrev pub any_station : Station → List Station → Bool
any_station s [] = false
any_station s (t ∷ ts) = is_station s t || any_station s ts

abbrev pub is_watched : Station → Bool
is_watched station =
    is_station station Station.f1 || is_station station Station.o || is_station station Station.f2

unfoldable pub source_only : List Station → List Move → List Station
source_only dests [] = []
source_only dests ((src, dst) ∷ moves) =
    let rest = source_only dests moves in
    if is_watched src && not (any_station src dests) then src ∷ rest else rest

-- `_wait`, over the polls before the deadline: what a poll of the presences sees, or `none` for one
-- that raises. It returns at the first poll that shows a part at each of `present` and none at each
-- of `absent`, and raises when no poll does.
abbrev pub Presence : Type 0
Presence = Station → Bool

unfoldable pub all_present : Presence → List Station → Bool
all_present shows [] = true
all_present shows (s ∷ stations) = shows s && all_present shows stations

unfoldable pub any_present : Presence → List Station → Bool
any_present shows [] = false
any_present shows (s ∷ stations) = shows s || any_present shows stations

abbrev pub matches : List Station → List Station → Presence → Bool
matches present absent shows = all_present shows present && not (any_present shows absent)

unfoldable pub wait_for : List Station → List Station → List (Option Presence) → Bool
unfolding all_present any_present
wait_for present absent [] = false
wait_for present absent (none ∷ polls) = false
wait_for present absent (some shows ∷ polls) =
    let rest = wait_for present absent polls in if matches present absent shows then true else rest

-- Whether a call returns: the wait by its polls, the others as the devices have it.
abbrev pub answered : (BeltCall → Bool) → List (Option Presence) → BeltCall → Bool
answered returns polls (wait_pattern present absent) = wait_for present absent polls
answered returns polls c = returns c

-- What stands under `try`, and under `finally`.
abbrev pub manoeuvre : Direction → List Move → Targets → List BeltCall
manoeuvre direction moves targets =
    let dests = destinations moves in
    per_zone (λ zone stop. move_zone_until zone direction stop) targets
    ++ per_zone (λ zone stop. wait_zone_ready zone) targets
    ++ wait_pattern dests (source_only dests moves) ∷ []

abbrev pub closing : Bool → Targets → List BeltCall
closing feeding targets =
    (if feeding then set_feed_conveyor false ∷ [] else [])
    ++ per_zone (λ zone stop. belt_idle zone) targets

-- The block and the calls after it, which are made whether it raised or not.
abbrev pub try_finally : List BeltCall × Bool → List BeltCall × Bool → List BeltCall × Bool
try_finally (made, ended) (closed, shut) = (made ++ closed, ended && shut)

abbrev pub any_target : Targets → Bool
any_target targets = is_some targets.for_z1 || is_some targets.for_z2

-- The branches of `advance`: no stop target is an error, and the feed belt is switched on before the
-- block, whose `finally` does not cover that call.
abbrev pub branches : (some_target feeding fed : Bool) → List BeltCall × Bool → List BeltCall × Bool
branches false feeding fed shift = ([], false)
branches true false fed shift = shift
branches true true true (made, ended) = (set_feed_conveyor true ∷ made, ended)
branches true true false shift = (set_feed_conveyor true ∷ [], false)

-- The calls that were made, and `false` if it raised.
unfoldable pub advance :
    (BeltCall → Bool) → List (Option Presence) → Direction → List Move → List BeltCall × Bool
unfolding zone_targets run_calls destinations source_only has_move wait_for
advance returns polls direction [] = ([], true)
advance returns polls direction (m ∷ ms) =
    let moves = m ∷ ms in
    let targets = zone_targets moves direction in
    let feeding = has_move Station.inq Station.f1 moves in
    branches (any_target targets) feeding (returns (set_feed_conveyor true)) (
      try_finally (run_calls (answered returns polls) (manoeuvre direction moves targets))
        (run_calls (answered returns polls) (closing feeding targets)))
