-- ===== src/Machine/Moves.antt =====
-- src/finishing_line/core/machine.py: the live moves of a beat, and the shift of the occupancy map.
use finishing_line.Common.{
  Bool, List, Option, String, [], false, if◌then◌else◌, is_empty, none, not, remove, some, truthy,
  ◌&&◌, ◌||◌, ◌∷◌,
}
use finishing_line.Model.{LineState, Move, Station, StationSet, get, is_station, set}
use finishing_line.Schedule.{transitions}

-- A move stays in the transition if its source holds a part.
unfoldable pub is_live : LineState → Station → Bool
is_live s src =
    is_station src Station.inq && not (is_empty s.in_queue) || truthy (get s.occupancy src)

unfoldable pub live_of : LineState → List Move → List Move
unfolding is_live
live_of s [] = []
live_of s ((src, dst) ∷ moves) =
    if is_live s src then (src, dst) ∷ live_of s moves else live_of s moves

unfoldable pub live_moves : LineState → List Move
unfolding live_of transitions
live_moves s = live_of s (transitions s.beat).moves

-- A part arrives at `dst`.
unfoldable pub arrive : LineState → Station → String → LineState
arrive s dst part_id =
    if is_station dst Station.out
    then record s { parts = remove part_id s.parts }
    else record s { occupancy = set dst (some part_id) s.occupancy }

unfoldable pub from_queue : List String → LineState → Station → LineState
unfolding arrive
from_queue [] s dst = s
from_queue (part_id ∷ rest) s dst = arrive (record s { in_queue = rest }) dst part_id

unfoldable pub from_station : Option String → LineState → Station → Station → LineState
unfolding arrive
from_station none s src dst = record s { occupancy = set src none s.occupancy }
from_station (some part_id) s src dst =
    arrive (record s { occupancy = set src none s.occupancy }) dst part_id

unfoldable pub apply_move : LineState → Station → Station → LineState
unfolding from_queue from_station
apply_move s src dst =
    if is_station src Station.inq
    then from_queue s.in_queue s dst
    else from_station (get s.occupancy src) s src dst

unfoldable pub apply_moves : LineState → List Move → LineState
unfolding apply_move
apply_moves s [] = s
apply_moves s ((src, dst) ∷ moves) = apply_moves (apply_move s src dst) moves

-- Whether a set of moves brings a part to a station.
unfoldable pub arrives_at : Station → List Move → Bool
arrives_at station [] = false
arrives_at station ((src, dst) ∷ moves) = is_station dst station || arrives_at station moves

abbrev pub missing_at : StationSet → List Move → Station → List Station → List Station
missing_at occupied moves station more =
    if arrives_at station moves && not (get occupied station) then station ∷ more else more

-- The stations that should have a part and have none, by their names' order; OUT does not count.
unfoldable pub missing : StationSet → List Move → List Station
unfolding arrives_at
missing occupied moves = missing_at occupied moves Station.f1 (
    missing_at occupied moves Station.f2
      (missing_at occupied moves Station.inq (missing_at occupied moves Station.o [])))
