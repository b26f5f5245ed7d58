-- ===== src/Discipline/Departure.antt =====
-- The departure guard on the moves of a beat (src/finishing_line/core/guards.py).
use finishing_line.Common.{Bool, arith, none, ◌≡◌}
use finishing_line.Config.{ProcessConfig}
use finishing_line.Discipline.{MayGo, Vacant, plan}
use finishing_line.Guards.{departure_blocked, walk_blocked}
use finishing_line.Model.{Beat, LineState, SensorSnapshot, StationSet}

walk-MayGo :
    (s : LineState) (cfg : ProcessConfig) (taken : StationSet) (beat : Beat) (feed : Bool)
    → Vacant beat s.occupancy
    → walk_blocked s cfg taken (plan beat s.occupancy feed) ≡ none
    → MayGo cfg beat s.occupancy s.parts
unfolding walk_blocked
walk-MayGo s cfg taken Beat.p1 feed v h = ground arith
walk-MayGo s cfg taken Beat.p2 feed v h = ground arith
walk-MayGo s cfg taken Beat.p3 feed v h = ground arith
walk-MayGo s cfg taken Beat.p4 feed v h = ground arith

-- If the guard lets the beat's moves go, every part at a fan has banked its flash.
pub departure-MayGo :
    (s : LineState) (sensors : SensorSnapshot) (cfg : ProcessConfig) (feed : Bool)
    → Vacant s.beat s.occupancy
    → departure_blocked s sensors cfg (plan s.beat s.occupancy feed) ≡ none
    → MayGo cfg s.beat s.occupancy s.parts
unfolding departure_blocked
departure-MayGo s sensors cfg feed v h =
    ground (arith, walk-MayGo s cfg sensors.occupied s.beat feed v)
