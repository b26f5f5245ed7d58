-- ===== src/Schedule.antt =====
-- src/finishing_line/core/schedule.py: the four beats and the transitions between them, as tables.
use finishing_line.Common.{Bool, List, [], false, true, ℕ, ◌∷◌}
use finishing_line.Model.{Beat, Direction, FanState, Move, PartRole, ShutterState, Station}

unfoldable pub next_beat : Beat → Beat
next_beat Beat.p1 = Beat.p2
next_beat Beat.p2 = Beat.p3
next_beat Beat.p3 = Beat.p4
next_beat Beat.p4 = Beat.p1

pub record RobotWork : Type 0 where
  pub role : PartRole
  pub coat : ℕ
  pub clean_gun : Bool
  pub nominal_s : ℕ

pub record BeatSpec : Type 0 where
  pub robot : RobotWork
  pub f1_fan : FanState
  pub f2_fan : FanState
  pub shutter : ShutterState
  pub f1_fan_pauses_during_spray : Bool

unfoldable pub schedule : Beat → BeatSpec
schedule Beat.p1 = record {
  robot = record { role = PartRole.lead; coat = 1; clean_gun = false; nominal_s = 90 };
  f1_fan = FanState.off;
  f2_fan = FanState.on;
  shutter = ShutterState.closed;
  f1_fan_pauses_during_spray = false;
}
schedule Beat.p2 = record {
  robot = record { role = PartRole.trail; coat = 1; clean_gun = false; nominal_s = 90 };
  f1_fan = FanState.off;
  f2_fan = FanState.on;
  shutter = ShutterState.closed;
  f1_fan_pauses_during_spray = false;
}
schedule Beat.p3 = record {
  robot = record { role = PartRole.lead; coat = 2; clean_gun = true; nominal_s = 45 };
  f1_fan = FanState.on;
  f2_fan = FanState.off;
  shutter = ShutterState.closed;
  f1_fan_pauses_during_spray = true;
}
schedule Beat.p4 = record {
  robot = record { role = PartRole.trail; coat = 2; clean_gun = true; nominal_s = 45 };
  f1_fan = FanState.off;
  f2_fan = FanState.on;
  shutter = ShutterState.closed;
  f1_fan_pauses_during_spray = false;
}

pub record Transition : Type 0 where
  pub direction : Direction
  pub moves : List Move

unfoldable pub transitions : Beat → Transition
transitions Beat.p1 = record {
  direction = Direction.downstream;
  moves = (Station.f2, Station.out) ∷ (Station.o, Station.f2) ∷ (Station.f1, Station.o) ∷ [];
}
transitions Beat.p2 = record {
  direction = Direction.upstream;
  moves = (Station.o, Station.f1) ∷ (Station.f2, Station.o) ∷ [];
}
transitions Beat.p3 = record {
  direction = Direction.downstream;
  moves = (Station.o, Station.f2) ∷ (Station.f1, Station.o) ∷ (Station.inq, Station.f1) ∷ [];
}
transitions Beat.p4 = record {
  direction = Direction.downstream;
  moves =
      (Station.f2, Station.out)
      ∷ (Station.o, Station.f2)
      ∷ (Station.f1, Station.o)
      ∷ (Station.inq, Station.f1)
      ∷ [];
}

-- The beats whose transition takes a part off the line.
unfoldable pub outfeed_transitions : Beat → Bool
outfeed_transitions Beat.p1 = true
outfeed_transitions Beat.p4 = true
outfeed_transitions _ = false
