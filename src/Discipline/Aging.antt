-- ===== src/Discipline/Aging.antt =====
-- The flash discipline while time passes (src/finishing_line/core/timers.py).
use finishing_line.Common.{Dict, List, Option, String, [], arith, inl, inr, lookup, none, some, ◌∷◌}
use finishing_line.Config.{ProcessConfig}
use finishing_line.Discipline.{
  Done, Held, IsDisciplinedIn, IsDone, IsStart, IsUnderWay, MayGo, MayLeave, New, Once, Queued, Raw,
  Ready, Stage, Start, Twice,
}
use finishing_line.Flash.{HasGrown, advance_flash_timers-HasGrown, advance_flash_timers-IsKeyed}
use finishing_line.Machine.{Inputs, observe}
use finishing_line.Model.{Beat, LineState, Move, Occupancy, PartState, Phase, part_of}
use finishing_line.Schedule.{next_beat}
use finishing_line.Timers.{advance_flash_timers, may_leave_fan}

module _ (cfg : ProcessConfig) (m m' : Option PartState) (g : HasGrown m m') where
  Raw-grown : Raw m → Raw m'
  Raw-grown h = ground arith

  New-grown : New m → New m'
  New-grown h = ground arith

  Once-grown : Once m → Once m'
  Once-grown h = ground arith

  Ready-grown : Ready cfg m → Ready cfg m'
  Ready-grown h = ground arith

  Twice-grown : Twice cfg m → Twice cfg m'
  Twice-grown h = ground arith

  MayLeave-grown : MayLeave cfg m → MayLeave cfg m'
  unfolding may_leave_fan
  MayLeave-grown h = ground arith

-- Time passes over a table of parts.
abbrev pub Ages : Dict PartState → Dict PartState → Type 0
Ages parts parts' = (j : String) → HasGrown (lookup j parts) (lookup j parts')

part_of-grown :
    (t : Option String) (parts parts' : Dict PartState)
    → Ages parts parts'
    → HasGrown (part_of t parts) (part_of t parts')
unfolding part_of
part_of-grown none parts parts' a = tt
part_of-grown (some i) parts parts' a = ground (arith, a i)

module _ (cfg : ProcessConfig) (a o b a' o' b' : Option PartState) (ga : HasGrown a a')
    (go : HasGrown o o') (gb : HasGrown b b') where
  Start-grown : (beat : Beat) → Start cfg beat a o b → Start cfg beat a' o' b'
  Start-grown Beat.p1 h =
      (Raw-grown cfg a a' ga h.0, Raw-grown cfg o o' go h.1, Twice-grown cfg b b' gb h.2)
  Start-grown Beat.p2 h = (Raw-grown cfg o o' go h.0, Once-grown cfg b b' gb h.1)
  Start-grown Beat.p3 h = (Once-grown cfg a a' ga h.0, Ready-grown cfg o o' go h.1)
  Start-grown Beat.p4 h =
      (Raw-grown cfg a a' ga h.0, Ready-grown cfg o o' go h.1, Twice-grown cfg b b' gb h.2)

  Done-grown : (beat : Beat) → Done cfg beat a o b → Done cfg beat a' o' b'
  Done-grown Beat.p1 h =
      (Raw-grown cfg a a' ga h.0, Once-grown cfg o o' go h.1, Twice-grown cfg b b' gb h.2)
  Done-grown Beat.p2 h = (Once-grown cfg o o' go h.0, Once-grown cfg b b' gb h.1)
  Done-grown Beat.p3 h = (Once-grown cfg a a' ga h.0, Twice-grown cfg o o' go h.1)
  Done-grown Beat.p4 h =
      (Raw-grown cfg a a' ga h.0, Twice-grown cfg o o' go h.1, Twice-grown cfg b b' gb h.2)

Held-grown :
    (t : Option String) (parts parts' : Dict PartState)
    → Ages parts parts'
    → Held parts t
    → Held parts' t
Held-grown none parts parts' a h = tt
Held-grown (some i) parts parts' a h = ground (arith, a i)

Queued-grown :
    (cfg : ProcessConfig) (queue : List String) (parts parts' : Dict PartState)
    → Ages parts parts'
    → Queued parts queue
    → Queued parts' queue
Queued-grown cfg [] parts parts' a h = tt
Queued-grown cfg (i ∷ queue) parts parts' a h = (
  h.0,
  h.1,
  New-grown cfg (lookup i parts) (lookup i parts') (a i) (h.2),
  Queued-grown cfg queue parts parts' a h.3,
)

module _ (cfg : ProcessConfig) (beat : Beat) (t : Occupancy) (parts parts' : Dict PartState)
    (a : Ages parts parts') where
  IsStart-grown : IsStart cfg beat t parts → IsStart cfg beat t parts'
  IsStart-grown h = (
    h.0,
    Start-grown cfg _ _ _ _ _ _ (part_of-grown t.at_f1 parts parts' a)
        (part_of-grown t.at_o parts parts' a) (part_of-grown t.at_f2 parts parts' a) beat h.1,
  )

  IsDone-grown : IsDone cfg beat t parts → IsDone cfg beat t parts'
  IsDone-grown h = (
    h.0,
    Done-grown cfg _ _ _ _ _ _ (part_of-grown t.at_f1 parts parts' a)
        (part_of-grown t.at_o parts parts' a) (part_of-grown t.at_f2 parts parts' a) beat h.1,
  )

  MayGo-grown : MayGo cfg beat t parts → MayGo cfg beat t parts'
  MayGo-grown h = (
    MayLeave-grown cfg _ _ (part_of-grown t.at_f1 parts parts' a) h.0,
    MayLeave-grown cfg _ _ (part_of-grown t.at_f2 parts parts' a) h.1,
  )

module _ (cfg : ProcessConfig) (beat : Beat) (t : Occupancy) (parts parts' : Dict PartState)
    (queue : List String) (moves : List Move) (a : Ages parts parts') where
  IsUnderWay-grown :
      IsUnderWay cfg beat t parts queue moves → IsUnderWay cfg beat t parts' queue moves
  IsUnderWay-grown (inl e) = inl e
  IsUnderWay-grown (inr (feed, e, f, g)) = inr (feed, e, f, MayGo-grown cfg beat t parts parts' a g)

  pub Stage-grown :
      (phase : Phase)
      → Stage phase cfg beat t parts queue moves
      → Stage phase cfg beat t parts' queue moves
  Stage-grown Phase.robot_work (e, inl h) = (e, inl (IsStart-grown cfg beat t parts parts' a h))
  Stage-grown Phase.robot_work (e, inr h) = (e, inr (IsDone-grown cfg beat t parts parts' a h))
  Stage-grown Phase.await_guards h = (h.0, IsDone-grown cfg beat t parts parts' a h.1)
  Stage-grown Phase.shutter_open h = (h.0, IsDone-grown cfg beat t parts parts' a h.1)
  Stage-grown Phase.moving h = (IsUnderWay-grown h.0, IsDone-grown cfg beat t parts parts' a h.1)
  Stage-grown Phase.shutter_close h = (h.0, IsStart-grown cfg (next_beat beat) t parts parts' a h.1)
  Stage-grown Phase.set_fans h = (h.0, IsStart-grown cfg (next_beat beat) t parts parts' a h.1)
  Stage-grown Phase.faulted h = absurd h

-- Looking at the world and at the clock keeps the discipline.
pub observe-IsDisciplined :
    (phase : Phase) (cfg : ProcessConfig) (s : LineState) (i : Inputs)
    → IsDisciplinedIn phase cfg s
    → IsDisciplinedIn phase cfg (observe s i cfg)
unfolding observe
observe-IsDisciplined phase cfg s i d =
    let a : Ages s.parts (advance_flash_timers s i.dt cfg) =
      λ j. advance_flash_timers-HasGrown s i.dt cfg j d.keyed in
    record {
      keyed = advance_flash_timers-IsKeyed s i.dt cfg d.keyed;
      slots = d.slots;
      held = (
        Held-grown s.occupancy.at_f1 s.parts _ a (d.held.0),
        Held-grown s.occupancy.at_o s.parts _ a (d.held.1),
        Held-grown s.occupancy.at_f2 s.parts _ a (d.held.2),
      );
      queued = Queued-grown cfg s.in_queue s.parts _ a d.queued;
      stage = Stage-grown cfg s.beat s.occupancy s.parts _ s.in_queue s.in_flight a phase d.stage;
    }
