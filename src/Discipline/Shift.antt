-- ===== src/Discipline/Shift.antt =====
-- The moves of a beat, and what they make of the occupancy map (`_live_moves`, `_apply_moves`).
use finishing_line.Common.{
  Bool, Dict, List, Option, String, arith, false, is_empty, none, not, remove, some, true, ◌∷◌, ◌≡◌,
}
use finishing_line.Discipline.{Feeds, NonEmpty, Slots, Vacant, plan}
use finishing_line.Machine.{apply_moves, live_moves}
use finishing_line.Model.{Beat, LineState, Occupancy, PartState}

-- The live moves are those of the plan.
pub live_moves-plan :
    (s : LineState)
    → s.occupancy.at_in ≡ none
    → live_moves s ≡ plan s.beat s.occupancy (not (is_empty s.in_queue))
unfolding live_moves
live_moves-plan s e = ground arith

abbrev pub gone : Option String → Dict PartState → Dict PartState
gone none parts = parts
gone (some i) parts = remove i parts

abbrev pub fed : Bool → List String → Option String
fed true (i ∷ queue) = some i
fed _ _ = none

abbrev pub left : Bool → List String → List String
left true (i ∷ queue) = queue
left _ queue = queue

-- Where the parts are after the moves of a beat.
abbrev pub shifted_occupancy : Beat → Occupancy → Option String → Occupancy
shifted_occupancy Beat.p1 t entering = record {
  at_in = none;
  at_f1 = none;
  at_o = t.at_f1;
  at_f2 = t.at_o;
  at_out = none;
}
shifted_occupancy Beat.p2 t entering = record {
  at_in = none;
  at_f1 = t.at_o;
  at_o = t.at_f2;
  at_f2 = none;
  at_out = none;
}
shifted_occupancy _ t entering = record {
  at_in = none;
  at_f1 = entering;
  at_o = t.at_f1;
  at_f2 = t.at_o;
  at_out = none;
}

abbrev pub takes_in : Beat → Bool → Bool
takes_in Beat.p1 feed = false
takes_in Beat.p2 feed = false
takes_in _ feed = feed

abbrev pub shifted_parts : Beat → Occupancy → Dict PartState → Dict PartState
shifted_parts Beat.p1 t parts = gone t.at_f2 parts
shifted_parts Beat.p4 t parts = gone t.at_f2 parts
shifted_parts _ t parts = parts

abbrev pub shifted : LineState → Bool → LineState
shifted s feed = record s {
  occupancy = shifted_occupancy s.beat s.occupancy (fed feed s.in_queue);
  in_queue = left (takes_in s.beat feed) s.in_queue;
  parts = shifted_parts s.beat s.occupancy s.parts;
}

shift_on :
    (s : LineState) (beat : Beat) (feed : Bool) (queue : List String) (a m b : Option String)
    → NonEmpty a
    → NonEmpty m
    → NonEmpty b
    → let t : Occupancy = record { at_in = none; at_f1 = a; at_o = m; at_f2 = b; at_out = none } in
      Vacant beat t
      → Feeds feed queue
      → let u = record s { beat = beat; occupancy = t; in_queue = queue } in
        apply_moves u (plan beat t feed) ≡ shifted u feed
unfolding apply_moves
shift_on s Beat.p1 feed queue a m b ia im ib v f = ground arith
shift_on s Beat.p2 feed queue a m b ia im ib v f = ground arith
shift_on s Beat.p3 feed queue a m b ia im ib v f = ground arith
shift_on s Beat.p4 feed queue a m b ia im ib v f = ground arith

-- The moves of the plan shift every part by one station, and take the part at F2 off the line
-- where the beat says so.
pub apply_moves-plan :
    (s : LineState) (feed : Bool)
    → Slots s.occupancy s.in_queue
    → Vacant s.beat s.occupancy
    → Feeds feed s.in_queue
    → apply_moves s (plan s.beat s.occupancy feed) ≡ shifted s feed
apply_moves-plan s feed w v f =
    ground (
      arith,
      shift_on s s.beat feed s.in_queue s.occupancy.at_f1 s.occupancy.at_o s.occupancy.at_f2,
    )
