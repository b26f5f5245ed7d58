-- ===== src/Discipline/Work.antt =====
-- The flash discipline and the robot's work (src/finishing_line/core/machine.py: `_robot_work`).
use finishing_line.Common.{
  Dict, List, Option, String, [], arith, contains, eq_iff, false, inl, inr, insert, leb, lookup,
  lookup-insert, none, refl, some, subst, true, ◌===◌, ◌∷◌, ◌≡◌, ◌⊎◌,
}
use finishing_line.Config.{ProcessConfig}
use finishing_line.Discipline.{
  Apart, Done, Held, Holds, IsDisciplinedIn, IsDone, IsStart, Outside, Queued, Start, Vacant,
}
use finishing_line.Discipline.Arrival.{Apart-sym}
use finishing_line.Flash.{IsKeyed}
use finishing_line.Model.{Beat, LineState, Occupancy, PartState, Phase, part_of}
use finishing_line.Schedule.{schedule}

part_of-insert_ne :
    (k : Option String) (i : String) (q : PartState) (parts : Dict PartState)
    → Apart (some i) k
    → part_of k (insert i q parts) ≡ part_of k parts
unfolding part_of
part_of-insert_ne none i q parts h = refl
part_of-insert_ne (some j) i q parts h = ground (arith, lookup-insert i j q parts)

part_of-insert_eq :
    (i : String) (q : PartState) (parts : Dict PartState)
    → (i === "") ≡ false
    → part_of (some i) (insert i q parts) ≡ some q
unfolding part_of
part_of-insert_eq i q parts h = ground (arith, lookup-insert i i q parts, eq_iff i i)

Queued-insert :
    (i : String) (q : PartState) (parts : Dict PartState) (queue : List String)
    → contains i queue ≡ false
    → Queued parts queue
    → Queued (insert i q parts) queue
Queued-insert i q parts [] w h = tt
Queued-insert i q parts (j ∷ queue) w h =
    ground (arith, lookup-insert i j q parts, Queued-insert i q parts queue)

Held-insert :
    (t : Option String) (i : String) (q : PartState) (parts : Dict PartState)
    → Held parts t
    → Held (insert i q parts) t
Held-insert none i q parts h = tt
Held-insert (some j) i q parts h = ground (arith, lookup-insert i j q parts)

IsKeyed-insert :
    (i : String) (q : PartState) (parts : Dict PartState)
    → q.part_id ≡ i
    → IsKeyed parts
    → IsKeyed (insert i q parts)
IsKeyed-insert i q parts e k j p h = ground (arith, lookup-insert i j q parts, eq_iff i j, k j p)

-- The part with the beat's coat on it.
abbrev pub sprayed : Beat → PartState → PartState
sprayed beat p = record p { coats_applied = (schedule beat).robot.coat; is_wet = true }

-- A part found at a station stands there, and in the table, under its own id.
pub part_of-found :
    (t : Option String) (parts : Dict PartState) (p : PartState)
    → IsKeyed parts
    → part_of t parts ≡ some p
    → (t ≡ some p.part_id) × ((p.part_id === "") ≡ false) × (lookup p.part_id parts ≡ some p)
unfolding part_of
part_of-found none parts p k e = absurd (ground arith)
part_of-found (some i) parts p k e = ground (arith, k i p)

Done-sprayed :
    (cfg : ProcessConfig) (beat : Beat) (a b : Option PartState) (p : PartState)
    → leb (schedule beat).robot.coat p.coats_applied ≡ false
    → Start cfg beat a (some p) b ⊎ Done cfg beat a (some p) b
    → Done cfg beat a (some (sprayed beat p)) b
unfolding schedule
Done-sprayed cfg Beat.p1 a b p less h = ground arith
Done-sprayed cfg Beat.p2 a b p less h = ground arith
Done-sprayed cfg Beat.p3 a b p less h = ground arith
Done-sprayed cfg Beat.p4 a b p less h = ground arith

Done-idle :
    (cfg : ProcessConfig) (beat : Beat) (a m b : Option PartState)
    → (m ≡ none)
      ⊎ ((p : PartState) × (m ≡ some p) × (leb (schedule beat).robot.coat p.coats_applied ≡ true))
    → Start cfg beat a m b ⊎ Done cfg beat a m b
    → Done cfg beat a m b
unfolding schedule
Done-idle cfg Beat.p1 a m b idle h = ground arith
Done-idle cfg Beat.p2 a m b idle h = ground arith
Done-idle cfg Beat.p3 a m b idle h = ground arith
Done-idle cfg Beat.p4 a m b idle h = ground arith

pub begun :
    (cfg : ProcessConfig) (beat : Beat) (t : Occupancy) (parts : Dict PartState)
    → IsStart cfg beat t parts ⊎ IsDone cfg beat t parts
    → Vacant beat t
      × (Start cfg beat (part_of t.at_f1 parts) (part_of t.at_o parts) (part_of t.at_f2 parts)
          ⊎ Done cfg beat (part_of t.at_f1 parts) (part_of t.at_o parts) (part_of t.at_f2 parts))
begun cfg beat t parts (inl h) = (h.0, inl h.1)
begun cfg beat t parts (inr h) = (h.0, inr h.1)

-- The discipline when the robot has put the beat's coat on the part at O.
pub Holds-sprayed :
    (cfg : ProcessConfig) (s : LineState) (p : PartState)
    → IsDisciplinedIn Phase.robot_work cfg s
    → part_of s.occupancy.at_o s.parts ≡ some p
    → leb (schedule s.beat).robot.coat p.coats_applied ≡ false
    → Holds Phase.await_guards cfg s.beat s.occupancy
        (insert p.part_id (sprayed s.beat p) s.parts)
        s.in_queue
        s.in_flight
Holds-sprayed cfg s p d here less =
    let q = sprayed s.beat p in
    let (at_o, id, found) = part_of-found s.occupancy.at_o s.parts p d.keyed here in
    let (vacant, started) = begun cfg s.beat s.occupancy s.parts d.stage.1 in
    record {
      keyed = IsKeyed-insert p.part_id q s.parts refl d.keyed;
      slots = d.slots;
      held = (
        Held-insert s.occupancy.at_f1 p.part_id q s.parts (d.held.0),
        Held-insert s.occupancy.at_o p.part_id q s.parts (d.held.1),
        Held-insert s.occupancy.at_f2 p.part_id q s.parts (d.held.2),
      );
      queued =
          Queued-insert p.part_id q s.parts s.in_queue
            (subst (λ m. Outside m s.in_queue) at_o d.slots.o_queue) d.queued;
      stage = (
        d.stage.0,
        (
          vacant,
          rw
              (
                part_of-insert_ne s.occupancy.at_f1 p.part_id q s.parts (
                    Apart-sym s.occupancy.at_f1 (some p.part_id)
                      (subst (λ m. Apart s.occupancy.at_f1 m) at_o d.slots.f1_o)),
                part_of-insert_ne s.occupancy.at_f2 p.part_id q s.parts
                    (subst (λ m. Apart m s.occupancy.at_f2) at_o d.slots.o_f2),
                at_o,
                part_of-insert_eq p.part_id q s.parts id,
              )
              (Done-sprayed cfg s.beat _ _ p less (rw here at started)),
        ),
      );
    }

pub Holds-idle :
    (cfg : ProcessConfig) (s : LineState)
    → IsDisciplinedIn Phase.robot_work cfg s
    → (part_of s.occupancy.at_o s.parts ≡ none)
      ⊎ ((p : PartState) × (part_of s.occupancy.at_o s.parts ≡ some p)
          × (leb (schedule s.beat).robot.coat p.coats_applied ≡ true))
    → IsDisciplinedIn Phase.await_guards cfg s
Holds-idle cfg s d idle =
    let (vacant, started) = begun cfg s.beat s.occupancy s.parts d.stage.1 in
    record {
      keyed = d.keyed;
      slots = d.slots;
      held = d.held;
      queued = d.queued;
      stage = (d.stage.0, (vacant, Done-idle cfg s.beat _ _ _ idle started));
    }
