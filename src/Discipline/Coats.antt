-- ===== src/Discipline/Coats.antt =====
-- The flash discipline, the gun and the outfeed (src/finishing_line/core/machine.py).
use finishing_line.Common.{
  Bool, Dict, List, Option, Option-cases, String, arith, inl, inr, is_empty, lookup, none, not,
  refl, some, subst, true, truthy, ℕ, ◌∙◌, ◌≡◌, ◌≤◌, ◌⊎◌,
}
use finishing_line.Config.{ProcessConfig}
use finishing_line.Discipline.{
  Done, Held, IsDisciplined, IsDisciplinedIn, MayLeave, Start, Twice, plan,
}
use finishing_line.Discipline.Departure.{departure-MayGo}
use finishing_line.Discipline.Shift.{live_moves-plan}
use finishing_line.Guards.{departure_blocked}
use finishing_line.Interlocks.{MovePermitted, SprayPermitted}
use finishing_line.Model.{
  Beat, Direction, LineState, Move, Occupancy, PartState, Phase, SensorSnapshot, Station,
  active_flash_seconds, has_move, part_at, part_of,
}
use finishing_line.Schedule.{outfeed_transitions, schedule}
use finishing_line.Timers.{flash_complete, may_leave_fan, may_receive_coat_2}

-- The two coats that a part can be due.
abbrev pub IsDue : ProcessConfig → PartState → ℕ → Type 0
IsDue cfg p coat =
    ((coat ≡ 1) × (p.coats_applied ≡ 0)) ⊎ ((coat ≡ 2) × (may_receive_coat_2 p cfg ≡ true))

Start-IsDue :
    (cfg : ProcessConfig) (beat : Beat) (f1 f2 : Option PartState) (p : PartState)
    → Start cfg beat f1 (some p) f2
    → IsDue cfg p (schedule beat).robot.coat
unfolding may_receive_coat_2 schedule
Start-IsDue cfg Beat.p1 f1 f2 p h = inl (refl, h.1)
Start-IsDue cfg Beat.p2 f1 f2 p h = inl (refl, h.0)
Start-IsDue cfg Beat.p3 f1 f2 p h = inr (refl, ground arith)
Start-IsDue cfg Beat.p4 f1 f2 p h = inr (refl, ground arith)

Done-coated :
    (cfg : ProcessConfig) (beat : Beat) (f1 f2 : Option PartState) (p : PartState)
    → Done cfg beat f1 (some p) f2
    → p.coats_applied ≡ (schedule beat).robot.coat
unfolding schedule
Done-coated cfg Beat.p1 f1 f2 p h = h.1
Done-coated cfg Beat.p2 f1 f2 p h = h.0
Done-coated cfg Beat.p3 f1 f2 p h = h.1.0
Done-coated cfg Beat.p4 f1 f2 p h = h.1.0

-- In a disciplined state a permitted spray gives a part the coat that it is due.
pub spray-IsDue :
    (cfg : ProcessConfig) (s : LineState) (sensors : SensorSnapshot) (id : String) (coat : ℕ)
    → IsDisciplined cfg s
    → SprayPermitted s sensors id coat
    → (p : PartState) × (part_at s Station.o ≡ some p) × (p.part_id ≡ id) × IsDue cfg p coat
unfolding part_at
spray-IsDue cfg s sensors id coat d w =
    let h : IsDisciplinedIn Phase.robot_work cfg s = rw w.working at d in
    (
      w.part,
      w.at_o,
      w.id,
      elim h.stage.1 [
        | inl start ↦ rw w.due (
            Start-IsDue cfg s.beat (part_of s.occupancy.at_f1 s.parts)
              (part_of s.occupancy.at_f2 s.parts) w.part (rw w.at_o at start.1))
        | inr done ↦
            let full =
              Done-coated cfg s.beat (part_of s.occupancy.at_f1 s.parts)
                (part_of s.occupancy.at_f2 s.parts) w.part (rw w.at_o at done.1) in
            absurd (ground (arith, w.lacks, w.due))
      ],
    )

-- A part that goes out has two coats, and both its flashes are complete.
abbrev pub IsFinished : ProcessConfig → PartState → Type 0
IsFinished cfg p =
    (p.coats_applied ≡ 2) × (cfg.flash_seconds ≤ p.flash_1_s) × (cfg.flash_seconds ≤ p.flash_2_s)

leaves-IsFinished :
    (cfg : ProcessConfig) (p : PartState)
    → Twice cfg (some p)
    → MayLeave cfg (some p)
    → IsFinished cfg p
unfolding may_leave_fan flash_complete active_flash_seconds
leaves-IsFinished cfg p h g = ground arith

-- Only the beats of the outfeed send a part out, and only one that stands at F2.
plan-out :
    (beat : Beat) (t : Occupancy) (feed : Bool)
    → has_move Station.f2 Station.out (plan beat t feed) ≡ true
    → (outfeed_transitions beat ≡ true) × (truthy t.at_f2 ≡ true)
unfolding has_move outfeed_transitions
plan-out Beat.p1 t feed h = ground arith
plan-out Beat.p2 t feed h = ground arith
plan-out Beat.p3 t feed h = ground arith
plan-out Beat.p4 t feed h = ground arith

occupant :
    (m : Option String) (parts : Dict PartState)
    → truthy m ≡ true
    → Held parts m
    → (p : PartState) × (part_of m parts ≡ some p)
unfolding part_of
occupant none parts h k = absurd (ground arith)
occupant (some id) parts h k = elim (Option-cases (lookup id parts)) [
  | inl none_there ↦ absurd (ground arith)
  | inr (p, e) ↦ (p, ground arith)
]

out-Twice :
    (cfg : ProcessConfig) (beat : Beat) (f1 at_o f2 : Option PartState)
    → outfeed_transitions beat ≡ true
    → Done cfg beat f1 at_o f2
    → Twice cfg f2
unfolding outfeed_transitions
out-Twice cfg Beat.p1 f1 at_o f2 e h = h.2
out-Twice cfg Beat.p2 f1 at_o f2 e h = absurd (ground arith)
out-Twice cfg Beat.p3 f1 at_o f2 e h = absurd (ground arith)
out-Twice cfg Beat.p4 f1 at_o f2 e h = h.2

pub out-IsFinished :
    (cfg : ProcessConfig) (s : LineState) (sensors : SensorSnapshot) (direction : Direction)
    (moves : List Move)
    → IsDisciplined cfg s
    → MovePermitted s sensors cfg direction moves
    → has_move Station.f2 Station.out moves ≡ true
    → (p : PartState) × (part_at s Station.f2 ≡ some p) × IsFinished cfg p
unfolding part_at
out-IsFinished cfg s sensors direction moves d w h =
    let k : IsDisciplinedIn Phase.moving cfg s = rw w.moving at d in
    let feed = not (is_empty s.in_queue) in
    let planned_here : moves ≡ plan s.beat s.occupancy feed =
      w.live ∙ live_moves-plan s k.slots.none_in in
    let (beat, taken) = plan-out s.beat s.occupancy feed (rw planned_here at h) in
    let (p, e) = occupant s.occupancy.at_f2 s.parts taken k.held.2 in
    let go =
      departure-MayGo s sensors cfg feed k.stage.1.0
        (subst (λ m. departure_blocked s sensors cfg m ≡ none) planned_here w.departs) in
    let twice =
      out-Twice cfg s.beat (part_of s.occupancy.at_f1 s.parts) (part_of s.occupancy.at_o s.parts)
        (part_of s.occupancy.at_f2 s.parts) beat k.stage.1.1 in
    (p, e, leaves-IsFinished cfg p (rw e at twice) (rw e at go.1))
