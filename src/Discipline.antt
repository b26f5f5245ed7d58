-- ===== src/Discipline.antt =====
-- The flash discipline: what holds of the parts on the line between two steps of the state machine
-- (src/finishing_line/core/machine.py), as long as nobody moves parts by hand.
pub mod Aging
pub mod Recovery
pub mod Resume
pub mod Staged
pub mod Passes
pub mod Runs
pub mod Coats
pub mod Promises
pub mod Batches
pub mod Phases
pub mod Steps
pub mod Work
pub mod Arrival
pub mod Departure
pub mod Shift
use finishing_line.Common.{
  Bool, Dict, List, Option, String, [], contains, false, has, if◌then◌else◌, lookup, none, some,
  true, truthy, ◌===◌, ◌∷◌, ◌≡◌, ◌≤◌, ◌⊎◌,
}
use finishing_line.Config.{ProcessConfig}
use finishing_line.Flash.{IsKeyed}
use finishing_line.Machine.{is_faulted}
use finishing_line.Model.{Beat, LineState, Move, Occupancy, PartState, Phase, Station, part_of}
use finishing_line.Schedule.{next_beat}
use finishing_line.Timers.{may_leave_fan}

-- What a station's part has behind it; an empty station meets each of these.
abbrev pub Raw : Option PartState → Type 0
Raw none = Unit {0}
Raw (some p) = p.coats_applied ≡ 0

abbrev pub Once : Option PartState → Type 0
Once none = Unit {0}
Once (some p) = p.coats_applied ≡ 1

abbrev pub Ready : ProcessConfig → Option PartState → Type 0
Ready cfg none = Unit {0}
Ready cfg (some p) = (p.coats_applied ≡ 1) × (cfg.flash_seconds ≤ p.flash_1_s)

abbrev pub Twice : ProcessConfig → Option PartState → Type 0
Twice cfg none = Unit {0}
Twice cfg (some p) = (p.coats_applied ≡ 2) × (cfg.flash_seconds ≤ p.flash_1_s)

abbrev pub MayLeave : ProcessConfig → Option PartState → Type 0
MayLeave cfg none = Unit {0}
MayLeave cfg (some p) = may_leave_fan p cfg ≡ true

-- The parts at F1, O and F2 when a beat begins, and when its robot work is done.
abbrev pub Start : ProcessConfig → Beat → (f1 at_o f2 : Option PartState) → Type 0
Start cfg Beat.p1 f1 at_o f2 = Raw f1 × Raw at_o × Twice cfg f2
Start cfg Beat.p2 f1 at_o f2 = Raw at_o × Once f2
Start cfg Beat.p3 f1 at_o f2 = Once f1 × Ready cfg at_o
Start cfg Beat.p4 f1 at_o f2 = Raw f1 × Ready cfg at_o × Twice cfg f2

abbrev pub Done : ProcessConfig → Beat → (f1 at_o f2 : Option PartState) → Type 0
Done cfg Beat.p1 f1 at_o f2 = Raw f1 × Once at_o × Twice cfg f2
Done cfg Beat.p2 f1 at_o f2 = Once at_o × Once f2
Done cfg Beat.p3 f1 at_o f2 = Once f1 × Twice cfg at_o
Done cfg Beat.p4 f1 at_o f2 = Raw f1 × Twice cfg at_o × Twice cfg f2

-- The station that a beat leaves empty.
abbrev pub Vacant : Beat → Occupancy → Type 0
Vacant Beat.p2 t = t.at_f1 ≡ none
Vacant Beat.p3 t = t.at_f2 ≡ none
Vacant _ t = Unit {0}

abbrev pub NonEmpty : Option String → Type 0
NonEmpty none = Unit {0}
NonEmpty (some i) = (i === "") ≡ false

abbrev pub Apart : Option String → Option String → Type 0
Apart (some i) (some j) = (i === j) ≡ false
Apart _ _ = Unit {0}

abbrev pub Outside : Option String → List String → Type 0
Outside none queue = Unit {0}
Outside (some i) queue = contains i queue ≡ false

-- A part that is in the table, and has no coat.
abbrev pub New : Option PartState → Type 0
New none = ⊥
New (some p) = p.coats_applied ≡ 0

-- The part that stands somewhere is in the table.
abbrev pub Held : Dict PartState → Option String → Type 0
Held parts none = Unit {0}
Held parts (some i) = has i parts ≡ true

abbrev pub AllHeld : Dict PartState → Occupancy → Type 0
AllHeld parts t = Held parts t.at_f1 × Held parts t.at_o × Held parts t.at_f2

-- The queue names parts that have no coat, each once.
abbrev pub Queued : Dict PartState → List String → Type 0
Queued parts [] = Unit {0}
Queued parts (i ∷ queue) =
    ((i === "") ≡ false) × (contains i queue ≡ false) × New (lookup i parts) × Queued parts queue

-- No id is in two places.
pub record Slots (t : Occupancy) (queue : List String) : Type 0 where
  pub none_in : t.at_in ≡ none
  pub none_out : t.at_out ≡ none
  pub id_f1 : NonEmpty t.at_f1
  pub id_o : NonEmpty t.at_o
  pub id_f2 : NonEmpty t.at_f2
  pub f1_o : Apart t.at_f1 t.at_o
  pub f1_f2 : Apart t.at_f1 t.at_f2
  pub o_f2 : Apart t.at_o t.at_f2
  pub f1_queue : Outside t.at_f1 queue
  pub o_queue : Outside t.at_o queue
  pub f2_queue : Outside t.at_f2 queue

-- The moves of a beat whose sources hold a part; `feed` stands for the queue.
abbrev pub when : Bool → Move → List Move → List Move
when true m ms = m ∷ ms
when false m ms = ms

abbrev pub planned : Beat → (f1 at_o f2 feed : Bool) → List Move
planned Beat.p1 f1 at_o f2 feed =
    when f2 (Station.f2, Station.out)
      (when at_o (Station.o, Station.f2) (when f1 (Station.f1, Station.o) []))
planned Beat.p2 f1 at_o f2 feed =
    when at_o (Station.o, Station.f1) (when f2 (Station.f2, Station.o) [])
planned Beat.p3 f1 at_o f2 feed =
    when at_o (Station.o, Station.f2)
      (when f1 (Station.f1, Station.o) (when feed (Station.inq, Station.f1) []))
planned Beat.p4 f1 at_o f2 feed =
    when f2 (Station.f2, Station.out)
      (when at_o (Station.o, Station.f2)
        (when f1 (Station.f1, Station.o) (when feed (Station.inq, Station.f1) [])))

abbrev pub plan : Beat → Occupancy → Bool → List Move
plan beat t feed = planned beat (truthy t.at_f1) (truthy t.at_o) (truthy t.at_f2) feed

abbrev pub Feeds : Bool → List String → Type 0
Feeds true [] = ⊥
Feeds _ _ = Unit {0}

module _ (cfg : ProcessConfig) (beat : Beat) (t : Occupancy) (parts : Dict PartState) where
  abbrev pub IsStart : Type 0
  IsStart =
      Vacant beat t
      × Start cfg beat (part_of t.at_f1 parts) (part_of t.at_o parts) (part_of t.at_f2 parts)

  abbrev pub IsDone : Type 0
  IsDone =
      Vacant beat t
      × Done cfg beat (part_of t.at_f1 parts) (part_of t.at_o parts) (part_of t.at_f2 parts)

  abbrev pub MayGo : Type 0
  MayGo = MayLeave cfg (part_of t.at_f1 parts) × MayLeave cfg (part_of t.at_f2 parts)

-- The moves that are under way, if any, are those of the beat, and their parts may leave the fans.
abbrev pub IsUnderWay :
    ProcessConfig → Beat → Occupancy → Dict PartState → List String → List Move → Type 0
IsUnderWay cfg beat t parts queue in_flight =
    (in_flight ≡ [])
    ⊎ ((feed : Bool) × (in_flight ≡ plan beat t feed) × Feeds feed queue × MayGo cfg beat t parts)

-- What holds in a phase.
abbrev pub Stage :
    Phase → ProcessConfig → Beat → Occupancy → Dict PartState → List String → List Move → Type 0
Stage Phase.robot_work cfg beat t parts queue in_flight =
    (in_flight ≡ []) × (IsStart cfg beat t parts ⊎ IsDone cfg beat t parts)
Stage Phase.await_guards cfg beat t parts queue in_flight =
    (in_flight ≡ []) × IsDone cfg beat t parts
Stage Phase.shutter_open cfg beat t parts queue in_flight =
    (in_flight ≡ []) × IsDone cfg beat t parts
Stage Phase.moving cfg beat t parts queue in_flight =
    IsUnderWay cfg beat t parts queue in_flight × IsDone cfg beat t parts
Stage Phase.shutter_close cfg beat t parts queue in_flight =
    (in_flight ≡ []) × IsStart cfg (next_beat beat) t parts
Stage Phase.set_fans cfg beat t parts queue in_flight =
    (in_flight ≡ []) × IsStart cfg (next_beat beat) t parts
Stage Phase.faulted cfg beat t parts queue in_flight = ⊥

-- The phase that the machine is in, or was in when the fault hit.
abbrev pub at_fault : Option Phase → Phase
at_fault none = Phase.faulted
at_fault (some phase) = phase

abbrev pub working_phase : Phase → Option Phase → Phase
working_phase phase fault_phase = if is_faulted phase then at_fault fault_phase else phase

pub record Holds (phase : Phase) (cfg : ProcessConfig) (beat : Beat) (t : Occupancy)
    (parts : Dict PartState) (queue : List String) (in_flight : List Move) : Type 0 where
  pub keyed : IsKeyed parts
  pub slots : Slots t queue
  pub held : AllHeld parts t
  pub queued : Queued parts queue
  pub stage : Stage phase cfg beat t parts queue in_flight

abbrev pub IsDisciplinedIn : Phase → ProcessConfig → LineState → Type 0
IsDisciplinedIn phase cfg s = Holds phase cfg s.beat s.occupancy s.parts s.in_queue s.in_flight

abbrev pub IsDisciplined : ProcessConfig → LineState → Type 0
IsDisciplined cfg s = IsDisciplinedIn (working_phase s.phase s.fault_phase) cfg s
