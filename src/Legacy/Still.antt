-- ===== src/Legacy/Still.antt =====
-- The robot's work on the legacy line and the places of the parts
-- (src/finishing_line/process/legacy_sequencer.py: `_step_robot`).
-- What holds of the state that a step returns.
use finishing_line.Common.{
  Bool, Dict, Option, String, false, if_elim, leb, lookup, ltb, none, not, refl, same, some, true,
  ℕ, ◌&&◌, ◌≡◌,
}
use finishing_line.Executor.Latch.{work}
use finishing_line.Legacy.{
  Ended, bank, controllable, drive_pin, fault_with, say, set_f1, with_parts,
}
use finishing_line.Legacy.Robot.{
  Tried, after_work, attempt, broke, composite, fan_pause, fan_tried, has_coated, held, resume_if,
  robot_at, robot_on, robot_part, spray_with, step_robot, switch_if, tried_or, try_bank, ◌>>=◌,
}
use finishing_line.Legacy.Types.{Answers, Call, Sequencer, Setup}
use finishing_line.Model.{PartState}
use finishing_line.Schedule.{RobotWork, schedule}

abbrev pub Ends : (Sequencer → Type 0) → Ended → Type 0
Ends P none = Unit {0}
Ends P (some (s, why)) = P s

abbrev pub Tries : (Sequencer → Type 0) → Tried → Type 0
Tries P (broke s) = P s
Tries P (held s) = P s

-- A state with the same parts in the same places, in the same beat.
pub record IsStill (s t : Sequencer) : Type 0 where
  pub same_beat : t.beat ≡ s.beat
  pub same_occ : t.occ ≡ s.occ

abbrev pub IsStill-refl : (s : Sequencer) → IsStill s s
IsStill-refl s = record { same_beat = refl; same_occ = refl }

pub Tries-bind :
    (s : Sequencer) (m : Tried) (f : Sequencer → Tried)
    → Tries (IsStill s) m
    → ((t : Sequencer) → IsStill s t → Tries (IsStill s) (f t))
    → Tries (IsStill s) (m >>= f)
Tries-bind s (broke t) f h k = h
Tries-bind s (held t) f h k = k t h

pub attempt-IsStill :
    (s t : Sequencer) (c : Call) (ok : Bool) → IsStill s t → Tries (IsStill s) (attempt c ok t)
attempt-IsStill s t c true h = record { same_beat = h.same_beat; same_occ = h.same_occ }
attempt-IsStill s t c false h = record { same_beat = h.same_beat; same_occ = h.same_occ }

-- What holds of the state that a call leaves, unless it raises.
abbrev pub Leaves : (Sequencer → Type 0) → Option Sequencer → Type 0
Leaves P none = Unit {0}
Leaves P (some s) = P s

pub with_parts-IsStill :
    (s t : Sequencer) (m : Option (Dict PartState))
    → IsStill s t
    → Leaves (IsStill s) (with_parts t m)
with_parts-IsStill s t none h = tt
with_parts-IsStill s t (some parts) h = record { same_beat = h.same_beat; same_occ = h.same_occ }

pub bank-IsStill :
    (u : Setup) (now : ℕ) (s t : Sequencer) → IsStill s t → Leaves (IsStill s) (bank u now t)
unfolding bank
bank-IsStill u now s t h =
    let later : IsStill s (record t { last_bank = now }) = record {
      same_beat = h.same_beat;
      same_occ = h.same_occ;
    } in
    if_elim (Leaves (IsStill s)) (leb now t.last_bank) (λ _. later)
      (λ _. with_parts-IsStill s (record t { last_bank = now }) _ later)

pub tried_or-IsStill :
    (s t : Sequencer) (m : Option Sequencer)
    → IsStill s t
    → Leaves (IsStill s) m
    → Tries (IsStill s) (tried_or t m)
tried_or-IsStill s t none h k = h
tried_or-IsStill s t (some r) h k = k

pub try_bank-IsStill :
    (u : Setup) (now : ℕ) (s t : Sequencer) → IsStill s t → Tries (IsStill s) (try_bank u now t)
try_bank-IsStill u now s t h =
    tried_or-IsStill s _ (bank u now t) (record { same_beat = h.same_beat; same_occ = h.same_occ })
      (bank-IsStill u now s t h)

pub drive_pin-IsStill :
    (s t : Sequencer) (able : Bool) (pin : Option ℕ) (on : Bool)
    → IsStill s t
    → IsStill s (drive_pin able pin on t)
drive_pin-IsStill s t true (some pin) on h = record {
  same_beat = h.same_beat;
  same_occ = h.same_occ;
}
drive_pin-IsStill s t true none on h = h
drive_pin-IsStill s t false pin on h = h

pub set_f1-IsStill :
    (u : Setup) (driven on : Bool) (s t : Sequencer)
    → IsStill s t
    → IsStill s (set_f1 u driven on t).0
unfolding set_f1
set_f1-IsStill u driven on s t h =
    if_elim (λ (r : Sequencer × Bool). IsStill s r.0)
      (controllable u.f1_mode && not (same t.f1_commanded on))
      (λ _.
        drive_pin-IsStill s _ u.has_fan_do u.f1_mode.do_pin on
          (record { same_beat = h.same_beat; same_occ = h.same_occ }))
      (λ _. h)

pub fan_tried-IsStill :
    (s : Sequencer) (r : Sequencer × Bool) → IsStill s r.0 → Tries (IsStill s) (fan_tried r)
fan_tried-IsStill s (t, true) h = h
fan_tried-IsStill s (t, false) h = h

pub switch_if-IsStill :
    (u : Setup) (a : Answers) (test on : Bool) (s t : Sequencer)
    → IsStill s t
    → Tries (IsStill s) (switch_if u a test on t)
switch_if-IsStill u a true on s t h =
    fan_tried-IsStill s (set_f1 u a.fan_driven on t) (set_f1-IsStill u a.fan_driven on s t h)
switch_if-IsStill u a false on s t h = h

pub resume_if-IsStill :
    (a : Answers) (feed : Bool) (s t : Sequencer)
    → IsStill s t
    → Leaves (IsStill s) (resume_if a feed t)
resume_if-IsStill a false s t h = h
resume_if-IsStill a true s t h =
    if_elim (Leaves (IsStill s)) a.resumed
      (λ _. record { same_beat = h.same_beat; same_occ = h.same_occ }) (λ _. tt)

module _ (u : Setup) (a : Answers) (work : RobotWork) (part_id : String) where
  spray_with-IsStill :
      (s t : Sequencer) (m : Option Bool)
      → IsStill s t
      → Tries (IsStill s) (spray_with u a work part_id m t)
  spray_with-IsStill s t none h = h
  spray_with-IsStill s t (some pause) h =
      let spray = Call.spray_part part_id work.coat in
      Tries-bind s _ _
        (Tries-bind s _ _
          (Tries-bind s _ _
            (Tries-bind s _ _
              (Tries-bind s _ _
                (Tries-bind s _ _ (switch_if-IsStill u a pause false s t h)
                  (try_bank-IsStill u a.now_before_spray s))
                (λ r k. attempt-IsStill s r spray a.sprayed k))
              (try_bank-IsStill u a.now_after_spray s))
            (switch_if-IsStill u a pause true s))
          (λ r k. attempt-IsStill s r Call.safe_pose a.posed k))
        (λ r k. record { same_beat = k.same_beat; same_occ = k.same_occ })

  composite-IsStill :
      (s t : Sequencer) → IsStill s t → Tries (IsStill s) (composite u a work part_id t)
  unfolding composite
  composite-IsStill s t h =
      Tries-bind s _ _ (attempt-IsStill s t (Call.sand_part part_id) a.sanded h)
        (λ r k. spray_with-IsStill s r (fan_pause u r.occ.at_f1 r.parts) k)

  has_coated-IsStill :
      (p : PartState) (s : Sequencer) (m : Option Sequencer)
      → Leaves (IsStill s) m
      → Ends (IsStill s) (has_coated work part_id p m)
  has_coated-IsStill p s none h = tt
  has_coated-IsStill p s (some t) h = record { same_beat = h.same_beat; same_occ = h.same_occ }

  after_work-IsStill :
      (p : PartState) (feed : Bool) (s : Sequencer) (r : Tried)
      → Tries (IsStill s) r
      → Ends (IsStill s) (after_work a work part_id p feed r)
  unfolding fault_with
  after_work-IsStill p feed s (broke t) h = record {
    same_beat = h.same_beat;
    same_occ = h.same_occ;
  }
  after_work-IsStill p feed s (held t) h =
      has_coated-IsStill p s (resume_if a feed t) (resume_if-IsStill a feed s t h)

pub robot_on-IsStill :
    (u : Setup) (a : Answers) (work : RobotWork) (part_id : String) (p : PartState)
    (m : Option Bool) (s : Sequencer)
    → Ends (IsStill s) (robot_on u a work part_id p m s)
robot_on-IsStill u a work part_id p none s = tt
robot_on-IsStill u a work part_id p (some feed) s = after_work-IsStill u a work part_id p feed s _ (
    composite-IsStill u a work part_id s (say Call.suspend_feed s)
      (record { same_beat = refl; same_occ = refl }))

pub robot_part-IsStill :
    (u : Setup) (a : Answers) (work : RobotWork) (part_id : String) (m : Option PartState)
    (s : Sequencer)
    → Ends (IsStill s) (robot_part u a work part_id m s)
robot_part-IsStill u a work part_id none s = tt
robot_part-IsStill u a work part_id (some p) s =
    if_elim (Ends (IsStill s)) (ltb p.coats_applied work.coat)
      (λ _. robot_on-IsStill u a work part_id p a.suspended s)
      (λ _. record { same_beat = refl; same_occ = refl })

pub robot_at-IsStill :
    (u : Setup) (a : Answers) (work : RobotWork) (m : Option String) (s : Sequencer)
    → Ends (IsStill s) (robot_at u a work m s)
robot_at-IsStill u a work none s = record { same_beat = refl; same_occ = refl }
robot_at-IsStill u a work (some part_id) s =
    robot_part-IsStill u a work part_id (lookup part_id s.parts) s

pub step_robot-IsStill :
    (u : Setup) (a : Answers) (s : Sequencer) → Ends (IsStill s) (step_robot u a s)
unfolding step_robot
step_robot-IsStill u a s = robot_at-IsStill u a (schedule s.beat).robot s.occ.at_o s
