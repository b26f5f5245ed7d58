-- ===== src/Legacy/Invariant.antt =====
-- What each step of the legacy sequencer keeps (src/finishing_line/process/legacy_sequencer.py:
-- `step`).
use finishing_line.Common.{
  Bool, Option, ap, false, if_elim, is_empty, none, not, refl, some, true, ◌&&◌, ◌∙◌, ◌≡◌,
}
use finishing_line.Legacy.{Ended, bank, fault_with, say, set_f1, someone}
use finishing_line.Legacy.Belt.{belt_at-IsMoved, nobody-f1, not-false, not-not}
use finishing_line.Legacy.Intake.{first_entry, run_intake_with, seen_entry, step_idle, with_eyes}
use finishing_line.Legacy.Places.{
  Ends-map, IsMoved, IsPlaced, IsSame, IsStill-IsPlaced, Moves, is_possible,
}
use finishing_line.Legacy.Robot.{step_flash, step_robot}
use finishing_line.Legacy.Staging.{step_stage}
use finishing_line.Legacy.Step.{banked_step, is_legacy_faulted, legacy_step, run_phase}
use finishing_line.Legacy.Still.{
  Ends, IsStill, IsStill-refl, Leaves, bank-IsStill, set_f1-IsStill, step_robot-IsStill,
}
use finishing_line.Legacy.Transition.{
  Moved, after_move, began, begin_beat, begin_seen, begin_with, ended, move_belt, moved,
  step_transition, wants_f1,
}
use finishing_line.Legacy.Types.{Answers, Call, Cause, Eyes, LegacyPhase, Sequencer, Setup}
use finishing_line.Legacy.Waiting.{step_flash-IsStill, step_stage-IsStill, take_next-IsStill}
use finishing_line.Model.{Beat, Occupancy, PartRole, nobody}
use finishing_line.Schedule.{next_beat}

moved-IsPlaced :
    (b : Beat) (s t : Sequencer)
    → IsMoved b s
    → IsStill (record s { beat = next_beat s.beat }) t
    → IsPlaced t
moved-IsPlaced b s t (e, h) k = rw (k.same_beat, k.same_occ, e) h

began-IsPlaced :
    (b : Beat) (s : Sequencer) (r : Sequencer × Bool)
    → IsMoved b s
    → IsStill (record s { beat = next_beat s.beat }) r.0
    → Ends IsPlaced (began r)
began-IsPlaced b s (t, true) h k = moved-IsPlaced b s t h k
began-IsPlaced b s (t, false) h k = tt

begin_with-IsPlaced :
    (u : Setup) (a : Answers) (b : Beat) (m : Option Bool) (s t : Sequencer)
    → IsMoved b s
    → IsStill (record s { beat = next_beat s.beat }) t
    → Ends IsPlaced (begin_with u a m t)
begin_with-IsPlaced u a b none s t h k = tt
begin_with-IsPlaced u a b (some on) s t h k =
    began-IsPlaced b s (set_f1 u a.fan_driven on t) h (set_f1-IsStill u a.fan_driven on _ t k)

begin_seen-IsPlaced :
    (u : Setup) (a : Answers) (b : Beat) (m : Option Eyes) (s : Sequencer)
    → IsMoved b s
    → Ends IsPlaced (begin_seen u a m s)
begin_seen-IsPlaced u a b none s h = tt
begin_seen-IsPlaced u a b (some e) s h =
    begin_with-IsPlaced u a b (wants_f1 s.occ.at_f1 s.parts) s
      (record s { sensors = some e; beat = next_beat s.beat }) h
      (record { same_beat = refl; same_occ = refl })

begin_beat-IsPlaced :
    (u : Setup) (a : Answers) (b : Beat) (s : Sequencer)
    → IsMoved b s
    → Ends IsPlaced (begin_beat u a s)
unfolding begin_beat
begin_beat-IsPlaced u a b s h =
    begin_seen-IsPlaced u a b a.eyes_after (say Call.read_eyes (record s { probe_slide = 0 })) h

after_move-IsPlaced :
    (u : Setup) (a : Answers) (b : Beat) (m : Moved)
    → Moves (IsSame b) (IsMoved b) m
    → Ends IsPlaced (after_move u a m)
after_move-IsPlaced u a b (ended s) (e, h, k) = rw e h
after_move-IsPlaced u a b (moved s) h = begin_beat-IsPlaced u a b s h

step_transition-IsPlaced :
    (u : Setup) (a : Answers) (s : Sequencer) → IsPlaced s → Ends IsPlaced (step_transition u a s)
unfolding step_transition move_belt
step_transition-IsPlaced u a s h =
    after_move-IsPlaced u a s.beat (move_belt a s) (belt_at-IsMoved a s.beat s refl h)

-- The first part goes to O of an empty belt.
seen_entry-IsPlaced :
    (m : Option Eyes) (s : Sequencer) → IsPlaced s → Ends IsPlaced (seen_entry m s)
seen_entry-IsPlaced none s h = tt
seen_entry-IsPlaced (some e) s h = h

first_entry-IsPlaced :
    (u : Setup) (a : Answers) (m : Option Bool) (s : Sequencer)
    → someone s.occ.at_f1 ≡ false
    → IsPlaced s
    → Ends IsPlaced (first_entry u a m s)
unfolding first_entry fault_with
first_entry-IsPlaced u a none s f1 h = h
first_entry-IsPlaced u a (some false) s f1 h = h
first_entry-IsPlaced u a (some true) s f1 h =
    let k = take_next-IsStill u PartRole.lead s.queue s s (IsStill-refl s) in
    seen_entry-IsPlaced a.eyes_after _
      (not-false _ (ap (λ (t : Occupancy). someone t.at_f1) k.same_occ ∙ f1))

run_intake-IsPlaced :
    (u : Setup) (a : Answers) (m : Option Bool) (s : Sequencer)
    → someone s.occ.at_f1 ≡ false
    → IsPlaced s
    → Ends IsPlaced (run_intake_with u a m s)
unfolding run_intake_with fault_with
run_intake-IsPlaced u a none s f1 h = h
run_intake-IsPlaced u a (some true) s f1 h =
    first_entry-IsPlaced u a a.arrival (say (Call.run_entry false) s) f1 h
run_intake-IsPlaced u a (some false) s f1 h = if_elim (Ends IsPlaced) u.continuous (λ _. h) (λ _. h)

with_eyes-IsPlaced :
    (u : Setup) (a : Answers) (m : Option Eyes) (s : Sequencer)
    → someone s.occ.at_f1 ≡ false
    → IsPlaced s
    → Ends IsPlaced (with_eyes u a m s)
unfolding fault_with
with_eyes-IsPlaced u a none s f1 h = h
with_eyes-IsPlaced u a (some e) s f1 h =
    if_elim (Ends IsPlaced) e.staging (λ _. first_entry-IsPlaced u a a.arrival _ f1 h)
      (λ _. run_intake-IsPlaced u a a.intake _ f1 h)

step_idle-IsPlaced :
    (u : Setup) (a : Answers) (s : Sequencer) → IsPlaced s → Ends IsPlaced (step_idle u a s)
unfolding step_idle
step_idle-IsPlaced u a s h =
    if_elim (Ends IsPlaced) (not (nobody s.occ)) (λ _. h)
      (λ empty.
        if_elim (Ends IsPlaced) (is_empty s.queue && not u.continuous) (λ _. h)
          (λ _.
            with_eyes-IsPlaced u a a.eyes (say Call.read_eyes s)
              (nobody-f1 s.occ (not-not (nobody s.occ) empty)) h))

run_phase-IsPlaced :
    (u : Setup) (a : Answers) (p : LegacyPhase) (s : Sequencer)
    → IsPlaced s
    → Ends IsPlaced (run_phase u a p s)
run_phase-IsPlaced u a LegacyPhase.idle s h = step_idle-IsPlaced u a s h
run_phase-IsPlaced u a LegacyPhase.robot_work s h =
    Ends-map _ _ (step_robot u a s) (λ t k. IsStill-IsPlaced s t h k) (step_robot-IsStill u a s)
run_phase-IsPlaced u a LegacyPhase.flash_wait s h =
    Ends-map _ _ (step_flash u a s) (λ t k. IsStill-IsPlaced s t h k) (step_flash-IsStill u a s)
run_phase-IsPlaced u a LegacyPhase.stage s h =
    Ends-map _ _ (step_stage u a s) (λ t k. IsStill-IsPlaced s t h k) (step_stage-IsStill u a s)
run_phase-IsPlaced u a LegacyPhase.transition s h = step_transition-IsPlaced u a s h
run_phase-IsPlaced u a LegacyPhase.faulted s h = h

banked_step-IsPlaced :
    (u : Setup) (a : Answers) (m : Option Sequencer)
    → Leaves IsPlaced m
    → Ends IsPlaced (banked_step u a m)
unfolding fault_with
banked_step-IsPlaced u a none h = tt
banked_step-IsPlaced u a (some s) h =
    if_elim (Ends IsPlaced) (is_legacy_faulted s.phase) (λ _. h)
      (λ _.
        if_elim (Ends IsPlaced) a.feed_polled
          (λ _. run_phase-IsPlaced u a s.phase (say Call.poll_feed s) h) (λ _. h))

Leaves-map :
    (P Q : Sequencer → Type 0) (m : Option Sequencer)
    → ((t : Sequencer) → P t → Q t)
    → Leaves P m
    → Leaves Q m
Leaves-map P Q none f h = tt
Leaves-map P Q (some t) f h = f t h

-- A step of the legacy line that does not raise leaves each part in a place that its beat allows,
-- whatever the devices answer: one at F1 in beat P3 only, and then none at F2.
pub legacy_step-IsPlaced :
    (u : Setup) (a : Answers) (s : Sequencer) → IsPlaced s → Ends IsPlaced (legacy_step u a s)
unfolding legacy_step
legacy_step-IsPlaced u a s h = banked_step-IsPlaced u a (bank u a.now s) (
    Leaves-map _ _ (bank u a.now s) (λ t k. IsStill-IsPlaced s t h k)
      (bank-IsStill u a.now s s (IsStill-refl s)))

-- What a step says of the line.
abbrev pub Reports : (Cause → Type 0) → Ended → Type 0
Reports P none = Unit {0}
Reports P (some (s, none)) = Unit {0}
Reports P (some (s, some why)) = P why

began-Reports : (P : Cause → Type 0) (r : Sequencer × Bool) → Reports P (began r)
began-Reports P (s, true) = tt
began-Reports P (s, false) = tt

begin_with-Reports :
    (P : Cause → Type 0) (u : Setup) (a : Answers) (m : Option Bool) (s : Sequencer)
    → Reports P (begin_with u a m s)
begin_with-Reports P u a none s = tt
begin_with-Reports P u a (some on) s = began-Reports P (set_f1 u a.fan_driven on s)

begin_seen-Reports :
    (P : Cause → Type 0) (u : Setup) (a : Answers) (m : Option Eyes) (s : Sequencer)
    → Reports P (begin_seen u a m s)
begin_seen-Reports P u a none s = tt
begin_seen-Reports P u a (some e) s = begin_with-Reports P u a (wants_f1 s.occ.at_f1 s.parts) _

fault-Reports :
    (P : Cause → Type 0) (s : Sequencer) (m : Option Cause)
    → ((why : Cause) → m ≡ some why → P why)
    → Reports P (some (s, m))
fault-Reports P s none h = tt
fault-Reports P s (some why) h = h why refl

after_move-Reports :
    (u : Setup) (a : Answers) (b : Beat) (m : Moved)
    → Moves (IsSame b) (IsMoved b) m
    → Reports (λ (why : Cause). is_possible why ≡ true) (after_move u a m)
unfolding begin_beat
after_move-Reports u a b (ended s) (e, h, k) = fault-Reports _ s s.fault k
after_move-Reports u a b (moved s) h = begin_seen-Reports _ u a a.eyes_after _

-- In a line whose parts are placed for their beat, a transition never faults because of an
-- occupancy that the code calls impossible: only a device can make it fail.
pub step_transition-possible :
    (u : Setup) (a : Answers) (s : Sequencer)
    → IsPlaced s
    → Reports (λ (why : Cause). is_possible why ≡ true) (step_transition u a s)
unfolding step_transition move_belt
step_transition-possible u a s h =
    after_move-Reports u a s.beat (move_belt a s) (belt_at-IsMoved a s.beat s refl h)
