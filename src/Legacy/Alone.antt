-- ===== src/Legacy/Alone.antt =====
-- A part that stands alone on the legacy line (src/finishing_line/process/legacy_sequencer.py).
use finishing_line.Common.{
  Bool, Option, String, ap, arith, eq_iff, false, if_elim, lookup, lookup-insert, ltb, none, not,
  refl, same, some, true, ℕ, ◌&&◌, ◌∙◌, ◌≡◌,
}
use finishing_line.Legacy.{change, controllable, drive_pin, say, set_f1, set_works, went}
use finishing_line.Legacy.Coats.{IsHelpful, step_robot-alone}
use finishing_line.Legacy.Robot.{step_robot}
use finishing_line.Legacy.Still.{IsStill-refl, set_f1-IsStill}
use finishing_line.Legacy.Transition.{began, begin_beat, move_belt, resting_phase, step_transition}
use finishing_line.Legacy.Types.{Answers, Call, Eyes, LegacyPhase, Sequencer, Setup}
use finishing_line.Model.{Beat, Occupancy, PartState}
use finishing_line.Schedule.{next_beat, schedule}

-- The line at the end of beat P2, with the part at O alone on the belt.
abbrev pub alone : String → Sequencer → Sequencer
alone i s = record s {
  beat = Beat.p2;
  phase = LegacyPhase.transition;
  occ = record { at_in = none; at_f1 = none; at_o = some i; at_f2 = none; at_out = none };
}

drive_pin-parts :
    (able : Bool) (pin : Option ℕ) (on : Bool) (s : Sequencer)
    → (drive_pin able pin on s).parts ≡ s.parts
drive_pin-parts true (some pin) on s = refl
drive_pin-parts true none on s = refl
drive_pin-parts false pin on s = refl

set_works-true : (able : Bool) (pin : Option ℕ) → set_works able pin true ≡ true
set_works-true true (some pin) = refl
set_works-true true none = refl
set_works-true false pin = refl

set_f1-parts :
    (u : Setup) (on : Bool) (s : Sequencer)
    → ((set_f1 u true on s).0.parts ≡ s.parts) × ((set_f1 u true on s).1 ≡ true)
unfolding set_f1
set_f1-parts u on s =
    if_elim (λ (r : Sequencer × Bool). (r.0.parts ≡ s.parts) × (r.1 ≡ true))
      (controllable u.f1_mode && not (same s.f1_commanded on))
      (λ _. (
        drive_pin-parts u.has_fan_do u.f1_mode.do_pin on _,
        set_works-true u.has_fan_do u.f1_mode.do_pin,
      ))
      (λ _. (refl, refl))

began_lem :
    (r : Sequencer × Bool)
    → r.1 ≡ true
    → began r ≡ went (change (record (r.0) { phase = resting_phase r.0 }))
began_lem (s, true) h = refl
began_lem (s, false) h = absurd (ground arith)

-- The belt does not move, and the part stays at O for the next beat.
alone-stays :
    (u : Setup) (a : Answers) (e : Eyes) (s : Sequencer) (i : String)
    → a.eyes_after ≡ some e
    → a.fan_driven ≡ true
    → (t : Sequencer) × (step_transition u a (alone i s) ≡ went t)
      × (t.beat ≡ Beat.p3)
      × (t.occ ≡ (alone i s).occ)
      × (t.parts ≡ s.parts)
unfolding step_transition move_belt begin_beat next_beat
alone-stays u a e s i eyes fan =
    let r = record (say Call.read_eyes (record (alone i s) { probe_slide = 0 })) {
      sensors = some e;
      beat = Beat.p3;
    } in
    let (parts, works) = set_f1-parts u false r in
    let k = set_f1-IsStill u true false r r (IsStill-refl r) in
    let t =
      change
        (record ((set_f1 u true false r).0) { phase = resting_phase (set_f1 u true false r).0 }) in
    (t, (rw (eyes, fan) (began_lem (set_f1 u true false r) works)), k.same_beat, k.same_occ, parts)

-- A part with one coat that is alone at O at the end of beat P2 gets its second coat in the very next
-- step of the robot, however little it has flashed: the belt does not move between the two beats, and
-- the robot's work does not look at the part's flash time.
pub alone-unflashed :
    (u : Setup) (a b : Answers) (e : Eyes) (feed : Bool) (s : Sequencer) (i : String)
    (p : PartState)
    → a.eyes_after ≡ some e
    → a.fan_driven ≡ true
    → IsHelpful b feed
    → lookup i s.parts ≡ some p
    → p.coats_applied ≡ 1
    → (t : Sequencer) × (r : Sequencer) × (step_transition u a (alone i s) ≡ went t)
      × (step_robot u b t ≡ went r)
      × (lookup i r.parts ≡ some (record p { coats_applied = 2; is_wet = true }))
unfolding schedule
alone-unflashed u a b e feed s i p eyes fan h known one =
    let (t, moved_to, beat, occ, parts) = alone-stays u a e s i eyes fan in
    let work : (schedule t.beat).robot.coat ≡ 2 = ap (λ (x : Beat). (schedule x).robot.coat) beat in
    let fewer : ltb p.coats_applied (schedule t.beat).robot.coat ≡ true = rw (one, work) refl in
    let found : lookup i t.parts ≡ some p = ap (lookup i) parts ∙ known in
    let done =
      step_robot-alone u b feed i p t h (ap (λ (x : Occupancy). x.at_o) occ)
        (ap (λ (x : Occupancy). x.at_f1) occ) (ap (λ (x : Occupancy). x.at_f2) occ) found fewer in
    (t, _, moved_to, done, lookup-insert i i _ t.parts ∙ (rw ((eq_iff i i).1 refl, work) refl))
