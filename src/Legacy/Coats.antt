-- ===== src/Legacy/Coats.antt =====
-- What the robot's work on the legacy line does to the parts' coats
-- (src/finishing_line/process/legacy_sequencer.py: `_step_robot`, `bank`).
use finishing_line.Common.{
  Bool, List, Option, String, ap, arith, false, if◌then◌else◌, insert, leb, lookup, ltb, none, refl,
  some, true, ℕ, ◌-◌, ◌===◌, ◌==◌, ◌||◌, ◌∙◌, ◌∷◌, ◌≡◌,
}
use finishing_line.Executor.Latch.{work}
use finishing_line.Legacy.{bank, flash_need, is_entry, say, waits, went}
use finishing_line.Legacy.Robot.{
  composite, departure_block, fan_pause, gate_at, gate_in, gated, has_coated, held, read_and_gate,
  resume_if, robot_at, step_gate, step_robot,
}
use finishing_line.Legacy.Types.{Answers, Call, Cause, Eyes, LegacyPhase, Sequencer, Setup}
use finishing_line.Model.{Beat, PartState, Station, active_flash_seconds, get}
use finishing_line.Schedule.{RobotWork, schedule}

bank-empty :
    (u : Setup) (now : ℕ) (s : Sequencer)
    → s.occ.at_f1 ≡ none
    → s.occ.at_f2 ≡ none
    → bank u now s ≡ some (record s { last_bank = now })
unfolding bank
bank-empty u now s f1 f2 = ground arith

-- Every call of the robot returns, and so does the feed's suspension.
pub record IsHelpful (a : Answers) (feed : Bool) : Type 0 where
  pub suspends : a.suspended ≡ some feed
  pub resumes : a.resumed ≡ true
  pub sands : a.sanded ≡ true
  pub sprays : a.sprayed ≡ true
  pub poses : a.posed ≡ true

composite-alone :
    (u : Setup) (a : Answers) (feed : Bool) (work : RobotWork) (i : String) (s : Sequencer)
    → IsHelpful a feed
    → s.occ.at_f1 ≡ none
    → s.occ.at_f2 ≡ none
    → composite u a work i s
      ≡ held (record s {
        last_bank = a.now_after_spray;
        pending_clean = work.clean_gun;
        calls = Call.safe_pose ∷ Call.spray_part i work.coat ∷ Call.sand_part i ∷ s.calls;
      })
unfolding composite
composite-alone u a feed work i s h f1 f2 =
    let sanded = say (Call.sand_part i) s in
    let sprayed =
      say (Call.spray_part i work.coat) (record sanded { last_bank = a.now_before_spray }) in
    let pause : fan_pause u s.occ.at_f1 s.parts ≡ some false =
      ap (λ (m : Option String). fan_pause u m s.parts) f1 in
    rw
      (
        h.sands,
        pause,
        bank-empty u a.now_before_spray sanded f1 f2,
        h.sprays,
        bank-empty u a.now_after_spray sprayed f1 f2,
        h.poses,
      )
      refl

resume_if_lem :
    (a : Answers) (feed : Bool) (s : Sequencer)
    → a.resumed ≡ true
    → resume_if a feed s
      ≡ some (record s { calls = if feed then Call.resume_feed ∷ s.calls else s.calls })
resume_if_lem a true s h = rw h refl
resume_if_lem a false s h = refl

-- The feed, the robot's three calls, and the feed again.
abbrev pub work_calls : Bool → String → ℕ → List Call → List Call
work_calls feed i coat calls =
    let done =
      Call.safe_pose ∷ Call.spray_part i coat ∷ Call.sand_part i ∷ Call.suspend_feed ∷ calls in
    if feed then Call.resume_feed ∷ done else done

-- A part that stands alone on the belt gets the coat of the beat as soon as it has fewer coats, with
-- no regard to the time that it has flashed: the robot sands it, sprays it and goes to its safe pose,
-- the feed being suspended meanwhile, and it is wet then.
pub step_robot-alone :
    (u : Setup) (a : Answers) (feed : Bool) (i : String) (p : PartState) (s : Sequencer)
    → IsHelpful a feed
    → s.occ.at_o ≡ some i
    → s.occ.at_f1 ≡ none
    → s.occ.at_f2 ≡ none
    → lookup i s.parts ≡ some p
    → ltb p.coats_applied (schedule s.beat).robot.coat ≡ true
    → step_robot u a s
      ≡ went (record s {
        parts =
            insert i
              (record p { coats_applied = (schedule s.beat).robot.coat; is_wet = true })
              s.parts;
        last_bank = a.now_after_spray;
        pending_clean = (schedule s.beat).robot.clean_gun;
        phase = LegacyPhase.flash_wait;
        dirty = true;
        calls = work_calls feed i (schedule s.beat).robot.coat s.calls;
      })
unfolding step_robot
step_robot-alone u a feed i p s h o f1 f2 known fewer =
    let work = (schedule s.beat).robot in
    let at : robot_at u a work s.occ.at_o s ≡ robot_at u a work (some i) s =
      ap (λ (m : Option String). robot_at u a work m s) o in
    at
    ∙ (rw
        (
          known,
          fewer,
          h.suspends,
          composite-alone u a feed work i (say Call.suspend_feed s) h f1 f2,
        )
        (ap (has_coated work i p) (resume_if_lem a feed _ h.resumes)))

-- The station whose part must have flashed before the belt moves at the end of a beat.
abbrev pub gate_station : Beat → Option Station
gate_station Beat.p2 = some Station.f2
gate_station Beat.p3 = some Station.f1
gate_station _ = none

gate_in-at :
    (u : Setup) (s : Sequencer) (b : Beat) (station : Station)
    → gate_station b ≡ some station
    → (gate_in u s b ≡ gate_at u s station (get s.occ station)) × (is_entry b ≡ false)
unfolding is_entry
gate_in-at u s Beat.p1 station e = absurd (ground arith)
gate_in-at u s Beat.p2 station e = (
  (let k : Station.f2 ≡ station = cc in ap (λ (x : Station). gate_at u s x (get s.occ x)) k),
  refl,
)
gate_in-at u s Beat.p3 station e = (
  (let k : Station.f1 ≡ station = cc in ap (λ (x : Station). gate_at u s x (get s.occ x)) k),
  refl,
)
gate_in-at u s Beat.p4 station e = absurd (ground arith)

gated-need :
    (u : Setup) (s : Sequencer) (test : Bool) (why : Cause)
    → is_entry s.beat ≡ false
    → gated u s (some (if test then none else some why))
      ≡ (if test then went (record s { phase = LegacyPhase.transition }) else waits why s)
gated-need u s true why entry = rw entry refl
gated-need u s false why entry = refl

-- The flash gate. In a beat whose move takes a part off a fan station, a step of the wait lets the
-- belt move when the part at that station has no coat or has flashed for its current coat, and
-- otherwise waits, saying how many seconds are missing.
pub step_gate-flash :
    (u : Setup) (a : Answers) (s : Sequencer) (e : Eyes) (station : Station) (i : String)
    (p : PartState)
    → a.eyes ≡ some e
    → gate_station s.beat ≡ some station
    → get s.occ station ≡ some i
    → (i === "") ≡ false
    → lookup i s.parts ≡ some p
    → step_gate u a s ≡ (
        let seen = record s { sensors = some e; calls = Call.read_eyes ∷ s.calls } in
        if p.coats_applied == 0 || leb u.cfg.flash_seconds (active_flash_seconds p)
        then went (record seen { phase = LegacyPhase.transition })
        else waits
            (Cause.flash_needs i (u.cfg.flash_seconds - active_flash_seconds p) station)
            seen)
unfolding step_gate departure_block
step_gate-flash u a s e station i p eyes gate there named known =
    let seen = record s { sensors = some e; calls = Call.read_eyes ∷ s.calls } in
    let (at, entry) = gate_in-at u seen s.beat station gate in
    let block : departure_block u seen ≡ some (flash_need u.cfg i station p) =
      at ∙ ap (gate_at u seen station) there ∙ (rw (named, known) refl) in
    ap (λ (m : Option Eyes). read_and_gate u m (say Call.read_eyes s)) eyes
    ∙ ap (gated u seen) block
    ∙ gated-need u seen _ _ entry
