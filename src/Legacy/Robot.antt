-- ===== src/Legacy/Robot.antt =====
-- The robot's work and the wait for the flash (src/finishing_line/process/legacy_sequencer.py:
-- `_step_robot`, `_step_flash`, `_departure_block`).
use finishing_line.Common.{
  Bool, Dict, Option, String, false, if◌then◌else◌, insert, is_empty, lookup, ltb, none, not, some,
  true, ℕ, ◌&&◌, ◌===◌, ◌||◌,
}
use finishing_line.Executor.Latch.{work}
use finishing_line.Legacy.{
  Ended, bank, change, controllable, fault_with, faults, flash_block, is_entry, say, set_f1,
  someone, waits, went,
}
use finishing_line.Legacy.Types.{Answers, Call, Cause, Eyes, LegacyPhase, Sequencer, Setup}
use finishing_line.Model.{Beat, PartState, Station}
use finishing_line.Schedule.{RobotWork, schedule}

-- The calls inside a `try`: the state in which one raised, or the state after all of them.
pub data Tried : Type 0 where
  broke held : Sequencer → Tried

infixl 5 ◌>>=◌
abbrev pub ◌>>=◌ : Tried → (Sequencer → Tried) → Tried
broke s >>= f = broke s
held s >>= f = f s

abbrev pub attempt : Call → Bool → Sequencer → Tried
attempt c ok s = if ok then held (say c s) else broke (say c s)

abbrev pub fan_tried : Sequencer × Bool → Tried
fan_tried (s, ok) = if ok then held s else broke s

abbrev pub tried_or : Sequencer → Option Sequencer → Tried
tried_or s none = broke s
tried_or s (some t) = held t

abbrev pub try_bank : Setup → ℕ → Sequencer → Tried
try_bank u now s = tried_or (record s { last_bank = now }) (bank u now s)

-- Whether the fan at F1 pauses while the gun sprays; `none` is a KeyError.
abbrev pub wet_and : Bool → Option PartState → Option Bool
wet_and able none = none
wet_and able (some p) = some (p.is_wet && able)

abbrev pub fan_pause : Setup → Option String → Dict PartState → Option Bool
fan_pause u none parts = some false
fan_pause u (some part_id) parts = wet_and (controllable u.f1_mode) (lookup part_id parts)

abbrev pub switch_if : Setup → Answers → Bool → Bool → Sequencer → Tried
switch_if u a test on s = if test then fan_tried (set_f1 u a.fan_driven on s) else held s

abbrev pub spray_with : Setup → Answers → RobotWork → String → Option Bool → Sequencer → Tried
spray_with u a work part_id none s = broke s
spray_with u a work part_id (some pause) s =
    switch_if u a pause false s
    >>= try_bank u a.now_before_spray
    >>= attempt (Call.spray_part part_id work.coat) a.sprayed
    >>= try_bank u a.now_after_spray
    >>= switch_if u a pause true
    >>= attempt Call.safe_pose a.posed
    >>= (λ (t : Sequencer). held (record t { pending_clean = work.clean_gun }))

unfoldable pub composite : Setup → Answers → RobotWork → String → Sequencer → Tried
unfolding bank set_f1 controllable
composite u a work part_id s =
    attempt (Call.sand_part part_id) a.sanded s
    >>= (λ (t : Sequencer). spray_with u a work part_id (fan_pause u t.occ.at_f1 t.parts) t)

-- The feed goes on if it was suspended for the span.
abbrev pub resume_if : Answers → Bool → Sequencer → Option Sequencer
resume_if a false s = some s
resume_if a true s = if a.resumed then some (say Call.resume_feed s) else none

abbrev pub coat_part : RobotWork → String → PartState → Sequencer → Sequencer
coat_part work part_id p s = change (record s {
  parts = insert part_id (record p { coats_applied = work.coat; is_wet = true }) s.parts;
})

abbrev pub has_coated : RobotWork → String → PartState → Option Sequencer → Ended
has_coated work part_id p none = none
has_coated work part_id p (some s) =
    went (record (coat_part work part_id p s) { phase = LegacyPhase.flash_wait })

abbrev pub after_work : Answers → RobotWork → String → PartState → Bool → Tried → Ended
after_work a work part_id p feed (broke s) = faults (Cause.robot_failed s.beat) s
after_work a work part_id p feed (held s) = has_coated work part_id p (resume_if a feed s)

abbrev pub robot_on :
    Setup → Answers → RobotWork → String → PartState → Option Bool → Sequencer → Ended
robot_on u a work part_id p none s = none
robot_on u a work part_id p (some feed) s =
    after_work a work part_id p feed (composite u a work part_id (say Call.suspend_feed s))

abbrev pub robot_part : Setup → Answers → RobotWork → String → Option PartState → Sequencer → Ended
robot_part u a work part_id none s = none
robot_part u a work part_id (some p) s =
    if ltb p.coats_applied work.coat
    then robot_on u a work part_id p a.suspended s
    else went (record s { phase = LegacyPhase.flash_wait })

abbrev pub robot_at : Setup → Answers → RobotWork → Option String → Sequencer → Ended
robot_at u a work none s = went (record s { phase = LegacyPhase.flash_wait })
robot_at u a work (some part_id) s = robot_part u a work part_id (lookup part_id s.parts) s

unfoldable pub step_robot : Setup → Answers → Sequencer → Ended
unfolding composite schedule fault_with
step_robot u a s = robot_at u a (schedule s.beat).robot s.occ.at_o s

-- `_departure_block`; the outer `none` is a KeyError.
abbrev pub offload_seen : Option Eyes → Bool
offload_seen none = false
offload_seen (some e) = e.offload

abbrev pub gate_at : Setup → Sequencer → Station → Option String → Option (Option Cause)
gate_at u s station none = some none
gate_at u s station (some part_id) =
    if part_id === "" then some none else flash_block u.cfg part_id station (lookup part_id s.parts)

abbrev pub gate_out : Sequencer → Option (Option Cause)
gate_out s =
    some
      (if someone s.occ.at_f2 && offload_seen s.sensors then some Cause.remove_finished else none)

abbrev pub gate_in : Setup → Sequencer → Beat → Option (Option Cause)
gate_in u s Beat.p1 = gate_out s
gate_in u s Beat.p2 = gate_at u s Station.f2 s.occ.at_f2
gate_in u s Beat.p3 = gate_at u s Station.f1 s.occ.at_f1
gate_in u s Beat.p4 = gate_out s

unfoldable pub departure_block : Setup → Sequencer → Option (Option Cause)
departure_block u s = gate_in u s s.beat

abbrev pub next_phase : Setup → Sequencer → LegacyPhase
next_phase u s =
    if is_entry s.beat && (not (is_empty s.queue) || u.continuous)
    then LegacyPhase.stage
    else LegacyPhase.transition

abbrev pub gated : Setup → Sequencer → Option (Option Cause) → Ended
gated u s none = none
gated u s (some (some why)) = waits why s
gated u s (some none) = went (record s { phase = next_phase u s })

abbrev pub read_and_gate : Setup → Option Eyes → Sequencer → Ended
read_and_gate u none s = none
read_and_gate u (some e) s =
    let seen = record s { sensors = some e } in gated u seen (departure_block u seen)

unfoldable pub step_gate : Setup → Answers → Sequencer → Ended
unfolding departure_block is_entry
step_gate u a s = read_and_gate u a.eyes (say Call.read_eyes s)

-- The gun clean that the beat owes is done first.
abbrev pub dash_for : Option String → String
dash_for none = "-"
dash_for (some part_id) = if part_id === "" then "-" else part_id

abbrev pub clean_calls : Answers → Sequencer → Tried
clean_calls a s =
    attempt (Call.clean_tip (dash_for s.occ.at_o)) a.cleaned s >>= attempt Call.safe_pose a.posed

abbrev pub gate_then : Setup → Answers → Option Sequencer → Ended
gate_then u a none = none
gate_then u a (some s) = step_gate u a s

abbrev pub after_clean : Setup → Answers → Bool → Tried → Ended
after_clean u a feed (broke s) = faults (Cause.gun_clean_failed s.beat) s
after_clean u a feed (held s) = gate_then u a (resume_if a feed s)

abbrev pub clean_with : Setup → Answers → Option Bool → Sequencer → Ended
clean_with u a none s = none
clean_with u a (some feed) s = after_clean u a feed (clean_calls a (say Call.suspend_feed s))

unfoldable pub step_flash : Setup → Answers → Sequencer → Ended
unfolding step_gate fault_with
step_flash u a s =
    if s.pending_clean
    then clean_with u a a.suspended (record s { pending_clean = false })
    else step_gate u a s
