-- ===== src/Legacy/Intake.antt =====
-- The first part of an empty line (src/finishing_line/process/legacy_sequencer.py: `_step_idle`).
use finishing_line.Common.{
  Bool, Option, String, false, if◌then◌else◌, is_empty, none, not, some, true, ◌&&◌,
}
use finishing_line.Legacy.{Ended, change, fault_with, faults, mint, say, take_next, waits, went}
use finishing_line.Legacy.Types.{Answers, Call, Cause, Eyes, LegacyPhase, Sequencer, Setup}
use finishing_line.Model.{Beat, PartRole, Station, nobody, set}

-- The part at the staging eye goes to O.
abbrev pub seen_entry : Option Eyes → Sequencer → Ended
seen_entry none s = none
seen_entry eyes s = went (change (record s { sensors = eyes }))

abbrev pub put_at_o : String × Sequencer → Sequencer
put_at_o (part_id, s) = record s {
  occ = set Station.o (some part_id) s.occ;
  beat = Beat.p1;
  phase = LegacyPhase.robot_work;
}

unfoldable pub first_entry : Setup → Answers → Option Bool → Sequencer → Ended
unfolding mint fault_with
first_entry u a none s = faults Cause.intake_failed s
first_entry u a (some false) s = faults Cause.first_entry_lost s
first_entry u a (some true) s =
    seen_entry a.eyes_after (say Call.read_eyes (put_at_o (take_next u PartRole.lead s.queue s)))

abbrev pub enter_first : Setup → Answers → Sequencer → Ended
enter_first u a s = first_entry u a a.arrival (say (Call.run_entry false) s)

-- The intake, with its answer.
unfoldable pub run_intake_with : Setup → Answers → Option Bool → Sequencer → Ended
unfolding first_entry fault_with
run_intake_with u a none s = faults Cause.intake_failed s
run_intake_with u a (some true) s = enter_first u a s
run_intake_with u a (some false) s =
    if u.continuous then waits Cause.waiting_for_parts s else faults Cause.not_at_infeed s

abbrev pub with_eyes : Setup → Answers → Option Eyes → Sequencer → Ended
with_eyes u a none s = faults Cause.intake_failed s
with_eyes u a (some e) s =
    let seen = record s { sensors = some e } in
    if e.staging
    then enter_first u a seen
    else run_intake_with u a a.intake (say Call.run_intake seen)

unfoldable pub step_idle : Setup → Answers → Sequencer → Ended
unfolding run_intake_with first_entry fault_with nobody
step_idle u a s =
    if not (nobody s.occ)
    then waits Cause.parts_on_line s
    else if is_empty s.queue && not u.continuous
    then waits Cause.nothing_declared s
    else with_eyes u a a.eyes (say Call.read_eyes s)
