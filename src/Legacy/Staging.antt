-- ===== src/Legacy/Staging.antt =====
-- The staging of the next part (src/finishing_line/process/legacy_sequencer.py: `_step_stage`).
use finishing_line.Common.{Option, String, if◌then◌else◌, none, not, some, ◌*◌}
use finishing_line.Legacy.{Ended, fault_with, faults, mint, say, take_next, went}
use finishing_line.Legacy.Types.{
  Answers, Call, Cause, Eyes, LegacyPhase, Sequencer, Setup, StageNote, Staged,
}
use finishing_line.Model.{Beat, PartRole}

abbrev pub skip : StageNote → Sequencer → Ended
skip note s =
    went (record s { stage_note = note; pending_enterer = none; phase = LegacyPhase.transition })

abbrev pub entering : StageNote → String × Sequencer → Ended
entering note (part_id, s) =
    went (record s {
      stage_note = note;
      pending_enterer = some part_id;
      phase = LegacyPhase.transition;
    })

abbrev pub entry_role : Beat → PartRole
entry_role Beat.p1 = PartRole.trail
entry_role _ = PartRole.lead

-- What `stage` answered.
unfoldable pub staged_with : Setup → Option Staged → Sequencer → Ended
unfolding mint fault_with
staged_with u none s = faults Cause.staging_failed s
staged_with u (some r) s =
    let slide = r.nudge_s * u.mm_per_s in
    if r.is_staged
    then entering (if r.nudged then StageNote.staged_by_nudge slide else StageNote.staged_by_feed)
        (take_next u (entry_role s.beat) s.queue s)
    else if not u.continuous
    then faults Cause.junction_stuck s
    else if r.nudged
    then skip (StageNote.slid slide) (record s { probe_slide = slide })
    else skip StageNote.nothing_staged s

abbrev pub at_junction : Setup → Answers → Option Eyes → Sequencer → Ended
at_junction u a none s = faults Cause.eyes_failed s
at_junction u a (some e) s =
    let seen = record s { sensors = some e } in
    if e.onload
    then staged_with u a.staging (say Call.run_stage seen)
    else if u.continuous
    then skip StageNote.junction_empty seen
    else faults Cause.not_at_infeed seen

unfoldable pub step_stage : Setup → Answers → Sequencer → Ended
unfolding staged_with fault_with
step_stage u a s = at_junction u a a.eyes (say Call.read_eyes s)
