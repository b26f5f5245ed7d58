-- ===== src/Legacy/Step.antt =====
-- One step of the sequencer (src/finishing_line/process/legacy_sequencer.py: `step`).
use finishing_line.Common.{Bool, Option, false, if◌then◌else◌, none, some, true}
use finishing_line.Legacy.{Ended, bank, fault_with, faults, say}
use finishing_line.Legacy.Intake.{step_idle}
use finishing_line.Legacy.Robot.{step_flash, step_robot}
use finishing_line.Legacy.Staging.{step_stage}
use finishing_line.Legacy.Transition.{step_transition}
use finishing_line.Legacy.Types.{Answers, Call, Cause, LegacyPhase, Sequencer, Setup}

abbrev pub run_phase : Setup → Answers → LegacyPhase → Sequencer → Ended
run_phase u a LegacyPhase.idle s = step_idle u a s
run_phase u a LegacyPhase.robot_work s = step_robot u a s
run_phase u a LegacyPhase.flash_wait s = step_flash u a s
run_phase u a LegacyPhase.stage s = step_stage u a s
run_phase u a LegacyPhase.transition s = step_transition u a s
run_phase u a LegacyPhase.faulted s = some (s, s.fault)

abbrev pub is_legacy_faulted : LegacyPhase → Bool
is_legacy_faulted LegacyPhase.faulted = true
is_legacy_faulted _ = false

-- Every step but a faulted one polls the feed first.
abbrev pub poll_and_run : Setup → Answers → Sequencer → Ended
poll_and_run u a s =
    let polled = say Call.poll_feed s in
    if a.feed_polled then run_phase u a s.phase polled else faults Cause.feed_watch_failed polled

abbrev pub banked_step : Setup → Answers → Option Sequencer → Ended
banked_step u a none = none
banked_step u a (some s) =
    if is_legacy_faulted s.phase then some (s, s.fault) else poll_and_run u a s

unfoldable pub legacy_step : Setup → Answers → Sequencer → Ended
unfolding step_idle step_robot step_flash step_stage step_transition bank fault_with
legacy_step u a s = banked_step u a (bank u a.now s)
