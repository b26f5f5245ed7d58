-- ===== src/Legacy/Types.antt =====
-- The state of the legacy sequencer (src/finishing_line/process/legacy_sequencer.py), the devices'
-- calls and their answers.
use finishing_line.Common.{Bool, Dict, List, Option, String, ℕ}
use finishing_line.Config.{ProcessConfig}
use finishing_line.Model.{Beat, Occupancy, PartState, Product, Station}

-- How a fan is wired (`FanMode` of src/finishing_line/config/loader.py).
pub data FanKind : Type 0 where
  always_on no_fan robot_do : FanKind

pub record FanMode : Type 0 where
  pub kind : FanKind
  pub do_pin : Option ℕ

pub data LegacyPhase : Type 0 where
  idle robot_work flash_wait stage transition faulted : LegacyPhase

-- One read of the sensors (`LegacyInputs` of src/finishing_line/devices/legacy_clearcore.py).
pub record Eyes : Type 0 where
  pub server_state : ℕ
  pub work_at_zero : Bool
  pub offload : Bool
  pub onload : Bool
  pub staging : Bool

-- The texts by which a step says why it waits or faults. The text of the exception that a device
-- call raised, which the code puts at the end of its own, is left out.
pub data Cause : Type 0 where
  feed_watch_failed parts_on_line nothing_declared not_at_infeed waiting_for_parts : Cause
  intake_failed first_entry_lost eyes_failed staging_failed junction_stuck : Cause
  robot_failed gun_clean_failed belt_failed : Beat → Cause
  flash_needs : (part_id : String) (seconds : ℕ) (at : Station) → Cause
  remove_finished f1_impossible entry_lost retreat_lost f2_impossible return_lost : Cause
  restarted_occupied line_not_faulted : Cause
  halted_for : String → Cause
  unknown_ids : List String → Cause

-- What a step last said about the staging.
pub data StageNote : Type 0 where
  no_note junction_empty nothing_staged staged_by_feed : StageNote
  slid staged_by_nudge : ℕ → StageNote

-- The calls of the devices, in the words of the train and of the robot.
pub data Call : Type 0 where
  poll_feed suspend_feed resume_feed run_intake run_stage stop_belts read_eyes safe_pose : Call
  run_entry run_retreat run_return : (o_occupied : Bool) → Call
  run_blind : (reduce_mm : ℕ) → Call
  sand_part clean_tip : String → Call
  spray_part : String → (coat : ℕ) → Call
  drive_fan : (pin : ℕ) → Bool → Call

-- What the sequencer is built with. `four_digits` is the format `04d`.
pub record Setup : Type 0 where
  pub cfg : ProcessConfig
  pub f1_mode : FanMode
  pub f2_mode : FanMode
  pub has_fan_do : Bool
  pub continuous : Bool
  pub mm_per_s : ℕ
  pub four_digits : ℕ → String

-- `pairs` is `_pair + 1`; `dirty` is what `on_change` sets; `calls` has the device calls so far, the
-- last one first.
pub record Sequencer : Type 0 where
  pub parts : Dict PartState
  pub occ : Occupancy
  pub queue : List String
  pub completed : List String
  pub declared : ℕ
  pub intake_product : Product
  pub minted : ℕ
  pub pairs : ℕ
  pub pending_enterer : Option String
  pub pending_clean : Bool
  pub probe_slide : ℕ
  pub beat : Beat
  pub phase : LegacyPhase
  pub fault : Option Cause
  pub stage_note : StageNote
  pub f1_commanded : Bool
  pub last_bank : ℕ
  pub sensors : Option Eyes
  pub dirty : Bool
  pub calls : List Call

-- The result of `stage`.
pub record Staged : Type 0 where
  pub is_staged : Bool
  pub nudged : Bool
  pub nudge_s : ℕ

-- What the devices and the clock answer to the calls of one step: `none` and `false` stand for a
-- call that raises.
pub record Answers : Type 0 where
  pub now : ℕ
  pub now_before_spray : ℕ
  pub now_after_spray : ℕ
  pub feed_polled : Bool
  pub suspended : Option Bool
  pub resumed : Bool
  pub eyes : Option Eyes
  pub eyes_after : Option Eyes
  pub intake : Option Bool
  pub arrival : Option Bool
  pub staging : Option Staged
  pub shuffled : Bool
  pub sanded : Bool
  pub sprayed : Bool
  pub posed : Bool
  pub cleaned : Bool
  pub fan_driven : Bool
