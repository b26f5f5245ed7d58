-- ===== src/Legacy.antt =====
-- src/finishing_line/process/legacy_sequencer.py: the schedule on the legacy line. This file has the
-- helpers of the sequencer's steps; `Types` has its state, and the other children have the steps.
mod Types
pub mod Intake
pub mod Robot
pub mod Staging
pub mod Transition
pub mod Step
pub mod Commands
pub mod Still
pub mod Waiting
pub mod Coats
pub mod Alone
pub mod Known
pub mod Places
pub mod Belt
pub mod Invariant
pub mod Count
pub mod Tally
pub use Types.{
  FanKind, FanMode, LegacyPhase, Eyes, Cause, StageNote, Call, Setup, Sequencer, Staged, Answers,
}
use finishing_line.Common.{
  Bool, Dict, List, Option, String, [], false, if◌then◌else◌, insert, leb, lookup, none, not, same,
  some, true, truthy, ℕ, ◌&&◌, ◌+◌, ◌-◌, ◌<>◌, ◌==◌, ◌||◌, ◌∷◌,
}
use finishing_line.Config.{ProcessConfig}
use finishing_line.Legacy.Types.{Call, Cause, FanKind, FanMode, LegacyPhase, Sequencer, Setup}
use finishing_line.Model.{Beat, PartRole, PartState, Product, Station, active_flash_seconds}
use finishing_line.Timers.{dried}

abbrev pub is_robot_do : FanKind → Bool
is_robot_do FanKind.robot_do = true
is_robot_do _ = false

-- `FanMode.controllable`
unfoldable pub controllable : FanMode → Bool
controllable m = is_robot_do m.kind

-- A step returns the reason for which it waits, if any; `none` is a step that raises.
abbrev pub Ended : Type 0
Ended = Option (Sequencer × Option Cause)

abbrev pub went : Sequencer → Ended
went s = some (s, none)

abbrev pub waits : Cause → Sequencer → Ended
waits why s = some (s, some why)

abbrev pub say : Call → Sequencer → Sequencer
say c s = record s { calls = c ∷ s.calls }

abbrev pub change : Sequencer → Sequencer
change s = record s { dirty = true }

-- `_fault`
unfoldable pub fault_with : Cause → Sequencer → Sequencer
fault_with why s =
    change (say Call.stop_belts (record s { fault = some why; phase = LegacyPhase.faulted }))

abbrev pub faults : Cause → Sequencer → Ended
faults why s = some (fault_with why s, some why)

-- `_fan_on`
unfoldable pub fan_on : Setup → Sequencer → Station → Bool
unfolding controllable
fan_on u s Station.f1 = if controllable u.f1_mode then s.f1_commanded else true
fan_on u s _ = true

-- `_set_f1`, with the fan's command; whether its call, if any, returns is `driven`.
abbrev pub drive_pin : Bool → Option ℕ → Bool → Sequencer → Sequencer
drive_pin true (some pin) on s = say (Call.drive_fan pin on) s
drive_pin _ _ on s = s

abbrev pub set_works : Bool → Option ℕ → Bool → Bool
set_works true (some pin) driven = driven
set_works _ _ driven = true

unfoldable pub set_f1 : Setup → Bool → Bool → Sequencer → Sequencer × Bool
unfolding controllable
set_f1 u driven on s =
    if controllable u.f1_mode && not (same s.f1_commanded on)
    then (
      drive_pin u.has_fan_do u.f1_mode.do_pin on (record s { f1_commanded = on }),
      set_works u.has_fan_do u.f1_mode.do_pin driven,
    )
    else (s, true)

-- `bank`: the time since the last call goes to the has_coated parts at running fans. `none` is the
-- KeyError of an occupant that has no part.
abbrev pub credited :
    ProcessConfig → ℕ → Bool → String → Option PartState → Dict PartState → Option (Dict PartState)
credited cfg dt on part_id none parts = none
credited cfg dt on part_id (some p) parts =
    if p.coats_applied == 0 || not on
    then some parts
    else some (insert part_id (dried p dt cfg) parts)

abbrev pub bank_one :
    ProcessConfig → ℕ → Bool → Option String → Dict PartState → Option (Dict PartState)
bank_one cfg dt on none parts = some parts
bank_one cfg dt on (some part_id) parts = credited cfg dt on part_id (lookup part_id parts) parts

abbrev pub then_bank :
    ProcessConfig → ℕ → Bool → Option String → Option (Dict PartState) → Option (Dict PartState)
then_bank cfg dt on occupant none = none
then_bank cfg dt on occupant (some parts) = bank_one cfg dt on occupant parts

abbrev pub with_parts : Sequencer → Option (Dict PartState) → Option Sequencer
with_parts s none = none
with_parts s (some parts) = some (record s { parts = parts })

unfoldable pub bank : Setup → ℕ → Sequencer → Option Sequencer
unfolding fan_on dried
bank u now s =
    let dt = now - s.last_bank in
    if leb now s.last_bank
    then some (record s { last_bank = now })
    else with_parts (record s { last_bank = now })
        (then_bank u.cfg dt (fan_on u s Station.f2) s.occ.at_f2
          (bank_one u.cfg dt (fan_on u s Station.f1) s.occ.at_f1 s.parts))

-- `_flash_block`; the outer `none` is the KeyError of an id that has no part.
abbrev pub flash_need : ProcessConfig → String → Station → PartState → Option Cause
flash_need cfg part_id station p =
    if p.coats_applied == 0 || leb cfg.flash_seconds (active_flash_seconds p)
    then none
    else some (Cause.flash_needs part_id (cfg.flash_seconds - active_flash_seconds p) station)

abbrev pub flash_block : ProcessConfig → String → Station → Option PartState → Option (Option Cause)
flash_block cfg part_id station none = none
flash_block cfg part_id station (some p) = some (flash_need cfg part_id station p)

-- `_mint`: an identity for the part that the sensors have delivered.
abbrev pub initial : Product → String
initial Product.cube = "c"
initial Product.browser = "b"

abbrev pub minted_id : Setup → Sequencer → String
minted_id u s = initial s.intake_product <> u.four_digits (s.minted + 1)

abbrev pub pairs_after : PartRole → ℕ → ℕ
pairs_after PartRole.lead n = n + 1
pairs_after PartRole.trail n = n

unfoldable pub mint : Setup → PartRole → Sequencer → Sequencer
mint u role s =
    let pairs = pairs_after role s.pairs in
    change (record s {
      minted = s.minted + 1;
      pairs = pairs;
      parts =
          insert (minted_id u s)
            (record {
              part_id = minted_id u s;
              product = s.intake_product;
              role = role;
              pair_index = pairs - 1;
              coats_applied = 0;
              flash_1_s = 0;
              flash_2_s = 0;
              is_wet = false;
            })
            s.parts;
    })

-- The next part to enter: the head of the queue, or a minted one.
abbrev pub take_next : Setup → PartRole → List String → Sequencer → String × Sequencer
take_next u role [] s = (minted_id u s, mint u role s)
take_next u role (part_id ∷ rest) s = (part_id, record s { queue = rest })

-- An entry beat's transition takes a new part to O.
unfoldable pub is_entry : Beat → Bool
is_entry Beat.p1 = true
is_entry Beat.p4 = true
is_entry _ = false

abbrev pub someone : Option String → Bool
someone = truthy
