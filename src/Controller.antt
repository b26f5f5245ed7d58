-- ===== src/Controller.antt =====
-- src/finishing_line/process/controller.py: the operator's commands. Each runs under one lock, so
-- a command is one step; a method returns the new controller.
pub mod Commands
pub mod Batches
pub mod Raising
use finishing_line.Common.{
  Bool, Dict, List, Option, String, [], contains, false, has, if◌then◌else◌, insert, none, not,
  some, true, ℕ, ◌%◌, ◌++◌, ◌+◌, ◌/◌, ◌==◌, ◌||◌, ◌∷◌,
}
use finishing_line.Executor.{Command, halt, reset, submit}
use finishing_line.Machine.{StepResult, is_faulted, resume}
use finishing_line.Model.{Beat, LineState, Occupancy, PartRole, PartState, Phase, Product, Reason}
use finishing_line.Persistence.{as_restored}
use finishing_line.Supervisor.{Readings, Supervisor, build_sensors, idle_tick, tick}

pub record Controller : Type 0 where
  pub sup : Supervisor
  pub enabled : Bool
  pub blocked_by : Option Reason
  pub declared : ℕ

-- `__init__`: a supervisor with a fresh line, and the snapshot that the store has, if any.
unfoldable pub start_up : Supervisor → Option (LineState × ℕ) → Controller
unfolding as_restored
start_up sup none = record { sup = sup; enabled = false; blocked_by = none; declared = 0 }
start_up sup (some (loaded, declared)) =
    let s = as_restored loaded in
    record {
      sup = record sup { state = s };
      enabled = false;
      blocked_by = s.fault;
      declared = declared;
    }

unfoldable pub set_running : Bool → Controller → Controller
set_running enabled c = record c { enabled = enabled }

unfoldable pub halt_line : Reason → Controller → Controller × List Command
unfolding halt
halt_line reason c =
    let (x, commands) = halt reason c.sup.executor in
    (record c { sup = record (c.sup) { executor = x } }, commands)

abbrev pub is_boundary : Phase → Bool
is_boundary Phase.robot_work = true
is_boundary Phase.faulted = true
is_boundary _ = false

abbrev pub ticked :
    Controller
    → Option (Supervisor × StepResult × List Command)
    → Option (Controller × List Command)
ticked c none = none
ticked c (some (sup, r, commands)) =
    some (record c { sup = sup; blocked_by = r.blocked_by }, commands)

-- One pass of the loop in which no device call raises (`Raising` has the others), without the saving of the state: a pause takes
-- effect at the beat's boundary.
unfoldable pub loop_pass : Controller → Readings → ℕ → Option (Controller × List Command)
unfolding tick idle_tick
loop_pass c now dt =
    if c.enabled || not (is_boundary c.sup.state.phase)
    then ticked c (tick c.sup now dt)
    else let (sup, commands) = idle_tick c.sup now.cc dt in some (record c { sup = sup }, commands)

-- What `ack_fault` returns.
pub record Answer : Type 0 where
  pub resumed : Bool
  pub reason : Option Reason

abbrev pub answer : Bool → Option Reason → Answer
answer resumed reason = record { resumed = resumed; reason = reason }

-- What `ack_fault` does with the result of `resume`.
unfoldable pub acknowledged : Controller → StepResult → Controller × Answer × List Command
unfolding submit reset
acknowledged c r =
    let sup = record (c.sup) { state = r.state; next_id = r.next_id } in
    let (x, commands) = submit r.intents (reset sup.executor) in
    if is_faulted r.state.phase then (record c { sup = sup }, answer false r.blocked_by, []) else (
      record c { sup = record sup { executor = x }; blocked_by = none },
      answer true none,
      commands,
    )

unfoldable pub ack_fault :
    Controller → Readings → Option Occupancy → Option Beat → Controller × Answer × List Command
unfolding resume acknowledged build_sensors
ack_fault c now occupancy beat =
    if is_faulted c.sup.state.phase
    then acknowledged c (
        resume c.sup.state (build_sensors now.cc now.robot_clear now.gun_on) occupancy beat
          c.sup.next_id)
    else (c, answer false (some Reason.not_faulted), [])

-- The part that is declared as number `declared` of all.
abbrev pub declare_part : Product → ℕ → String → PartState
declare_part product declared part_id = record {
  part_id = part_id;
  product = product;
  role = if declared % 2 == 0 then PartRole.lead else PartRole.trail;
  pair_index = declared / 2;
  coats_applied = 0;
  flash_1_s = 0;
  flash_2_s = 0;
  is_wet = false;
}

-- The loop of `declare_batch`: the counter after it, and the new parts unless it raised.
unfoldable pub declare_loop :
    LineState → Product → ℕ → Dict PartState → List String → ℕ × Option (Dict PartState)
declare_loop s product declared new_parts [] = (declared, some new_parts)
declare_loop s product declared new_parts (part_id ∷ part_ids) =
    let rest =
      declare_loop s product (declared + 1)
        (insert part_id (declare_part product declared part_id) new_parts) part_ids in
    if has part_id s.parts || contains part_id s.in_queue then (declared, none) else rest

-- `{**parts, **new_parts}`
unfoldable pub merge : Dict PartState → Dict PartState → Dict PartState
merge parts [] = parts
merge parts ((k, p) ∷ new_parts) = merge (insert k p parts) new_parts

-- The line after a batch was declared.
unfoldable pub staged : LineState → Dict PartState → List String → LineState
unfolding merge
staged s new_parts part_ids = record s {
  parts = merge s.parts new_parts;
  in_queue = s.in_queue ++ part_ids;
}

abbrev pub with_batch : Controller → List String → ℕ × Option (Dict PartState) → Controller × Bool
with_batch c part_ids (declared, none) = (record c { declared = declared }, false)
with_batch c part_ids (declared, some new_parts) = (
  record c {
    sup = record (c.sup) { state = staged c.sup.state new_parts part_ids };
    declared = declared;
  },
  true,
)

-- `false` is the ValueError of an id that exists.
unfoldable pub declare_batch : Product → List String → Controller → Controller × Bool
unfolding declare_loop staged
declare_batch product part_ids c =
    with_batch c part_ids (declare_loop c.sup.state product c.declared [] part_ids)
