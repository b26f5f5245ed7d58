-- ===== src/Discipline/Runs.antt =====
-- Runs of the controller (src/finishing_line/process/controller.py): what its loop, its worker and
-- the operator do, one after the other.
use finishing_line.Common.{
  Bool, Dict, List, Option, Option-cases, String, [], arith, false, if_elim, inl, inr, lookup, none,
  refl, some, subst, ℕ, ◌≡◌,
}
use finishing_line.Config.{ProcessConfig}
use finishing_line.Controller.{
  Answer, Controller, ack_fault, acknowledged, answer, declare_batch, declare_loop, halt_line,
  loop_pass, set_running, staged, with_batch,
}
use finishing_line.Discipline.{IsDisciplined, working_phase}
use finishing_line.Discipline.Batches.{IsBatch, WhenMade, declare_loop-Declared}
use finishing_line.Discipline.Resume.{resume-Keeps}
use finishing_line.Discipline.Staged.{staged-IsDisciplinedIn}
use finishing_line.Executor.{Command, Devices, finish, take}
use finishing_line.Discipline.Passes.{IsOrderly, Left, Passed, loop_pass-Passed, pass_raised-Left}
use finishing_line.Controller.Raising.{pass_raised}
use finishing_line.Intents.{ids}
use finishing_line.Machine.{StepResult, is_faulted, resume}
use finishing_line.Model.{PartState, Product, Reason, new_line, part_of}
use finishing_line.Supervisor.{Readings, build_sensors}

-- What happens to a controller: a pass of the loop, whether it returns or a device call ends it by
-- raising, a command, or a step of the worker, whose calls may raise. The ids of a batch are not empty and not repeated. The operator
-- who acknowledges a fault confirms the controller's map, and moves no part by hand.
pub data Happens : Controller → Controller → Type 0 where
  passes :
      {c d : Controller} (now : Readings) (dt : ℕ) (commands : List Command)
      → loop_pass c now dt ≡ some (d, commands)
      → Happens c d
  breaks :
      {c d : Controller} (raises : Devices) (now : Option Readings) (dt : ℕ)
      → pass_raised raises now c dt ≡ some d
      → Happens c d
  switches : {c : Controller} (enabled : Bool) → Happens c (set_running enabled c)
  halts : {c : Controller} (reason : Reason) → Happens c (halt_line reason c).0
  acknowledges : {c : Controller} (now : Readings) → Happens c (ack_fault c now none none).0
  declares :
      {c : Controller} (product : Product) (ids : List String)
      → IsBatch ids
      → Happens c (declare_batch product ids c).0
  takes :
      {c : Controller}
      → Happens c (record c { sup = record (c.sup) { executor = take c.sup.executor } })
  finishes :
      {c : Controller} (raises : Devices)
      → Happens c
          (record c { sup = record (c.sup) { executor = (finish raises c.sup.executor).0 } })

-- The controllers that a run from `c` leads to.
pub data Reaches (c : Controller) : Controller → Type 0 where
  not_yet : Reaches c c
  and_then : {d e : Controller} → Reaches c d → Happens d e → Reaches c e

abbrev Orderly : Controller × Answer × List Command → Type 0
Orderly (c, a, commands) = IsOrderly c

acknowledged-IsOrderly :
    (c : Controller) (r : StepResult)
    → IsDisciplined c.sup.cfg r.state
    → IsOrderly (acknowledged c r).0
unfolding acknowledged
acknowledged-IsOrderly c r d = if_elim Orderly (is_faulted r.state.phase) (λ _. d) (λ _. d)

ack_fault-IsOrderly :
    (c : Controller) (now : Readings) → IsOrderly c → IsOrderly (ack_fault c now none none).0
unfolding ack_fault
ack_fault-IsOrderly c now d =
    let r =
      resume c.sup.state (build_sensors now.cc now.robot_clear now.gun_on) none none
        c.sup.next_id in
    if_elim Orderly (is_faulted c.sup.state.phase) {x = acknowledged c r}
      {y = (c, answer false (some Reason.not_faulted), [])}
      (λ _. acknowledged-IsOrderly c r (
        resume-Keeps c.sup.cfg c.sup.state (build_sensors now.cc now.robot_clear now.gun_on)
          c.sup.next_id d))
      (λ _. d)

with_batch-IsOrderly :
    (c : Controller) (ids : List String) (r : ℕ × Option (Dict PartState))
    → IsBatch ids
    → WhenMade c.sup.state ids [] r
    → IsOrderly c
    → IsOrderly (with_batch c ids r).0
unfolding staged
with_batch-IsOrderly c ids (declared, none) b w d = d
with_batch-IsOrderly c ids (declared, some new) b w d =
    staged-IsDisciplinedIn c.sup.state ids new w
      (working_phase c.sup.state.phase c.sup.state.fault_phase) c.sup.cfg b d

declare_batch-IsOrderly :
    (c : Controller) (product : Product) (ids : List String)
    → IsBatch ids
    → IsOrderly c
    → IsOrderly (declare_batch product ids c).0
unfolding declare_batch
declare_batch-IsOrderly c product ids b d =
    with_batch-IsOrderly c ids (declare_loop c.sup.state product c.declared [] ids) b
      (declare_loop-Declared c.sup.state product c.declared ids []) d

-- Whatever happens to an orderly controller, it stays orderly.
Happens-IsOrderly : {c d : Controller} → Happens c d → IsOrderly c → IsOrderly d
unfolding set_running halt_line
Happens-IsOrderly (Happens.passes {c} {d} now dt commands e) h =
    subst Passed e (loop_pass-Passed c now dt h)
Happens-IsOrderly (Happens.breaks {c} {d} raises now dt e) h =
    subst Left e (pass_raised-Left raises now c dt h)
Happens-IsOrderly (Happens.switches enabled) h = h
Happens-IsOrderly (Happens.halts reason) h = h
Happens-IsOrderly (Happens.acknowledges {c} now) h = ack_fault-IsOrderly c now h
Happens-IsOrderly (Happens.declares {c} product batch b) h =
    declare_batch-IsOrderly c product batch b h
Happens-IsOrderly Happens.takes h = h
Happens-IsOrderly (Happens.finishes error) h = h

pub Reaches-IsOrderly : {c d : Controller} → Reaches c d → IsOrderly c → IsOrderly d
Reaches-IsOrderly Reaches.not_yet h = h
Reaches-IsOrderly (Reaches.and_then run event) h = Happens-IsOrderly event (Reaches-IsOrderly run h)

pub new_line-IsDisciplined : (cfg : ProcessConfig) → IsDisciplined cfg new_line
unfolding part_of lookup
new_line-IsDisciplined cfg = record {
  keyed = λ j p e. absurd (ground arith);
  slots = record {
    none_in = refl;
    none_out = refl;
    id_f1 = tt;
    id_o = tt;
    id_f2 = tt;
    f1_o = tt;
    f1_f2 = tt;
    o_f2 = tt;
    f1_queue = tt;
    o_queue = tt;
    f2_queue = tt;
  };
  held = (tt, tt, tt);
  queued = tt;
  stage = (refl, inl (tt, (tt, tt, tt)));
}

pub loop_pass-ends :
    (c : Controller) (now : Readings) (dt : ℕ)
    → IsOrderly c
    → (d : Controller) × (commands : List Command) × (loop_pass c now dt ≡ some (d, commands))
loop_pass-ends c now dt h = elim (Option-cases (loop_pass c now dt)) [
  | inl stuck ↦ absurd (subst Passed stuck (loop_pass-Passed c now dt h))
  | inr (r, e) ↦ (r.0, r.1, e)
]
