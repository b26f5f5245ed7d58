-- ===== src/Discipline/Passes.antt =====
-- A pass of the loop (src/finishing_line/process/controller.py: `_loop`) and the flash discipline,
-- whether the pass returns or a device call ends it by raising.
use finishing_line.Common.{
  ap, is_some, ◌++◌, ◌∷◌, List, Option, [], false, if_elim, none, not, refl, some, true, ℕ, ◌||◌,
  ◌≡◌,
}
use finishing_line.Controller.{Controller, is_boundary, loop_pass, ticked}
use finishing_line.Discipline.{IsDisciplined, working_phase}
use finishing_line.Discipline.Aging.{observe-IsDisciplined}
use finishing_line.Discipline.Phases.{step-Keeps}
use finishing_line.Discipline.Steps.{Keeps}
use finishing_line.Executor.{
  Command, Devices, Executor, completed, heartbeat, make_calls, submit_one,
}
use finishing_line.Intents.{Intent}
use finishing_line.Executor.Latch.{Returns, make_calls-Returns}
use finishing_line.Controller.Raising.{left_with, pass_raised}
use finishing_line.Supervisor.Raising.{after_raised, idle_raised, submit_raising, tick_raised}
use finishing_line.Machine.{StepResult, observe, step}
use finishing_line.Model.{SensorSnapshot}
use finishing_line.Outcome.{Outcome}
use finishing_line.Supervisor.{
  force_fans, ClearCoreInputs, Readings, Supervisor, after_step, build_sensors, idle_tick,
  inputs_of, sensed, tick,
}

abbrev pub IsOrderly : Controller → Type 0
IsOrderly c = IsDisciplined c.sup.cfg c.sup.state

-- A cycle, and a pass of the loop, that came to an end in an orderly state.
abbrev Ticked : Option (Supervisor × StepResult × List Command) → Type 0
Ticked none = ⊥
Ticked (some (sup, r, commands)) = IsDisciplined sup.cfg sup.state

abbrev pub Passed : Option (Controller × List Command) → Type 0
Passed none = ⊥
Passed (some (c, commands)) = IsOrderly c

after_step-Ticked :
    (m : Option StepResult) (sup : Supervisor) (x : Executor) (sensors : SensorSnapshot)
    → Outcome ⊥ (Keeps sup.cfg) m
    → Ticked (after_step m sup x sensors)
unfolding after_step
after_step-Ticked (some r) sup x sensors h = h
after_step-Ticked none sup x sensors h = h

tick-Ticked :
    (sup : Supervisor) (now : Readings) (dt : ℕ)
    → IsDisciplined sup.cfg sup.state
    → Ticked (tick sup now dt)
unfolding tick
tick-Ticked sup now dt d =
    after_step-Ticked (step (sensed sup.state now.cc) (inputs_of sup now dt) sup.cfg sup.next_id)
      sup (completed sup.executor).0 (inputs_of sup now dt).sensors
      (step-Keeps sup.cfg (sensed sup.state now.cc) (inputs_of sup now dt) sup.next_id d)

ticked-Passed :
    (c : Controller) (m : Option (Supervisor × StepResult × List Command))
    → Ticked m
    → Passed (ticked c m)
ticked-Passed c (some (sup, r, commands)) h = h
ticked-Passed c none h = h

idle_tick-IsOrderly :
    (sup : Supervisor) (cc : ClearCoreInputs) (dt : ℕ)
    → IsDisciplined sup.cfg sup.state
    → IsDisciplined (idle_tick sup cc dt).0.cfg (idle_tick sup cc dt).0.state
unfolding idle_tick observe
idle_tick-IsOrderly sup cc dt d =
    observe-IsDisciplined (working_phase sup.state.phase sup.state.fault_phase) sup.cfg
      (sensed sup.state cc)
      (record { dt = dt; sensors = build_sensors cc true false; completed = []; fault = none }) d

pub loop_pass-Passed :
    (c : Controller) (now : Readings) (dt : ℕ) → IsOrderly c → Passed (loop_pass c now dt)
unfolding loop_pass
loop_pass-Passed c now dt d =
    if_elim Passed (c.enabled || not (is_boundary c.sup.state.phase))
      (λ _. ticked-Passed c (tick c.sup now dt) (tick-Ticked c.sup now dt d))
      (λ _. idle_tick-IsOrderly c.sup now.cc dt d)

-- What a pass that raised leaves.
abbrev Broken : Option Supervisor → Type 0
Broken none = Unit {0}
Broken (some sup) = IsDisciplined sup.cfg sup.state

abbrev pub Left : Option Controller → Type 0
Left none = Unit {0}
Left (some c) = IsOrderly c

left_with-Left : (c : Controller) (m : Option Supervisor) → Broken m → Left (left_with c m)
left_with-Left c none h = tt
left_with-Left c (some sup) h = h

after_raised-Broken :
    (raises : Devices) (m : Option StepResult) (sup : Supervisor) (x : Executor)
    (sensors : SensorSnapshot)
    → Outcome ⊥ (Keeps sup.cfg) m
    → Broken (after_raised raises m sup x sensors)
unfolding after_raised
after_raised-Broken raises none sup x sensors h = elim h [ ]
after_raised-Broken raises (some r) sup x sensors h =
    let last = force_fans (is_some sup.state.fault) r.state.fault sensors ++ heartbeat ∷ [] in
    if_elim Broken ((submit_raising raises r.intents x).1 || is_some (make_calls raises last).1)
      (λ _. h) (λ _. tt)

tick_raised-Broken :
    (raises : Devices) (m : Option Readings) (sup : Supervisor) (dt : ℕ)
    → IsDisciplined sup.cfg sup.state
    → Broken (tick_raised raises m sup dt)
unfolding tick_raised
tick_raised-Broken raises none sup dt d = d
tick_raised-Broken raises (some now) sup dt d =
    after_raised-Broken raises
      (step (sensed sup.state now.cc) (inputs_of sup now dt) sup.cfg sup.next_id) sup
      (completed sup.executor).0 (inputs_of sup now dt).sensors
      (step-Keeps sup.cfg (sensed sup.state now.cc) (inputs_of sup now dt) sup.next_id d)

idle_raised-Broken :
    (raises : Devices) (m : Option Readings) (sup : Supervisor) (dt : ℕ)
    → IsDisciplined sup.cfg sup.state
    → Broken (idle_raised raises m sup dt)
unfolding idle_raised
idle_raised-Broken raises none sup dt d = d
idle_raised-Broken raises (some now) sup dt d =
    if_elim Broken (is_some (make_calls raises (idle_tick sup now.cc dt).1).1)
      (λ _. idle_tick-IsOrderly sup now.cc dt d) (λ _. tt)

pub pass_raised-Left :
    (raises : Devices) (now : Option Readings) (c : Controller) (dt : ℕ)
    → IsOrderly c
    → Left (pass_raised raises now c dt)
unfolding pass_raised
pass_raised-Left raises now c dt d =
    if_elim Left (c.enabled || not (is_boundary c.sup.state.phase))
      (λ _.
        left_with-Left c (tick_raised raises now c.sup dt)
          (tick_raised-Broken raises now c.sup dt d))
      (λ _.
        left_with-Left c (idle_raised raises now c.sup dt)
          (idle_raised-Broken raises now c.sup dt d))

submit_raising-Returns :
    (raises : Devices) (intents : List Intent) (x : Executor)
    → Returns raises
    → (submit_raising raises intents x).1 ≡ false
unfolding submit_raising
submit_raising-Returns raises [] x h = refl
submit_raising-Returns raises (i ∷ intents) x h =
    let (y, commands) = submit_one i i.action x in
    rw (make_calls-Returns raises commands h) (submit_raising-Returns raises intents y h)

after_raised-none :
    (raises : Devices) (m : Option StepResult) (sup : Supervisor) (x : Executor)
    (sensors : SensorSnapshot)
    → Returns raises
    → Outcome ⊥ (Keeps sup.cfg) m
    → after_raised raises m sup x sensors ≡ none
unfolding after_raised
after_raised-none raises none sup x sensors h k = elim k [ ]
after_raised-none raises (some r) sup x sensors h k =
    let last = force_fans (is_some sup.state.fault) r.state.fault sensors ++ heartbeat ∷ [] in
    rw (submit_raising-Returns raises r.intents x h, make_calls-Returns raises last h) refl

-- An orderly controller's pass raises by a device call only.
pub pass_raised-none :
    (raises : Devices) (now : Readings) (c : Controller) (dt : ℕ)
    → Returns raises
    → IsOrderly c
    → pass_raised raises (some now) c dt ≡ none
unfolding pass_raised tick_raised idle_raised
pass_raised-none raises now c dt h d =
    let sup = c.sup in
    if_elim (λ (m : Option Controller). m ≡ none) (c.enabled || not (is_boundary c.sup.state.phase))
      (λ _. ap (left_with c) (
        after_raised-none raises
          (step (sensed sup.state now.cc) (inputs_of sup now dt) sup.cfg sup.next_id) sup
          (completed sup.executor).0 (inputs_of sup now dt).sensors h
          (step-Keeps sup.cfg (sensed sup.state now.cc) (inputs_of sup now dt) sup.next_id d)))
      (λ _. rw (make_calls-Returns raises (idle_tick sup now.cc dt).1 h) refl)
