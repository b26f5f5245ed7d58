-- ===== src/Interlocks/Steps.antt =====
-- The interlocks in `step` (src/finishing_line/core/machine.py).
use finishing_line.Common.{List, Option, String, if◌then◌else◌, is_empty, none, refl, some, ℕ, ◌≡◌}
use finishing_line.Config.{ProcessConfig}
use finishing_line.Guards.{occupancy_mismatch}
use finishing_line.Intents.{advance_train, spray_part}
use finishing_line.Interlocks.{Asks, IsPermitted, MovePermitted, SprayPermitted}
use finishing_line.Interlocks.Phases.{dispatch-Permits, fault-IsPermitted, is_empty-eq}
use finishing_line.Machine.{
  Inputs, StepResult, is_faulted, is_moving, observe, proceed, respond, step,
}
use finishing_line.Model.{Direction, LineState, Move, Reason}
use finishing_line.Outcome.{Outcome, Outcome-if, Outcome-returned}

proceed-Permits :
    (mismatch : Option Reason) (s : LineState) (i : Inputs) (cfg : ProcessConfig) (n : ℕ)
    → (if is_moving s.phase then none else occupancy_mismatch s i.sensors) ≡ mismatch
    → Outcome Unit (IsPermitted s i cfg) (proceed mismatch s i cfg n)
unfolding proceed
proceed-Permits (some why) s i cfg n e = fault-IsPermitted s s i cfg why n
proceed-Permits none s i cfg n e =
    Outcome-if Unit (IsPermitted s i cfg) (is_empty s.pending) _ _
      (λ done.
        dispatch-Permits s i cfg n (is_empty-eq s.pending done) s.phase refl
          (λ still. rw still at e))
      (λ _. (λ _ _ h. absurd h, λ _ _ h. absurd h))

respond-Permits :
    (fault : Option Reason) (s : LineState) (i : Inputs) (cfg : ProcessConfig) (n : ℕ)
    → Outcome Unit (IsPermitted s i cfg) (respond fault s i cfg n)
unfolding respond
respond-Permits (some why) s i cfg n = fault-IsPermitted s s i cfg why n
respond-Permits none s i cfg n =
    Outcome-if Unit (IsPermitted s i cfg) (is_faulted s.phase) _ _
      (λ _. (λ _ _ h. absurd h, λ _ _ h. absurd h)) (λ _. proceed-Permits _ s i cfg n refl)

pub step-Permits :
    (s : LineState) (i : Inputs) (cfg : ProcessConfig) (n : ℕ)
    → Outcome Unit (IsPermitted (observe s i cfg) i cfg) (step s i cfg n)
unfolding step
step-Permits s i cfg n = respond-Permits i.fault (observe s i cfg) i cfg n

-- When a step asks for a spray of a part, the machine is in the phase of the robot's work with no
-- intent outstanding; the part is recorded at O, has the beat's role and lacks the beat's coat,
-- which is the one that is asked for; the shutter is closed, the sensor sees a part at O, and the
-- sensors agree with the recorded occupancy. `observe` has banked the step's flash time before.
pub spray-SprayPermitted :
    (s : LineState) (i : Inputs) (cfg : ProcessConfig) (n : ℕ) (r : StepResult) (id : String)
    (coat : ℕ)
    → step s i cfg n ≡ some r
    → Asks (spray_part id coat) r.intents
    → SprayPermitted (observe s i cfg) i.sensors id coat
spray-SprayPermitted s i cfg n r id coat e asked =
    (Outcome-returned Unit (IsPermitted (observe s i cfg) i cfg) (step s i cfg n) r e
        (step-Permits s i cfg n)).0
      id coat asked

-- When a step asks for a motion of the belts, it is that of the beat, with the moves whose sources
-- hold a part; no intent is outstanding, the shutter is open, the robot is clear, the gun is off,
-- and the departure guard lets every one of the moves go.
pub advance-MovePermitted :
    (s : LineState) (i : Inputs) (cfg : ProcessConfig) (n : ℕ) (r : StepResult)
    (direction : Direction) (moves : List Move)
    → step s i cfg n ≡ some r
    → Asks (advance_train direction moves) r.intents
    → MovePermitted (observe s i cfg) i.sensors cfg direction moves
advance-MovePermitted s i cfg n r direction moves e asked =
    (Outcome-returned Unit (IsPermitted (observe s i cfg) i cfg) (step s i cfg n) r e
        (step-Permits s i cfg n)).1
      direction moves asked
