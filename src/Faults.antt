-- ===== src/Faults.antt =====
-- Faults (src/finishing_line/core/machine.py: `step` and `_enter_fault`): the way in, and what goes
-- on while the machine is faulted.
use finishing_line.Common.{
  Bool, Option, Option-cases, [], arith, false, inl, inr, refl, some, true, ℕ, ◌∷◌, ◌≡◌,
}
use finishing_line.Config.{ProcessConfig}
use finishing_line.Intents.{halt_zones}
use finishing_line.Machine.{
  Inputs, StepResult, enter_fault, fault_if, is_faulted, observe, respond, stay, step, unreported,
}
use finishing_line.Timers.{advance_flash_timers}
use finishing_line.Model.{LineState, Phase, Reason}

-- What a fault makes of a line: the parts have banked the step's flash time, and their places, the
-- moves under way, the queue, the beat and the fans are as before.
pub record IsHaltedFrom (s t : LineState) (dt : ℕ) (cfg : ProcessConfig) (why : Reason)
    : Type 0 where
  pub stopped : t.phase ≡ Phase.faulted
  pub reason : t.fault ≡ some why
  pub came_from : t.fault_phase ≡ some s.phase
  pub dropped : t.pending ≡ []
  pub parts : t.parts ≡ advance_flash_timers s dt cfg
  pub occupancy : t.occupancy ≡ s.occupancy
  pub in_queue : t.in_queue ≡ s.in_queue
  pub in_flight : t.in_flight ≡ s.in_flight
  pub beat : t.beat ≡ s.beat
  pub f1_fan : t.f1_fan ≡ s.f1_fan
  pub f2_fan : t.f2_fan ≡ s.f2_fan

abbrev pub Faults : LineState → ℕ → ProcessConfig → Reason → ℕ → StepResult → Type 0
Faults s dt cfg why n r =
    (r.intents ≡ record { intent_id = n; action = halt_zones why } ∷ [])
    × (r.blocked_by ≡ some why)
    × IsHaltedFrom s r.state dt cfg why

enter_fault-Faults :
    (s : LineState) (i : Inputs) (cfg : ProcessConfig) (why : Reason) (n : ℕ)
    → is_faulted s.phase ≡ false
    → Faults s i.dt cfg why n (enter_fault (observe s i cfg) why n)
unfolding enter_fault observe
enter_fault-Faults s i cfg why n live = go (is_faulted s.phase) live
  where
    go : (b : Bool) → b ≡ false → Faults s i.dt cfg why n (fault_if b (observe s i cfg) why n)
    go true e = absurd (ground arith)
    go false e = (
      refl,
      refl,
      record {
        stopped = refl;
        reason = refl;
        came_from = refl;
        dropped = refl;
        parts = refl;
        occupancy = refl;
        in_queue = refl;
        in_flight = refl;
        beat = refl;
        f1_fan = refl;
        f2_fan = refl;
      },
    )

-- A step that is given a fault from outside, in a machine that is not faulted, faults with that
-- reason whatever else it was given: its only intent is the halt of the belts, nothing stays
-- pending, and the parts, the occupancy, the moves under way and the fans stay as they were once
-- the step's flash time was banked.
pub step-Faults :
    (s : LineState) (i : Inputs) (cfg : ProcessConfig) (n : ℕ) (why : Reason)
    → is_faulted s.phase ≡ false
    → i.fault ≡ some why
    → (r : StepResult) × (step s i cfg n ≡ some r) × Faults s i.dt cfg why n r
unfolding step respond observe
step-Faults s i cfg n why live e =
    (enter_fault (observe s i cfg) why n, rw e refl, enter_fault-Faults s i cfg why n live)

-- What a step of a faulted machine leaves: everything but the flash time that it banks and the
-- reported intents that it strikes out.
pub record IsHeld (s : LineState) (i : Inputs) (cfg : ProcessConfig) (r : StepResult) : Type 0 where
  pub nothing : r.intents ≡ []
  pub banked : r.state.parts ≡ advance_flash_timers s i.dt cfg
  pub struck : r.state.pending ≡ unreported i.completed s.pending
  pub phase : r.state.phase ≡ s.phase
  pub fault : r.state.fault ≡ s.fault
  pub fault_phase : r.state.fault_phase ≡ s.fault_phase
  pub occupancy : r.state.occupancy ≡ s.occupancy
  pub in_queue : r.state.in_queue ≡ s.in_queue
  pub in_flight : r.state.in_flight ≡ s.in_flight
  pub beat : r.state.beat ≡ s.beat
  pub pair_index : r.state.pair_index ≡ s.pair_index
  pub shutter : r.state.shutter ≡ s.shutter
  pub burst : r.state.spray_burst_active ≡ s.spray_burst_active
  pub f1_fan : r.state.f1_fan ≡ s.f1_fan
  pub f2_fan : r.state.f2_fan ≡ s.f2_fan

observe-IsHeld :
    (s : LineState) (i : Inputs) (cfg : ProcessConfig) (why : Option Reason) (n : ℕ)
    → IsHeld s i cfg (stay (observe s i cfg) why n)
unfolding observe
observe-IsHeld s i cfg why n = record {
  nothing = refl;
  banked = refl;
  struck = refl;
  phase = refl;
  fault = refl;
  fault_phase = refl;
  occupancy = refl;
  in_queue = refl;
  in_flight = refl;
  beat = refl;
  pair_index = refl;
  shutter = refl;
  burst = refl;
  f1_fan = refl;
  f2_fan = refl;
}

-- A step of a faulted machine returns and asks for nothing, whatever the sensors and the devices
-- report, a further fault included: it banks the flash time, strikes out the reported intents, and
-- keeps every other field of the line.
pub step-absorbs :
    (s : LineState) (i : Inputs) (cfg : ProcessConfig) (n : ℕ)
    → s.phase ≡ Phase.faulted
    → (r : StepResult) × (step s i cfg n ≡ some r) × IsHeld s i cfg r
unfolding step respond observe enter_fault
step-absorbs s i cfg n e = (
  stay (observe s i cfg) s.fault n,
  elim (Option-cases i.fault) [
    | inl quiet ↦ rw quiet (rw e refl)
    | inr (why, given) ↦ rw given (rw e refl)
  ],
  observe-IsHeld s i cfg s.fault n,
)
