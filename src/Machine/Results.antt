-- ===== src/Machine/Results.antt =====
-- src/finishing_line/core/machine.py: what a step reads and returns, and the fault path.
use finishing_line.Common.{
  Bool, List, Option, [], false, length, none, some, suc, true, ℕ, ◌++◌, ◌+◌, ◌∷◌,
}
use finishing_line.Intents.{Action, Intent, halt_zones, ids, stamp}
use finishing_line.Model.{LineState, Phase, Reason, SensorSnapshot}

pub record Inputs : Type 0 where
  pub dt : ℕ
  pub sensors : SensorSnapshot
  pub completed : List ℕ
  pub fault : Option Reason

-- `next_id` is the counter of intent ids after the call.
pub record StepResult : Type 0 where
  pub state : LineState
  pub intents : List Intent
  pub blocked_by : Option Reason
  pub next_id : ℕ

-- A result with no intents.
abbrev pub stay : LineState → Option Reason → ℕ → StepResult
stay s why n = record { state = s; intents = []; blocked_by = why; next_id = n }

abbrev pub is_faulted : Phase → Bool
is_faulted Phase.faulted = true
is_faulted _ = false

abbrev pub is_moving : Phase → Bool
is_moving Phase.moving = true
is_moving _ = false

-- `enter_fault` by whether the machine is faulted already.
abbrev pub fault_if : Bool → LineState → Reason → ℕ → StepResult
fault_if true s reason n = stay s s.fault n
fault_if false s reason n = record {
  state = record s {
    phase = Phase.faulted;
    fault = some reason;
    fault_phase = some s.phase;
    pending = [];
  };
  intents = stamp n (halt_zones reason ∷ []);
  blocked_by = some reason;
  next_id = suc n;
}

unfoldable pub enter_fault : LineState → Reason → ℕ → StepResult
enter_fault s reason n = fault_if (is_faulted s.phase) s reason n

unfoldable pub emit : LineState → Phase → List Action → ℕ → StepResult
emit s next_phase actions n =
    let made = stamp n actions in
    record {
      state = record s { phase = next_phase; pending = s.pending ++ ids made };
      intents = made;
      blocked_by = none;
      next_id = n + length actions;
    }

abbrev pub unless : Option Reason → Option StepResult → LineState → ℕ → Option StepResult
unless (some why) go s n = some (stay s (some why) n)
unless none go s n = go
