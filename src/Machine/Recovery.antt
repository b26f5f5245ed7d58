-- ===== src/Machine/Recovery.antt =====
-- src/finishing_line/core/machine.py: `resume`.
use finishing_line.Common.{
  Bool, Option, [], false, if◌then◌else◌, is_empty, none, not, some, suc, true, ℕ, ◌&&◌, ◌∷◌,
}
use finishing_line.Guards.{occupancy_mismatch}
use finishing_line.Intents.{move_to_safe_pose, stamp}
use finishing_line.Machine.Moves.{apply_moves}
use finishing_line.Machine.Results.{StepResult, is_faulted, is_moving, stay}
use finishing_line.Model.{Beat, LineState, Occupancy, Phase, Reason, SensorSnapshot, occupancy_eq}

abbrev pub or_given {ℓ} : {A : Type ℓ} → Option A → A → A
or_given (some a) other = a
or_given none other = other

-- The phase to go on with, and the state to go on from, after a fault in the phase `entry`.
abbrev pub is_post_move : Phase → Bool
is_post_move Phase.shutter_close = true
is_post_move Phase.set_fans = true
is_post_move _ = false

unfoldable pub reenter_at : Phase → LineState → Occupancy → Beat → Phase × LineState
unfolding apply_moves occupancy_eq
reenter_at entry s occupancy beat =
    let candidate = record s { occupancy = occupancy; beat = beat } in
    let projected = apply_moves (record s { fault = none }) s.in_flight in
    if is_post_move entry
    then (Phase.shutter_close, candidate)
    else if is_moving entry && not (is_empty s.in_flight)
    then (if occupancy_eq occupancy projected.occupancy
        then (Phase.shutter_close, record projected { beat = beat })
        else if occupancy_eq occupancy s.occupancy
        then (Phase.await_guards, candidate)
        else (Phase.robot_work, candidate))
    else (Phase.robot_work, candidate)

unfoldable pub reenter : LineState → Occupancy → Beat → Phase × LineState
unfolding reenter_at
reenter s occupancy beat = reenter_at (or_given s.fault_phase Phase.robot_work) s occupancy beat

-- The last check of `resume`, against the presence sensors.
unfoldable pub settle : Option Reason → LineState → Occupancy → LineState → ℕ → StepResult
settle (some why) s occupancy candidate n =
    stay (record s { occupancy = occupancy }) (some (Reason.resume_rejected why)) (suc n)
settle none s occupancy candidate n = record {
  state = candidate;
  intents = stamp n (move_to_safe_pose ∷ []);
  blocked_by = none;
  next_id = suc n;
}

abbrev pub restart : Phase × LineState → ℕ → LineState
restart (target, candidate) n = record candidate {
  phase = target;
  fault = none;
  fault_phase = none;
  pending = n ∷ [];
  in_flight = [];
}

unfoldable pub resume : LineState → SensorSnapshot → Option Occupancy → Option Beat → ℕ → StepResult
unfolding reenter settle occupancy_mismatch
resume s sensors confirmed_occupancy beat n =
    let occupancy = or_given confirmed_occupancy s.occupancy in
    let candidate = restart (reenter s occupancy (or_given beat s.beat)) n in
    if is_faulted s.phase
    then settle (occupancy_mismatch candidate sensors) s occupancy candidate n
    else stay s (some Reason.not_faulted) n
