-- ===== src/ClearCore/Arming.antt =====
-- The pass of the firmware that takes a request for a motion to a sensor's edge
-- (src/finishing_line/sim/fake_clearcore.py: `_tick`).
use finishing_line.ClearCore.{edge_code}
use finishing_line.Common.{
  Bool, List, Option, [], arith, false, if_elim, if◌then◌else◌, none, not, refl, some, sym, true, ℕ,
  ◌*◌, ◌-◌, ◌==◌, ◌∙◌, ◌∷◌, ◌≡◌,
}
use finishing_line.Firmware.{
  Deadline, Table, Timing, ZoneBlock, arm_edge, distance_tick, falling_bit, level, poke, reached,
  run_distance, sensor_reg, sensor_stop_tick, watch_edge, zone_tick,
}
use finishing_line.Firmware.Edges.{
  Look, StateIs, has_stop, next_pass, passes_over, sensor_stop_tick-watch, watching-StateIs,
}
use finishing_line.Model.{Zone}
use finishing_line.Registers.{
  f1_eye_in, f2_eye_in, mode_continuous, mode_distance, mode_idle, mode_sensor_stop, o_eye_in,
  state_moving, state_ready, z1_eye_in, z2_eye_in, zone_regs,
}
use finishing_line.Train.{SensorTarget}

-- The sensor of a target, and the zone's motion once it is armed.
abbrev pub eye_of : SensorTarget → ℕ
eye_of SensorTarget.f1_seen = f1_eye_in
eye_of SensorTarget.o_seen = o_eye_in
eye_of SensorTarget.f2_seen = f2_eye_in
eye_of SensorTarget.z1_seen = z1_eye_in
eye_of SensorTarget.z2_seen = z2_eye_in

-- The firmware reads the code as the client meant it.
decoded :
    (sensor : SensorTarget) (falling : Bool)
    → (sensor_reg (edge_code sensor falling - 8 * falling_bit (edge_code sensor falling))
        ≡ some (eye_of sensor))
      × ((falling_bit (edge_code sensor falling) == 0) ≡ not falling)
decoded SensorTarget.f1_seen true = (refl, refl)
decoded SensorTarget.f1_seen false = (refl, refl)
decoded SensorTarget.o_seen true = (refl, refl)
decoded SensorTarget.o_seen false = (refl, refl)
decoded SensorTarget.f2_seen true = (refl, refl)
decoded SensorTarget.f2_seen false = (refl, refl)
decoded SensorTarget.z1_seen true = (refl, refl)
decoded SensorTarget.z1_seen false = (refl, refl)
decoded SensorTarget.z2_seen true = (refl, refl)
decoded SensorTarget.z2_seen false = (refl, refl)

abbrev pub armed_block : SensorTarget → Bool → ℕ → Table → ZoneBlock → ZoneBlock
armed_block sensor falling id discrete z = record z {
  last_reqid = id;
  edge_watch = some (record {
    sensor = eye_of sensor;
    want_rising = not falling;
    last_seen = level discrete (eye_of sensor);
  });
}

abbrev pub acked : Zone → ℕ → Table → Table
acked zone id inputs =
    poke (zone_regs zone).ack id (poke (zone_regs zone).state state_moving inputs)

-- The registers ask for a motion to an edge.
pub record IsAsked (zone : Zone) (sensor : SensorTarget) (falling : Bool) (id : ℕ) (holding : Table)
    : Type 0 where
  pub mode : holding (zone_regs zone).mode ≡ mode_sensor_stop
  pub target : holding (zone_regs zone).target ≡ edge_code sensor falling
  pub reqid : holding (zone_regs zone).reqid ≡ id

-- The pass in which the firmware meets a request under a new id.
until-armed :
    (zone : Zone) (timing : Timing) (look : Look) (sensor : SensorTarget) (falling : Bool) (id : ℕ)
    (holding : Table) (z : ZoneBlock) (inputs : Table)
    → IsAsked zone sensor falling id holding
    → look.tripped ≡ false
    → (id == z.last_reqid) ≡ false
    → next_pass zone timing holding look (some (z, inputs))
      ≡ some (armed_block sensor falling id look.discrete z, acked zone id inputs)
unfolding zone_tick sensor_stop_tick arm_edge
until-armed zone timing look sensor falling id holding z inputs asked live is_new =
    let (eye, rising) = decoded sensor falling in
    rw (live, asked.mode, asked.target, asked.reqid, is_new, eye, rising) refl

acked-state :
    (zone : Zone) (id : ℕ) (inputs : Table)
    → acked zone id inputs (zone_regs zone).state ≡ state_moving
acked-state Zone.z1 id inputs = refl
acked-state Zone.z2 id inputs = refl

-- No motion to an edge is under way, and no request is new.
abbrev pub IsAtRest : ℕ → Option (ZoneBlock × Table) → Type 0
IsAtRest id none = ⊥
IsAtRest id (some (z, inputs)) = (z.edge_watch ≡ none) × (z.last_reqid ≡ id)

run_distance-IsAtRest :
    (zone : Zone) (timing : Timing) (now id : ℕ) (m : Option Deadline) (inputs : Table)
    (z : ZoneBlock)
    → IsAtRest id (some (z, inputs))
    → IsAtRest id (some (run_distance zone timing now m inputs z))
unfolding run_distance
run_distance-IsAtRest zone timing now id none inputs z h = h
run_distance-IsAtRest zone timing now id (some deadline) inputs z h =
    if_elim (λ (r : ZoneBlock × Table). IsAtRest id (some r)) (reached timing now deadline) (λ _. h)
      (λ _. h)

-- A pass that finds no new request leaves a zone at rest, whatever its mode.
next_pass-IsAtRest :
    (zone : Zone) (timing : Timing) (holding : Table) (look : Look) (id : ℕ) (z : ZoneBlock)
    (inputs : Table)
    → holding (zone_regs zone).reqid ≡ id
    → IsAtRest id (some (z, inputs))
    → IsAtRest id (next_pass zone timing holding look (some (z, inputs)))
unfolding zone_tick distance_tick
next_pass-IsAtRest zone timing holding look id z inputs same_id (over, last) =
    let old : (holding (zone_regs zone).reqid == z.last_reqid) ≡ true = ground arith in
    let watching =
      sensor_stop_tick-watch zone holding look.discrete inputs z none (same_id ∙ sym last) over in
    let mode = holding (zone_regs zone).mode in
    if_elim (IsAtRest id) look.tripped (λ _. (refl, last))
      (λ _.
        if_elim (IsAtRest id) (mode == mode_continuous) (λ _. (refl, last))
          (λ _.
            if_elim (IsAtRest id) (mode == mode_idle) (λ _. (refl, last))
              (λ _.
                if_elim (IsAtRest id) (mode == mode_distance)
                  (λ _. rw old (
                    run_distance-IsAtRest zone timing look.now id z.move_done_at inputs z
                      (over, last)))
                  (λ _.
                    if_elim (IsAtRest id) (mode == mode_sensor_stop)
                      (λ _. rw watching (unfold watch_edge in (over, last))) (λ _. (over, last))))))

pub passes_over-IsAtRest :
    (zone : Zone) (timing : Timing) (holding : Table) (looks : List Look) (id : ℕ)
    (m : Option (ZoneBlock × Table))
    → holding (zone_regs zone).reqid ≡ id
    → IsAtRest id m
    → IsAtRest id (passes_over zone timing holding looks m)
unfolding passes_over
passes_over-IsAtRest zone timing holding [] id m same_id h = h
passes_over-IsAtRest zone timing holding (look ∷ looks) id none same_id h = elim h [ ]
passes_over-IsAtRest zone timing holding (look ∷ looks) id (some (z, inputs)) same_id h =
    passes_over-IsAtRest zone timing holding looks id
      (next_pass zone timing holding look (some (z, inputs))) same_id
      (next_pass-IsAtRest zone timing holding look id z inputs same_id h)

-- The request is taken in the first pass after its last write.
pub taken-StateIs :
    (zone : Zone) (timing : Timing) (sensor : SensorTarget) (falling : Bool) (id old : ℕ)
    (holding : Table) (look : Look) (looks : List Look) (m : Option (ZoneBlock × Table))
    → IsAsked zone sensor falling id holding
    → look.tripped ≡ false
    → (id == old) ≡ false
    → IsAtRest old m
    → StateIs zone
        (if has_stop (eye_of sensor) (not falling) (level look.discrete (eye_of sensor)) looks
          then state_ready
          else state_moving)
        (passes_over zone timing holding (look ∷ looks) m)
unfolding passes_over
taken-StateIs zone timing sensor falling id old holding look looks none asked live is_new h =
    elim h [ ]
taken-StateIs zone timing sensor falling id old holding look looks (some (z, inputs)) asked live
      is_new (over, last) =
    let fresh : (id == z.last_reqid) ≡ false = ground arith in
    rw (until-armed zone timing look sensor falling id holding z inputs asked live fresh) (
      watching-StateIs zone timing holding looks (armed_block sensor falling id look.discrete z)
        (acked zone id inputs) _ asked.mode asked.reqid refl (acked-state zone id inputs))
