-- ===== src/Interlocks/Phases.antt =====
-- The interlocks in the phases of the machine (src/finishing_line/core/machine.py).
use finishing_line.Common.{
  Bool, List, Option, String, [], arith, false, is_empty, leb, lookup, none, not, refl, some, subst,
  sym, true, ℕ, ◌&&◌, ◌∙◌, ◌∷◌, ◌≡◌, ◌⊎◌,
}
use finishing_line.Config.{ProcessConfig}
use finishing_line.Guards.{
  departure_blocked, occupancy_mismatch, spray_station_not_ready, zone_motion_blocked,
}
use finishing_line.Intents.{Action, advance_train, set_shutter, spray_part, stamp}
use finishing_line.Interlocks.{Asks, IsPermitted, MovePermitted}
use finishing_line.Machine.{
  Inputs, apply_moves, await_guards, coated, confirm_move, dispatch, emit, enter_fault, fault_if,
  is_faulted, is_moving, live_moves, missing, moving_in, pausing, robot_work, robot_work_at,
  same_role, set_fans, start_move, stay, work_batch, work_on,
}
use finishing_line.Model.{
  Direction, LineState, Move, PartRole, PartState, Phase, Reason, SensorSnapshot, ShutterState,
  Station, nobody, part_at,
}
use finishing_line.Outcome.{Outcome, Outcome-if, Outcome-unless}
use finishing_line.Schedule.{BeatSpec, schedule, transitions}

pub fault-IsPermitted :
    (s t : LineState) (i : Inputs) (cfg : ProcessConfig) (why : Reason) (n : ℕ)
    → IsPermitted s i cfg (enter_fault t why n)
unfolding enter_fault
fault-IsPermitted s t i cfg why n = go (is_faulted t.phase)
  where
    go : (b : Bool) → IsPermitted s i cfg (fault_if b t why n)
    go true = (λ _ _ h. absurd h, λ _ _ h. absurd h)
    go false = (λ _ _ h. ground arith, λ _ _ h. ground arith)

batch-sprays :
    (spec : BeatSpec) (pause : Bool) (id part_id : String) (coat n : ℕ)
    → Asks (spray_part part_id coat) (stamp n (work_batch spec pause id))
    → (id ≡ part_id) × (coat ≡ spec.robot.coat)
unfolding work_batch
batch-sprays spec pause id part_id coat n h = ground arith

batch-moves :
    (spec : BeatSpec) (pause : Bool) (id : String) (direction : Direction) (moves : List Move)
    (n : ℕ)
    → ¬ Asks (advance_train direction moves) (stamp n (work_batch spec pause id))
unfolding work_batch
batch-moves spec pause id direction moves n h = ground arith

same_role-eq : (a b : PartRole) → not (same_role a b) ≡ false → a ≡ b
same_role-eq a b h = ground arith

station_ready :
    (s : LineState) (sensors : SensorSnapshot) (cfg : ProcessConfig)
    → spray_station_not_ready s sensors cfg ≡ none
    → (sensors.shutter ≡ ShutterState.closed) × (sensors.occupied.at_o ≡ true)
unfolding spray_station_not_ready
station_ready s sensors cfg h = ground arith

zone_ready :
    (s : LineState) (sensors : SensorSnapshot) (cfg : ProcessConfig) (moves : List Move)
    → zone_motion_blocked s sensors cfg moves ≡ none
    → (sensors.shutter ≡ ShutterState.opened)
      × (sensors.robot_clear ≡ true)
      × (sensors.gun_on ≡ false)
      × (departure_blocked s sensors cfg moves ≡ none)
unfolding zone_motion_blocked
zone_ready s sensors cfg moves h = ground arith

advance-eq :
    (d direction : Direction) (ms moves : List Move)
    → (advance_train d ms ≡ advance_train direction moves) ⊎ ⊥
    → (d ≡ direction) × (ms ≡ moves)
advance-eq d direction ms moves h = ground arith

pub is_empty-eq : {A : Type 0} (xs : List A) → is_empty xs ≡ true → xs ≡ []
is_empty-eq [] h = refl
is_empty-eq (x ∷ xs) h = absurd (ground arith)

-- The phases, one by one.
module _ (s : LineState) (i : Inputs) (cfg : ProcessConfig) (n : ℕ) (idle : s.pending ≡ []) where
  quiet : (t : LineState) (why : Option Reason) → IsPermitted s i cfg (stay t why n)
  quiet t why = (λ _ _ h. absurd h, λ _ _ h. absurd h)

  work_on-Permits :
      (p : PartState) (m : Option PartState)
      → s.phase ≡ Phase.robot_work
      → occupancy_mismatch s i.sensors ≡ none
      → part_at s Station.o ≡ some p
      → not (same_role p.role (schedule s.beat).robot.role) ≡ false
      → leb (schedule s.beat).robot.coat p.coats_applied ≡ false
      → spray_station_not_ready s i.sensors cfg ≡ none
      → Outcome Unit
          (IsPermitted s i cfg)
          (work_on (coated m s (schedule s.beat) p.part_id) s (schedule s.beat) p.part_id n)
  unfolding work_on coated emit
  work_on-Permits p none e agreed here role less ready = tt
  work_on-Permits p (some q) e agreed here role less ready = (
    λ part_id coat asked.
        let (id, due) =
          batch-sprays (schedule s.beat) (pausing s (schedule s.beat)) p.part_id part_id coat n
            asked in
        let (closed, seen) = station_ready s i.sensors cfg ready in
        record {
          part = p;
          at_o = here;
          id = id;
          role = same_role-eq p.role _ role;
          due = due;
          lacks = ground arith;
          working = e;
          idle = idle;
          shutter_closed = closed;
          part_seen = seen;
          agreed = agreed;
        },
    λ direction moves asked. absurd (
        batch-moves (schedule s.beat) (pausing s (schedule s.beat)) p.part_id direction moves n
          asked),
  )

  robot_work_at-Permits :
      (m : Option PartState)
      → s.phase ≡ Phase.robot_work
      → occupancy_mismatch s i.sensors ≡ none
      → part_at s Station.o ≡ m
      → Outcome Unit (IsPermitted s i cfg) (robot_work_at m (schedule s.beat) s i cfg n)
  unfolding robot_work_at
  robot_work_at-Permits none e agreed here = quiet (record s { phase = Phase.await_guards }) none
  robot_work_at-Permits (some p) e agreed here =
      Outcome-if Unit (IsPermitted s i cfg) (not (same_role p.role (schedule s.beat).robot.role)) _
        _ (λ wrong. fault-IsPermitted s s i cfg _ n)
        λ right.
          Outcome-if Unit (IsPermitted s i cfg) (leb (schedule s.beat).robot.coat p.coats_applied) _
            _ (λ enough. quiet (record s { phase = Phase.await_guards }) none)
            λ less.
              Outcome-unless Unit (IsPermitted s i cfg) (spray_station_not_ready s i.sensors cfg) _
                s n (λ why. quiet s (some why))
                λ ready. work_on-Permits p (lookup p.part_id s.parts) e agreed here right less ready

  robot_work-Permits :
      s.phase ≡ Phase.robot_work
      → occupancy_mismatch s i.sensors ≡ none
      → Outcome Unit (IsPermitted s i cfg) (robot_work s i cfg n)
  unfolding robot_work
  robot_work-Permits e agreed =
      Outcome-if Unit (IsPermitted s i cfg) (nobody s.occupancy && is_empty s.in_queue) _ _
        (λ _. quiet s (some Reason.line_empty))
        (λ _. robot_work_at-Permits (part_at s Station.o) e agreed refl)

  await_guards-Permits : Outcome Unit (IsPermitted s i cfg) (await_guards s i cfg n)
  unfolding await_guards
  await_guards-Permits =
      Outcome-unless Unit (IsPermitted s i cfg) (departure_blocked s i.sensors cfg (live_moves s)) _
        s n (λ why. quiet s (some why)) (λ _. quiet (record s { phase = Phase.shutter_open }) none)

  move_permitted :
      (direction : Direction) (moves : List Move) (x : Move) (xs : List Move)
      → s.phase ≡ Phase.moving
      → x ∷ xs ≡ live_moves s
      → ((transitions s.beat).direction ≡ direction) × (x ∷ xs ≡ moves)
      → (i.sensors.shutter ≡ ShutterState.opened)
        × (i.sensors.robot_clear ≡ true)
        × (i.sensors.gun_on ≡ false)
        × (departure_blocked s i.sensors cfg (x ∷ xs) ≡ none)
      → MovePermitted s i.sensors cfg direction moves
  move_permitted direction moves x xs e m (same_direction, same_moves) ready = record {
    of_beat = sym same_direction;
    live = sym same_moves ∙ m;
    moving = e;
    idle = idle;
    shutter_open = ready.0;
    robot_clear = ready.1;
    gun_off = ready.2;
    departs = subst (λ k. departure_blocked s i.sensors cfg k ≡ none) same_moves (ready.3);
  }

  start_move-Permits :
      (moves : List Move)
      → s.phase ≡ Phase.moving
      → moves ≡ live_moves s
      → Outcome Unit (IsPermitted s i cfg) (start_move moves s i cfg n)
  unfolding start_move emit
  start_move-Permits [] e m = quiet (record s { phase = Phase.shutter_close }) none
  start_move-Permits (x ∷ xs) e m =
      Outcome-unless Unit (IsPermitted s i cfg) (zone_motion_blocked s i.sensors cfg (x ∷ xs)) _ s n
        (λ why. quiet s (some why))
        λ free. (
          λ part_id coat asked. absurd (ground arith),
          λ direction moves asked.
              move_permitted direction moves x xs e m (advance-eq _ _ _ _ asked)
                (zone_ready s i.sensors cfg (x ∷ xs) free),
        )

  confirm_move-Permits : (lost : List Station) → IsPermitted s i cfg (confirm_move lost s n)
  unfolding confirm_move
  confirm_move-Permits [] =
      quiet (record (apply_moves s s.in_flight) { in_flight = []; phase = Phase.shutter_close })
        none
  confirm_move-Permits (x ∷ xs) =
      fault-IsPermitted s s i cfg (Reason.advance_not_confirmed (x ∷ xs)) n

  moving_in-Permits :
      (moves : List Move)
      → s.phase ≡ Phase.moving
      → Outcome Unit (IsPermitted s i cfg) (moving_in moves s i cfg n)
  unfolding moving_in
  moving_in-Permits [] e = start_move-Permits (live_moves s) e refl
  moving_in-Permits (m ∷ ms) e = confirm_move-Permits (missing i.sensors.occupied (m ∷ ms))

  -- An intent for the shutter or the fans is neither a spray nor a motion.
  harmless :
      (t : LineState) (phase : Phase) (actions : List Action)
      → ((part_id : String) (coat k : ℕ) → ¬ Asks (spray_part part_id coat) (stamp k actions))
      → ((direction : Direction) (moves : List Move) (k : ℕ)
          → ¬ Asks (advance_train direction moves) (stamp k actions))
      → IsPermitted s i cfg (emit t phase actions n)
  unfolding emit
  harmless t phase actions no_spray no_move = (
    λ part_id coat asked. absurd (no_spray part_id coat n asked),
    λ direction moves asked. absurd (no_move direction moves n asked),
  )

  pub dispatch-Permits :
      (phase : Phase)
      → s.phase ≡ phase
      → (is_moving phase ≡ false → occupancy_mismatch s i.sensors ≡ none)
      → Outcome Unit (IsPermitted s i cfg) (dispatch phase s i cfg n)
  unfolding dispatch set_fans
  dispatch-Permits Phase.robot_work e agreed = robot_work-Permits e (agreed refl)
  dispatch-Permits Phase.await_guards e agreed = await_guards-Permits
  dispatch-Permits Phase.shutter_open e agreed =
      harmless s Phase.moving (set_shutter ShutterState.opened ∷ []) (λ _ _ _ h. ground arith)
        (λ _ _ _ h. ground arith)
  dispatch-Permits Phase.moving e agreed = moving_in-Permits s.in_flight e
  dispatch-Permits Phase.shutter_close e agreed =
      harmless s Phase.set_fans (set_shutter ShutterState.closed ∷ []) (λ _ _ _ h. ground arith)
        (λ _ _ _ h. ground arith)
  dispatch-Permits Phase.set_fans e agreed = (λ _ _ h. ground arith, λ _ _ h. ground arith)
  dispatch-Permits Phase.faulted e agreed =
      fault-IsPermitted s s i cfg (Reason.unreachable_phase Phase.faulted) n
