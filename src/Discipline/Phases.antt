-- ===== src/Discipline/Phases.antt =====
-- The flash discipline, the phases after the robot's work, and the whole of `step`
-- (src/finishing_line/core/machine.py).
use finishing_line.Common.{
  Bool, Bool-cases, Dict, List, Option, String, [], ap, arith, false, if◌then◌else◌, inl, inr,
  is_empty, none, not, refl, some, subst, sym, ℕ, ◌∙◌, ◌∷◌, ◌≡◌,
}
use finishing_line.Config.{ProcessConfig}
use finishing_line.Discipline.{
  Feeds, IsDisciplined, IsDisciplinedIn, IsStart, MayGo, Slots, Vacant, plan, working_phase,
}
use finishing_line.Discipline.Aging.{observe-IsDisciplined}
use finishing_line.Discipline.Arrival.{
  Held-shifted, IsKeyed-shifted, IsStart-shifted, Queued-shifted, Slots-shifted,
}
use finishing_line.Discipline.Departure.{departure-MayGo}
use finishing_line.Discipline.Shift.{apply_moves-plan, live_moves-plan, shifted}
use finishing_line.Discipline.Steps.{
  Keeps, emit-IsDisciplined, fault-IsDisciplined, in_phase, robot_work-Keeps,
}
use finishing_line.Guards.{departure_blocked, is_open, occupancy_mismatch, zone_motion_blocked}
use finishing_line.Intents.{set_shutter}
use finishing_line.Machine.{
  Inputs, apply_moves, await_guards, confirm_move, dispatch, emit, is_faulted, is_moving,
  live_moves, missing, moving_in, observe, proceed, respond, set_fans, start_move, stay, step,
}
use finishing_line.Model.{
  Beat, LineState, Move, Occupancy, PartState, Phase, Reason, SensorSnapshot, ShutterState, Station,
  part_of,
}
use finishing_line.Outcome.{Outcome, Outcome-if, Outcome-unless}
use finishing_line.Schedule.{next_beat}

-- With no moves to make, every station that the next beat cares for is empty.
nothing-IsStart :
    (cfg : ProcessConfig) (beat : Beat) (t : Occupancy) (parts : Dict PartState)
    (queue : List String) (feed : Bool)
    → Slots t queue
    → Vacant beat t
    → [] ≡ plan beat t feed
    → IsStart cfg (next_beat beat) t parts
unfolding next_beat part_of
nothing-IsStart cfg Beat.p1 t parts queue feed w v e = ground arith
nothing-IsStart cfg Beat.p2 t parts queue feed w v e = ground arith
nothing-IsStart cfg Beat.p3 t parts queue feed w v e = ground arith
nothing-IsStart cfg Beat.p4 t parts queue feed w v e = ground arith

zone_motion-departure :
    (s : LineState) (sensors : SensorSnapshot) (cfg : ProcessConfig) (moves : List Move)
    → zone_motion_blocked s sensors cfg moves ≡ none
    → departure_blocked s sensors cfg moves ≡ none
unfolding zone_motion_blocked
zone_motion-departure s sensors cfg moves h = elim (Bool-cases (is_open sensors.shutter)) [
  | inl e ↦ rw e at h
  | inr e ↦ absurd (ground arith)
]

Feeds-queue : (queue : List String) → Feeds (not (is_empty queue)) queue
Feeds-queue [] = tt
Feeds-queue (i ∷ queue) = tt

-- The train has arrived: the discipline of the next beat holds.
pub Holds-shifted :
    (cfg : ProcessConfig) (s : LineState) (feed : Bool)
    → IsDisciplinedIn Phase.moving cfg s
    → s.in_flight ≡ plan s.beat s.occupancy feed
    → Feeds feed s.in_queue
    → MayGo cfg s.beat s.occupancy s.parts
    → IsDisciplinedIn Phase.shutter_close cfg
        (record (apply_moves s s.in_flight) { in_flight = [] })
Holds-shifted cfg s feed d e f g =
    let moved : apply_moves s s.in_flight ≡ shifted s feed =
      ap (apply_moves s) e ∙ apply_moves-plan s feed d.slots d.stage.1.0 f in
    subst (λ u. IsDisciplinedIn Phase.shutter_close cfg (record u { in_flight = [] })) (sym moved)
      (record {
        keyed =
            IsKeyed-shifted cfg s.occupancy s.in_queue s.parts feed d.slots d.queued s.beat d.keyed;
        slots = Slots-shifted s.occupancy s.in_queue s.parts feed d.slots d.queued s.beat;
        held = Held-shifted s.occupancy s.in_queue s.parts feed d.slots d.queued d.held s.beat;
        queued = Queued-shifted cfg s.occupancy s.in_queue s.parts feed d.slots d.queued s.beat;
        stage = (
          refl,
          IsStart-shifted cfg s.occupancy s.in_queue s.parts feed d.slots d.queued s.beat d.stage.1
              g,
        );
      })

module _ (cfg : ProcessConfig) (s : LineState) (i : Inputs) (n : ℕ) where
  await_guards-Keeps :
      s.phase ≡ Phase.await_guards
      → IsDisciplinedIn Phase.await_guards cfg s
      → Outcome ⊥ (Keeps cfg) (await_guards s i cfg n)
  unfolding await_guards
  await_guards-Keeps e d =
      Outcome-unless ⊥ (Keeps cfg) (departure_blocked s i.sensors cfg (live_moves s))
        (some (stay (record s { phase = Phase.shutter_open }) none n)) s n
        (λ why. in_phase Phase.await_guards cfg s refl e d)
        λ free. record {
          keyed = d.keyed;
          slots = d.slots;
          held = d.held;
          queued = d.queued;
          stage = d.stage;
        }

  -- The moves that are live are under way once the guards let them go.
  start_move-Keeps :
      (moves : List Move)
      → moves ≡ live_moves s
      → s.phase ≡ Phase.moving
      → s.in_flight ≡ []
      → IsDisciplinedIn Phase.moving cfg s
      → Outcome ⊥ (Keeps cfg) (start_move moves s i cfg n)
  unfolding start_move
  start_move-Keeps [] m e f d = record {
    keyed = d.keyed;
    slots = d.slots;
    held = d.held;
    queued = d.queued;
    stage = (
      f,
      nothing-IsStart cfg s.beat s.occupancy s.parts s.in_queue _ d.slots d.stage.1.0
          (m ∙ live_moves-plan s d.slots.none_in),
    );
  }
  start_move-Keeps (x ∷ xs) m e f d =
      Outcome-unless ⊥ (Keeps cfg) (zone_motion_blocked s i.sensors cfg (x ∷ xs)) _ s n
        (λ why. in_phase Phase.moving cfg s refl e d)
        λ free.
          let planned_here = m ∙ live_moves-plan s d.slots.none_in in
          record {
            keyed = d.keyed;
            slots = d.slots;
            held = d.held;
            queued = d.queued;
            stage = (
              inr (
                not (is_empty s.in_queue),
                planned_here,
                Feeds-queue s.in_queue,
                departure-MayGo s i.sensors cfg (not (is_empty s.in_queue)) d.stage.1.0 (
                    subst (λ k. departure_blocked s i.sensors cfg k ≡ none) planned_here
                      (zone_motion-departure s i.sensors cfg (x ∷ xs) free)),
              ),
              d.stage.1,
            );
          }

  confirm_move-Keeps :
      (lost : List Station) (m : Move) (ms : List Move)
      → s.phase ≡ Phase.moving
      → s.in_flight ≡ m ∷ ms
      → IsDisciplinedIn Phase.moving cfg s
      → Keeps cfg (confirm_move lost s n)
  unfolding confirm_move
  confirm_move-Keeps [] m ms e f d = elim d.stage.0 [
    | inl none_left ↦ absurd (cc (f, none_left))
    | inr (feed, e', feeds, go) ↦ Holds-shifted cfg s feed d e' feeds go
  ]
  confirm_move-Keeps (x ∷ xs) m ms e f d =
      fault-IsDisciplined cfg s _ n (in_phase Phase.moving cfg s refl e d)

  moving_in-Keeps :
      (moves : List Move)
      → s.in_flight ≡ moves
      → s.phase ≡ Phase.moving
      → IsDisciplinedIn Phase.moving cfg s
      → Outcome ⊥ (Keeps cfg) (moving_in moves s i cfg n)
  unfolding moving_in
  moving_in-Keeps [] f e d = start_move-Keeps (live_moves s) refl e f d
  moving_in-Keeps (m ∷ ms) f e d =
      confirm_move-Keeps (missing i.sensors.occupied (m ∷ ms)) m ms e f d

  set_fans-Keeps : IsDisciplinedIn Phase.set_fans cfg s → Keeps cfg (set_fans s n)
  unfolding set_fans
  set_fans-Keeps d = record {
    keyed = d.keyed;
    slots = d.slots;
    held = d.held;
    queued = d.queued;
    stage = (d.stage.0, inl d.stage.1);
  }

  shutter_open-Keeps :
      IsDisciplinedIn Phase.shutter_open cfg s
      → Keeps cfg (emit s Phase.moving (set_shutter ShutterState.opened ∷ []) n)
  shutter_open-Keeps d = emit-IsDisciplined cfg s n Phase.moving _ refl (record {
    keyed = d.keyed;
    slots = d.slots;
    held = d.held;
    queued = d.queued;
    stage = (inl d.stage.0, d.stage.1);
  })

dispatch-Keeps :
    (phase : Phase) (cfg : ProcessConfig) (s : LineState) (i : Inputs) (n : ℕ)
    → s.phase ≡ phase
    → IsDisciplinedIn phase cfg s
    → Outcome ⊥ (Keeps cfg) (dispatch phase s i cfg n)
unfolding dispatch
dispatch-Keeps Phase.robot_work cfg s i n e d = robot_work-Keeps cfg s i n e d
dispatch-Keeps Phase.await_guards cfg s i n e d = await_guards-Keeps cfg s i n e d
dispatch-Keeps Phase.shutter_open cfg s i n e d = shutter_open-Keeps cfg s i n d
dispatch-Keeps Phase.moving cfg s i n e d = moving_in-Keeps cfg s i n s.in_flight refl e d
dispatch-Keeps Phase.shutter_close cfg s i n e d =
    emit-IsDisciplined cfg s n Phase.set_fans (set_shutter ShutterState.closed ∷ []) refl (record {
      keyed = d.keyed;
      slots = d.slots;
      held = d.held;
      queued = d.queued;
      stage = d.stage;
    })
dispatch-Keeps Phase.set_fans cfg s i n e d = set_fans-Keeps cfg s i n d
dispatch-Keeps Phase.faulted cfg s i n e d = absurd d.stage

proceed-Keeps :
    (mismatch : Option Reason) (cfg : ProcessConfig) (s : LineState) (i : Inputs) (n : ℕ)
    → is_faulted s.phase ≡ false
    → IsDisciplined cfg s
    → Outcome ⊥ (Keeps cfg) (proceed mismatch s i cfg n)
unfolding proceed
proceed-Keeps (some why) cfg s i n live d = fault-IsDisciplined cfg s why n d
proceed-Keeps none cfg s i n live d =
    Outcome-if ⊥ (Keeps cfg) (is_empty s.pending) _ _
      (λ _. dispatch-Keeps s.phase cfg s i n refl (rw live at d)) (λ _. d)

respond-Keeps :
    (fault : Option Reason) (cfg : ProcessConfig) (s : LineState) (i : Inputs) (n : ℕ)
    → IsDisciplined cfg s
    → Outcome ⊥ (Keeps cfg) (respond fault s i cfg n)
unfolding respond
respond-Keeps (some why) cfg s i n d = fault-IsDisciplined cfg s why n d
respond-Keeps none cfg s i n d =
    Outcome-if ⊥ (Keeps cfg) (is_faulted s.phase) _ _ (λ _. d)
      λ live.
        proceed-Keeps (if is_moving s.phase then none else occupancy_mismatch s i.sensors) cfg s i n
          live d

-- A step of a disciplined line gives a result, and the line is disciplined after it, whatever the
-- sensors and the devices report.
pub step-Keeps :
    (cfg : ProcessConfig) (s : LineState) (i : Inputs) (n : ℕ)
    → IsDisciplined cfg s
    → Outcome ⊥ (Keeps cfg) (step s i cfg n)
unfolding step
step-Keeps cfg s i n d =
    respond-Keeps i.fault cfg (observe s i cfg) i n
      (observe-IsDisciplined (working_phase s.phase s.fault_phase) cfg s i d)
