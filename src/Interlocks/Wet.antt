-- ===== src/Interlocks/Wet.antt =====
-- The robot's batch of work (src/finishing_line/core/machine.py: `_robot_work`), and the stream of
-- the fan at F1 across a wet part.
use finishing_line.Common.{Bool, List, String, [], false, not, refl, true, ◌&&◌, ◌||◌, ◌∷◌, ◌≡◌}
use finishing_line.Guards.{is_on}
use finishing_line.Intents.{Action}
use finishing_line.Machine.{is_wet_part, pausing, work_batch}
use finishing_line.Model.{Beat, FanState, LineState, Station, part_at}
use finishing_line.Schedule.{schedule}

-- The fan at F1 after some intents, and whether one of them sprays while it runs.
abbrev pub fan_after : FanState → List Action → FanState
fan_after fan [] = fan
fan_after fan (Action.set_fan Station.f1 state ∷ actions) = fan_after state actions
fan_after fan (a ∷ actions) = fan_after fan actions

abbrev pub sprays_in_wind : FanState → List Action → Bool
sprays_in_wind fan [] = false
sprays_in_wind fan (Action.set_fan Station.f1 state ∷ actions) = sprays_in_wind state actions
sprays_in_wind fan (Action.spray_part part_id coat ∷ actions) =
    is_on fan || sprays_in_wind fan actions
sprays_in_wind fan (a ∷ actions) = sprays_in_wind fan actions

abbrev pub ends_safe : List Action → Bool
ends_safe [] = false
ends_safe (Action.move_to_safe_pose ∷ []) = true
ends_safe (a ∷ actions) = ends_safe actions

-- The fan at F1 after a beat's work, when a wet part stands there.
abbrev pub fan_left : FanState → FanState → FanState
fan_left FanState.on fan = FanState.on
fan_left FanState.off fan = fan

calm :
    (beat : Beat) (fan : FanState) (id : String)
    → let spec = schedule beat in
      let batch = work_batch spec (is_on spec.f1_fan && true) id in
      (sprays_in_wind fan batch ≡ is_on fan && not (is_on spec.f1_fan))
      × (fan_after fan batch ≡ fan_left spec.f1_fan fan)
      × (ends_safe batch ≡ true)
unfolding work_batch schedule
calm Beat.p1 FanState.on id = (refl, refl, refl)
calm Beat.p1 FanState.off id = (refl, refl, refl)
calm Beat.p2 FanState.on id = (refl, refl, refl)
calm Beat.p2 FanState.off id = (refl, refl, refl)
calm Beat.p3 FanState.on id = (refl, refl, refl)
calm Beat.p3 FanState.off id = (refl, refl, refl)
calm Beat.p4 FanState.on id = (refl, refl, refl)
calm Beat.p4 FanState.off id = (refl, refl, refl)

-- With a wet part recorded at F1, and whatever the fan at F1 does when the batch of a beat's work
-- begins: the batch sprays while that fan runs exactly when it runs at the start and the beat's table
-- has it off. In a beat whose table has it on, it runs after the batch; in the others it is left as it
-- was. The batch ends with the robot's safe pose.
pub work_batch-calm :
    (s : LineState) (fan : FanState) (id : String)
    → is_wet_part (part_at s Station.f1) ≡ true
    → let spec = schedule s.beat in
      let batch = work_batch spec (pausing s spec) id in
      (sprays_in_wind fan batch ≡ is_on fan && not (is_on spec.f1_fan))
      × (fan_after fan batch ≡ fan_left spec.f1_fan fan)
      × (ends_safe batch ≡ true)
unfolding pausing
work_batch-calm s fan id wet = rw wet (calm s.beat fan id)
