-- ===== src/Supervisor/Cycle.antt =====
-- What one cycle of the main loop tells the devices (src/finishing_line/process/supervisor.py).
use finishing_line.Common.{
  Bool, List, Option, [], arith, false, inl, inr, is_some, none, refl, some, subst, true, ℕ, ◌++◌,
  ◌∷◌, ◌≡◌, ◌⊎◌,
}
use finishing_line.Executor.{Command, Executor, completed, heartbeat, submit}
use finishing_line.Machine.{StepResult, step}
use finishing_line.Model.{Reason, SensorSnapshot, Station}
use finishing_line.Supervisor.{
  ClearCoreInputs, Readings, Supervisor, after_step, build_sensors, force_fans, idle_tick,
  inputs_of, sensed, tick,
}
use finishing_line.Timers.{advance_flash_timers}

-- A command is among those that were given.
abbrev pub Gives : Command → List Command → Type 0
Gives c [] = ⊥
Gives c (d ∷ commands) = (d ≡ c) ⊎ Gives c commands

pub Gives-left : (c : Command) (xs ys : List Command) → Gives c xs → Gives c (xs ++ ys)
Gives-left c [] ys h = absurd h
Gives-left c (x ∷ xs) ys (inl e) = inl e
Gives-left c (x ∷ xs) ys (inr h) = inr (Gives-left c xs ys h)

pub Gives-right : (c : Command) (xs ys : List Command) → Gives c ys → Gives c (xs ++ ys)
Gives-right c [] ys h = h
Gives-right c (x ∷ xs) ys h = inr (Gives-right c xs ys h)

abbrev AfterStep :
    Supervisor → SensorSnapshot → Option (Supervisor × StepResult × List Command) → Type 0
AfterStep sup sensors none = Unit {0}
AfterStep sup sensors (some (sup', r, commands)) =
    Gives heartbeat commands
    × (is_some sup.state.fault ≡ false
        → is_some r.state.fault ≡ true
        → (sensors.occupied.at_f1 ≡ true → Gives (Command.set_fan Station.f1 true) commands)
          × (sensors.occupied.at_f2 ≡ true → Gives (Command.set_fan Station.f2 true) commands))

force_fans-forces :
    (was : Bool) (fault : Option Reason) (sensors : SensorSnapshot)
    → was ≡ false
    → is_some fault ≡ true
    → (sensors.occupied.at_f1 ≡ true
        → Gives (Command.set_fan Station.f1 true) (force_fans was fault sensors))
      × (sensors.occupied.at_f2 ≡ true
          → Gives (Command.set_fan Station.f2 true) (force_fans was fault sensors))
unfolding force_fans
force_fans-forces was fault sensors w f = (λ h. ground arith, λ h. ground arith)

after_step-AfterStep :
    (m : Option StepResult) (sup : Supervisor) (x : Executor) (sensors : SensorSnapshot)
    → AfterStep sup sensors (after_step m sup x sensors)
unfolding after_step
after_step-AfterStep none sup x sensors = tt
after_step-AfterStep (some r) sup x sensors =
    let sent = (submit r.intents x).1 in
    let forced = force_fans (is_some sup.state.fault) r.state.fault sensors in
    (
      Gives-right heartbeat (sent ++ forced) (heartbeat ∷ []) (inl refl),
      λ calm faulted.
          let (f1, f2) =
            force_fans-forces (is_some sup.state.fault) r.state.fault sensors calm faulted in
          (
            λ h.
                Gives-left (Command.set_fan Station.f1 true) (sent ++ forced) (heartbeat ∷ [])
                  (Gives-right (Command.set_fan Station.f1 true) sent forced (f1 h)),
            λ h.
                Gives-left (Command.set_fan Station.f2 true) (sent ++ forced) (heartbeat ∷ [])
                  (Gives-right (Command.set_fan Station.f2 true) sent forced (f2 h)),
          ),
    )

-- Every cycle that ends feeds the watchdog; and one in which the line faults switches on the fan of
-- each fan station that a sensor sees occupied.
pub tick-forces :
    (sup sup' : Supervisor) (now : Readings) (dt : ℕ) (r : StepResult) (commands : List Command)
    → tick sup now dt ≡ some (sup', r, commands)
    → Gives heartbeat commands
      × (is_some sup.state.fault ≡ false
          → is_some r.state.fault ≡ true
          → (now.cc.f1_eye ≡ true → Gives (Command.set_fan Station.f1 true) commands)
            × (now.cc.f2_eye ≡ true → Gives (Command.set_fan Station.f2 true) commands))
unfolding tick build_sensors
tick-forces sup sup' now dt r commands e =
    subst (AfterStep sup (build_sensors now.cc now.robot_clear now.gun_on)) e (
      after_step-AfterStep
        (step (sensed sup.state now.cc) (inputs_of sup now dt) sup.cfg sup.next_id) sup
        (completed sup.executor).0 (build_sensors now.cc now.robot_clear now.gun_on))

-- A paused cycle feeds the watchdog and does nothing else; of the line it changes the fans that were
-- read back and the parts' flash time, and no more: not the phase, the beat, what is pending, or
-- where the parts are.
pub idle_tick-holds :
    (sup : Supervisor) (cc : ClearCoreInputs) (dt : ℕ)
    → let t = (idle_tick sup cc dt).0.state in
      ((idle_tick sup cc dt).1 ≡ heartbeat ∷ [])
      × ((idle_tick sup cc dt).0.executor ≡ sup.executor)
      × (t.parts ≡ advance_flash_timers (sensed sup.state cc) dt sup.cfg)
      × (record t { parts = sup.state.parts; f1_fan = sup.state.f1_fan; f2_fan = sup.state.f2_fan }
          ≡ sup.state)
unfolding idle_tick
idle_tick-holds sup cc dt = (refl, refl, refl, refl)
