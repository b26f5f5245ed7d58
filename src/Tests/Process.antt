-- ===== src/Tests/Process.antt =====
-- The theorems on the process layer, at the states of the simulated run.
use finishing_line.Common.{
  List, [], arith, false, insert, is_some, lookup, none, refl, some, true, ◌+◌, ◌↔◌, ◌∷◌, ◌≡◌,
}
use finishing_line.Controller.{Controller, declare_batch}
use finishing_line.Controller.Batches.{AllUnknown, declare_batch-counts, declare_batch-exact}
use finishing_line.Discipline.{IsDisciplined}
use finishing_line.Executor.{Command, Devices, Executor, finish, heartbeat}
use finishing_line.Executor.Latch.{healthy, reported, told_all, work, work-IsPoisoned, work-drains}
use finishing_line.Intents.{Action, Intent, move_to_safe_pose, sand_part, stamp}
use finishing_line.Machine.{StepResult, stay}
use finishing_line.Model.{Product, Reason, ShutterState, Station}
use finishing_line.Persistence.{as_restored, deserialize_state, serialize_state}
use finishing_line.Persistence.Restart.{as_restored-IsDisciplined}
use finishing_line.Persistence.Roundtrip.{deserialize_state-serialize_state, saved_of}
use finishing_line.Supervisor.{Readings, Supervisor, tick}
use finishing_line.Supervisor.Cycle.{Gives, tick-forces}
use finishing_line.Tests.Line.{clear_core, config, readings}
use finishing_line.Tests.Runs.{leaving-IsDisciplined}
use finishing_line.Tests.States.{leaving, spraying}

abbrev two_intents : List Intent
two_intents = stamp 7 (sand_part "a" ∷ move_to_safe_pose ∷ [])

abbrev poisoned : Executor
poisoned = record {
  queue = two_intents;
  running = some (record { intent_id = 5; action = Action.set_shutter ShutterState.opened });
  done = 3 ∷ [];
  fault = some Reason.watchdog_tripped;
}

-- Every device call returns.
abbrev obliging : Devices
obliging command = none

work-drains_example :
    work obliging 2 (healthy two_intents [])
    ≡ (healthy [] (reported two_intents []), told_all two_intents)
work-drains_example = work-drains obliging two_intents [] (λ c. refl) refl

work-IsPoisoned_example :
    let w = work obliging 3 poisoned in
    (w.0.fault ≡ some Reason.watchdog_tripped)
    × (w.0.running ≡ none)
    × (w.0.done ≡ (finish obliging poisoned).0.done)
    × (w.1 ≡ (finish obliging poisoned).1)
work-IsPoisoned_example = work-IsPoisoned Reason.watchdog_tripped obliging 2 poisoned refl

-- The watchdog has tripped_readings: the cycle faults.
abbrev tripped_readings : Readings
tripped_readings = record (readings leaving) {
  cc = record (clear_core leaving.sup.state) { watchdog_tripped = true; f2_eye = true };
}

abbrev after_trip : Supervisor × StepResult × List Command
after_trip = elim (tick leaving.sup tripped_readings 100) [
  | none ↦ (leaving.sup, stay leaving.sup.state none 0, [])
  | some r ↦ r
]

tick-forces_example :
    Gives heartbeat after_trip.2
    × (is_some leaving.sup.state.fault ≡ false
        → is_some after_trip.1.state.fault ≡ true
        → (tripped_readings.cc.f1_eye ≡ true → Gives (Command.set_fan Station.f1 true) after_trip.2)
          × (tripped_readings.cc.f2_eye ≡ true
              → Gives (Command.set_fan Station.f2 true) after_trip.2))
unfolding tick lookup insert
tick-forces_example =
    tick-forces leaving.sup after_trip.0 tripped_readings 100 after_trip.1 after_trip.2 refl

declare_batch-exact_example :
    ((declare_batch Product.browser ("c" ∷ "c" ∷ []) leaving).1 ≡ true)
    ↔ AllUnknown leaving.sup.state ("c" ∷ "c" ∷ [])
declare_batch-exact_example = declare_batch-exact leaving Product.browser ("c" ∷ "c" ∷ [])

declare_batch-counts_example :
    ((declare_batch Product.browser ("c" ∷ []) leaving).0.declared ≡ 2 + 1)
    × ((declare_batch Product.browser ("c" ∷ "a" ∷ []) leaving).1 ≡ false)
    × ((declare_batch Product.browser ("c" ∷ "a" ∷ []) leaving).0.declared ≡ 2 + 1)
unfolding lookup
declare_batch-counts_example =
    declare_batch-counts leaving Product.browser ("c" ∷ []) [] "a" (refl, tt) refl

abbrev paused : Controller
paused = record spraying { enabled = false }

deserialize_state-serialize_state_example :
    deserialize_state (serialize_state leaving.sup.state 2) ≡ some (saved_of leaving.sup.state, 2)
deserialize_state-serialize_state_example =
    deserialize_state-serialize_state leaving.sup.state 2 (refl, (refl, tt))

as_restored-IsDisciplined_example : IsDisciplined config (as_restored leaving.sup.state)
as_restored-IsDisciplined_example =
    as_restored-IsDisciplined config leaving.sup.state leaving-IsDisciplined
      (λ is_down. absurd (ground arith)) (λ live. refl)
