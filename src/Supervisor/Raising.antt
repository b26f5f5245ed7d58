-- ===== src/Supervisor/Raising.antt =====
-- A cycle that a device call ends by raising (src/finishing_line/process/supervisor.py: `tick`,
-- `idle_tick`; src/finishing_line/process/controller.py: `_loop`). What a device call does is a
-- function of the call; readings that are not there are those of a read that raises.
use finishing_line.Common.{
  Bool, List, Option, [], false, if◌then◌else◌, is_some, none, some, true, ℕ, ◌++◌, ◌||◌, ◌∷◌,
}
use finishing_line.Executor.{Devices, Executor, completed, heartbeat, make_calls, submit_one}
use finishing_line.Intents.{Intent}
use finishing_line.Machine.{StepResult, step}
use finishing_line.Model.{SensorSnapshot}
use finishing_line.Supervisor.{Readings, Supervisor, force_fans, idle_tick, inputs_of, sensed}

-- `submit`, whose halts call the devices: the executor, and whether it raised. A halt that raises has
-- set the latch and emptied the queue, and its own intent is not reported.
unfoldable pub submit_raising : Devices → List Intent → Executor → Executor × Bool
unfolding submit_one make_calls
submit_raising raises [] x = (x, false)
submit_raising raises (i ∷ intents) x =
    let (y, commands) = submit_one i i.action x in
    let (made, error) = make_calls raises commands in
    let rest = submit_raising raises intents y in
    if is_some error then (record y { done = x.done }, true) else rest

-- The rest of a cycle after the step, when something in it raises; the step's KeyError leaves the
-- state as it was. `none` is a cycle that returns.
unfoldable pub after_raised :
    Devices → Option StepResult → Supervisor → Executor → SensorSnapshot → Option Supervisor
unfolding submit_raising force_fans make_calls
after_raised raises none sup x sensors = some (record sup { executor = x })
after_raised raises (some r) sup x sensors =
    let (y, broke) = submit_raising raises r.intents x in
    let last = force_fans (is_some sup.state.fault) r.state.fault sensors ++ heartbeat ∷ [] in
    let (made, error) = make_calls raises last in
    if broke || is_some error
    then some (record sup {
      executor = y;
      state = record (r.state) { spray_burst_active = sensors.gun_on };
      next_id = r.next_id;
    })
    else none

unfoldable pub tick_raised : Devices → Option Readings → Supervisor → ℕ → Option Supervisor
unfolding after_raised step completed
tick_raised raises none sup dt = some sup
tick_raised raises (some now) sup dt =
    after_raised raises (step (sensed sup.state now.cc) (inputs_of sup now dt) sup.cfg sup.next_id)
      sup (completed sup.executor).0 (inputs_of sup now dt).sensors

unfoldable pub idle_raised : Devices → Option Readings → Supervisor → ℕ → Option Supervisor
unfolding idle_tick make_calls
idle_raised raises none sup dt = some sup
idle_raised raises (some now) sup dt =
    let (t, commands) = idle_tick sup now.cc dt in
    let (made, error) = make_calls raises commands in if is_some error then some t else none
