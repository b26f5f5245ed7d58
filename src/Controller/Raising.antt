-- ===== src/Controller/Raising.antt =====
-- A pass of the loop that a device call ends by raising
-- (src/finishing_line/process/controller.py: `_loop`).
use finishing_line.Common.{Option, if◌then◌else◌, none, not, some, ℕ, ◌||◌}
use finishing_line.Controller.{Controller, is_boundary}
use finishing_line.Executor.{Devices}
use finishing_line.Supervisor.{Readings, Supervisor}
use finishing_line.Supervisor.Raising.{idle_raised, tick_raised}

abbrev pub left_with : Controller → Option Supervisor → Option Controller
left_with c none = none
left_with c (some sup) = some (record c { sup = sup })

-- The controller that the exception leaves; it ends the loop's thread. `none` is a pass that returns.
unfoldable pub pass_raised : Devices → Option Readings → Controller → ℕ → Option Controller
unfolding idle_raised tick_raised
pass_raised raises now c dt =
    if c.enabled || not (is_boundary c.sup.state.phase)
    then left_with c (tick_raised raises now c.sup dt)
    else left_with c (idle_raised raises now c.sup dt)
