-- ===== src/Executor.antt =====
-- src/finishing_line/process/executor.py: the queue of intents, its one worker and its fault latch.
-- The worker's loop is cut where other threads can come between: `take` gets an intent from the
-- queue, and `finish` executes it. The text of an error has the name of the intent in it.
pub mod Latch
use finishing_line.Common.{
  Bool, List, Option, String, [], if◌then◌else◌, is_some, none, some, ℕ, ◌++◌, ◌∷◌,
}
use finishing_line.Guards.{is_on}
use finishing_line.Intents.{Action, Intent}
use finishing_line.Machine.{or_given}
use finishing_line.Model.{Direction, Move, Reason, ShutterState, Station, Zone}

-- What the devices are told.
pub data Command : Type 0 where
  set_zone_idle : Zone → Command
  set_fan : Station → Bool → Command
  set_shutter wait_shutter : ShutterState → Command
  advance : Direction → List Move → Command
  sand clean_gun : String → Command
  spray : String → ℕ → Command
  safe_pose heartbeat : Command

-- `running` is the intent that the worker is executing.
pub record Executor : Type 0 where
  pub queue : List Intent
  pub running : Option Intent
  pub done : List ℕ
  pub fault : Option Reason

unfoldable pub halt : Reason → Executor → Executor × List Command
halt reason x = (
  record x { queue = []; fault = some (or_given x.fault reason) },
  set_zone_idle Zone.z1 ∷ set_zone_idle Zone.z2 ∷ [],
)

-- One intent of a submitted batch: a halt does not queue.
unfoldable pub submit_one : Intent → Action → Executor → Executor × List Command
unfolding halt
submit_one i (Action.halt_zones reason) x =
    let (y, commands) = halt reason x in (record y { done = i.intent_id ∷ y.done }, commands)
submit_one i action x = (record x { queue = x.queue ++ i ∷ [] }, [])

unfoldable pub submit : List Intent → Executor → Executor × List Command
unfolding submit_one
submit [] x = (x, [])
submit (i ∷ intents) x =
    let (y, commands) = submit_one i i.action x in
    let (z, more) = submit intents y in (z, commands ++ more)

-- The ids that finished since the last call; it forgets them.
unfoldable pub completed : Executor → Executor × List ℕ
completed x = (record x { done = [] }, x.done)

unfoldable pub reset : Executor → Executor
reset x = record x { queue = []; done = []; fault = none }

-- The device calls of an intent; `none` is the ValueError of one that the worker does not know.
unfoldable pub execute : Action → Option (List Command)
execute (Action.set_fan station state) = some (set_fan station (is_on state) ∷ [])
execute (Action.set_shutter target) = some (set_shutter target ∷ wait_shutter target ∷ [])
execute (Action.advance_train direction moves) = some (advance direction moves ∷ [])
execute (Action.sand_part part_id) = some (sand part_id ∷ [])
execute (Action.clean_gun part_id) = some (clean_gun part_id ∷ [])
execute (Action.spray_part part_id coat) = some (spray part_id coat ∷ [])
execute Action.move_to_safe_pose = some (safe_pose ∷ [])
execute (Action.halt_zones reason) = none

-- The worker gets the next intent. A poisoned executor throws it away.
unfoldable pub take_from : List Intent → Executor → Executor
take_from [] x = x
take_from (i ∷ queue) x =
    if is_some x.fault
    then record x { queue = queue }
    else record x { queue = queue; running = some i }

unfoldable pub take : Executor → Executor
unfolding take_from
take x = if is_some x.running then x else take_from x.queue x

-- What a device call does when it is made: it returns, or it raises an error.
abbrev pub Devices : Type 0
Devices = Command → Option String

-- The calls of an intent, one after the other: those that were made, and the error that ended them.
unfoldable pub make_calls : Devices → List Command → List Command × Option String
make_calls raises [] = ([], none)
make_calls raises (c ∷ commands) =
    let (made, error) = make_calls raises commands in
    if is_some (raises c) then (c ∷ [], raises c) else (c ∷ made, error)

abbrev pub carry_out : Devices → Option (List Command) → List Command × Option String
carry_out raises none = ([], some "unknown intent")
carry_out raises (some commands) = make_calls raises commands

-- The end of an intent: it is reported as done, or its error halts the line.
abbrev pub settled : Intent → List Command × Option String → Executor → Executor × List Command
settled i (made, none) x = (record x { running = none; done = i.intent_id ∷ x.done }, made)
settled i (made, some error) x =
    let (y, commands) = halt (Reason.external error) (record x { running = none }) in
    (y, made ++ commands)

-- The worker executes the running intent.
unfoldable pub finish_of : Option Intent → Devices → Executor → Executor × List Command
unfolding halt execute make_calls
finish_of none raises x = (x, [])
finish_of (some i) raises x = settled i (carry_out raises (execute i.action)) x

unfoldable pub finish : Devices → Executor → Executor × List Command
unfolding finish_of
finish raises x = finish_of x.running raises x
