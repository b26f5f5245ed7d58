-- ===== src/Texts.antt =====
-- src/finishing_line/process/persistence.py: the texts that a snapshot has for the members of the
-- enumerations of src/finishing_line/core/model.py and schedule.py, and for the stations.
use finishing_line.Common.{Option, String, if◌then◌else◌, none, some, ◌===◌}
use finishing_line.Model.{FanState, PartRole, Phase, Product, ShutterState, Station}

-- The value of each enumeration's member, and back; `none` is the ValueError of another text.
unfoldable pub product_text : Product → String
product_text Product.cube = "cube"
product_text Product.browser = "browser"

unfoldable pub product_of : String → Option Product
product_of t =
    if t === "cube"
    then some Product.cube
    else if t === "browser"
    then some Product.browser
    else none

unfoldable pub role_text : PartRole → String
role_text PartRole.lead = "lead"
role_text PartRole.trail = "trail"

unfoldable pub role_of : String → Option PartRole
role_of t =
    if t === "lead" then some PartRole.lead else if t === "trail" then some PartRole.trail else none

unfoldable pub fan_text : FanState → String
fan_text FanState.off = "off"
fan_text FanState.on = "on"

unfoldable pub fan_state_of : String → Option FanState
fan_state_of t =
    if t === "off" then some FanState.off else if t === "on" then some FanState.on else none

unfoldable pub shutter_text : ShutterState → String
shutter_text ShutterState.opened = "open"
shutter_text ShutterState.closed = "closed"
shutter_text ShutterState.moving = "moving"
shutter_text ShutterState.unknown = "unknown"

unfoldable pub shutter_of : String → Option ShutterState
shutter_of t =
    if t === "open"
    then some ShutterState.opened
    else if t === "closed"
    then some ShutterState.closed
    else if t === "moving"
    then some ShutterState.moving
    else if t === "unknown"
    then some ShutterState.unknown
    else none

unfoldable pub phase_text : Phase → String
phase_text Phase.robot_work = "robot_work"
phase_text Phase.await_guards = "await_guards"
phase_text Phase.shutter_open = "shutter_open"
phase_text Phase.moving = "moving"
phase_text Phase.shutter_close = "shutter_close"
phase_text Phase.set_fans = "set_fans"
phase_text Phase.faulted = "faulted"

unfoldable pub phase_of : String → Option Phase
phase_of t =
    if t === "robot_work"
    then some Phase.robot_work
    else if t === "await_guards"
    then some Phase.await_guards
    else if t === "shutter_open"
    then some Phase.shutter_open
    else if t === "moving"
    then some Phase.moving
    else if t === "shutter_close"
    then some Phase.shutter_close
    else if t === "set_fans"
    then some Phase.set_fans
    else if t === "faulted"
    then some Phase.faulted
    else none

-- The stations by their members' names; `none` is a KeyError.
unfoldable pub station_name : Station → String
station_name Station.inq = "IN"
station_name Station.f1 = "F1"
station_name Station.o = "O"
station_name Station.f2 = "F2"
station_name Station.out = "OUT"

unfoldable pub station_of : String → Option Station
station_of t =
    if t === "IN"
    then some Station.inq
    else if t === "F1"
    then some Station.f1
    else if t === "O"
    then some Station.o
    else if t === "F2"
    then some Station.f2
    else if t === "OUT"
    then some Station.out
    else none
