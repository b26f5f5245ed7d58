-- ===== src/Model.antt =====
-- src/finishing_line/core/model.py: what the controller knows of a part, what it reads from the
-- sensors, and its whole state. Seconds are whole units of a clock, so `+` on them is exact.
mod Types
pub use Types.{
  Station, Zone, Product, PartRole, Direction, FanState, ShutterState, Beat, Phase, Reason,
  PerStation, get, set, Station-discrete, is_station, Move, index,
}
unfoldable pub use Types.{has_move}
use finishing_line.Common.{
  Bool, Dict, List, Option, String, [], false, if◌then◌else◌, leb, lookup, none, opt_eq, some, ℕ,
  ◌&&◌, ◌+◌, ◌===◌,
}
use finishing_line.Model.Types.{
  Beat, FanState, Move, PartRole, PerStation, Phase, Product, Reason, ShutterState, Station, get,
}

pub record PartState : Type 0 where
  pub part_id : String
  pub product : Product
  pub role : PartRole
  pub pair_index : ℕ
  pub coats_applied : ℕ
  pub flash_1_s : ℕ
  pub flash_2_s : ℕ
  pub is_wet : Bool

unfoldable pub active_flash_seconds : PartState → ℕ
active_flash_seconds p = if leb p.coats_applied 1 then p.flash_1_s else p.flash_2_s

unfoldable pub with_flash_advanced : PartState → ℕ → PartState
with_flash_advanced p dt =
    if leb p.coats_applied 1
    then record p { flash_1_s = p.flash_1_s + dt }
    else record p { flash_2_s = p.flash_2_s + dt }

-- A set of stations.
abbrev pub StationSet : Type 0
StationSet = PerStation Bool

-- Which part is where: a dictionary from stations to part ids.
abbrev pub Occupancy : Type 0
Occupancy = PerStation (Option String)

-- `not occupancy`
unfoldable pub nobody : Occupancy → Bool
nobody t =
    opt_eq t.at_in none
    && opt_eq t.at_f1 none
    && opt_eq t.at_o none
    && opt_eq t.at_f2 none
    && opt_eq t.at_out none

-- `occupancy == other`
unfoldable pub occupancy_eq : Occupancy → Occupancy → Bool
occupancy_eq t u =
    opt_eq t.at_in u.at_in
    && opt_eq t.at_f1 u.at_f1
    && opt_eq t.at_o u.at_o
    && opt_eq t.at_f2 u.at_f2
    && opt_eq t.at_out u.at_out

pub record SensorSnapshot : Type 0 where
  pub occupied : StationSet
  pub shutter : ShutterState
  pub f1_fan : FanState
  pub f2_fan : FanState
  pub robot_clear : Bool
  pub gun_on : Bool
  pub in_count : ℕ
  pub in_eye : Bool
  pub out_eye : Bool

-- An intent id is the number `n` of the text "i{n}".
pub record LineState : Type 0 where
  pub parts : Dict PartState
  pub occupancy : Occupancy
  pub in_queue : List String
  pub pending : List ℕ
  pub in_flight : List Move
  pub beat : Beat
  pub pair_index : ℕ
  pub phase : Phase
  pub f1_fan : FanState
  pub f2_fan : FanState
  pub shutter : ShutterState
  pub spray_burst_active : Bool
  pub fault : Option Reason
  pub fault_phase : Option Phase

-- The state that `LineState()` makes: an empty line.
abbrev pub new_line : LineState
new_line = record {
  parts = [];
  occupancy = record { at_in = none; at_f1 = none; at_o = none; at_f2 = none; at_out = none };
  in_queue = [];
  pending = [];
  in_flight = [];
  beat = Beat.p1;
  pair_index = 0;
  phase = Phase.robot_work;
  f1_fan = FanState.off;
  f2_fan = FanState.off;
  shutter = ShutterState.closed;
  spray_burst_active = false;
  fault = none;
  fault_phase = none;
}

-- An empty id counts as no id.
unfoldable pub part_of : Option String → Dict PartState → Option PartState
part_of none parts = none
part_of (some part_id) parts = if part_id === "" then none else lookup part_id parts

unfoldable pub part_at : LineState → Station → Option PartState
unfolding part_of
part_at s station = part_of (get s.occupancy station) s.parts

-- `none` is the ValueError of a station that has no fan.
unfoldable pub fan_state : LineState → Station → Option FanState
fan_state s Station.f1 = some s.f1_fan
fan_state s Station.f2 = some s.f2_fan
fan_state s _ = none
