-- ===== src/Model/Types.antt =====
-- The enumerations of src/finishing_line/core/model.py and schedule.py, the reasons that a guard or
-- a fault gives, and tables with one entry for each station.
use finishing_line.Common.{Bool, List, String, [], false, ℕ, ◌&&◌, ◌==◌, ◌||◌, ◌∷◌}

-- In order from upstream to downstream: IN, F1, O, F2, OUT.
pub data Station : Type 0 where
  inq f1 o f2 out : Station

pub data Zone : Type 0 where
  z1 z2 : Zone

pub data Product : Type 0 where
  cube browser : Product

pub data PartRole : Type 0 where
  lead trail : PartRole

pub data Direction : Type 0 where
  upstream downstream : Direction

pub data FanState : Type 0 where
  off on : FanState

pub data ShutterState : Type 0 where
  opened closed moving unknown : ShutterState

-- The beats "P1" to "P4".
pub data Beat : Type 0 where
  p1 p2 p3 p4 : Beat

pub data Phase : Type 0 where
  robot_work await_guards shutter_open moving shutter_close set_fans faulted : Phase

-- The texts by which the code says why it blocks or faults, with the values that are put into them.
pub data Reason : Type 0 where
  external : String → Reason
  robot_not_clear gun_live queue_head_empty outfeed_occupied : Reason
  destination_occupied : Station → Reason
  under_flashed : (part_id : String) (banked needed : ℕ) (at : Station) → Reason
  shutter_not_open shutter_not_closed : ShutterState → Reason
  no_part_at_o no_part_recorded_at_o : Reason
  wet_part_at_f1 : String → Reason
  sensor_mismatch : (at : Station) (expected observed : Bool) → Reason
  advance_not_confirmed : List Station → Reason
  role_mismatch : Beat → (expected found : PartRole) (part_id : String) → Reason
  unreachable_phase : Phase → Reason
  line_empty not_faulted watchdog_tripped restarted : Reason
  resume_rejected : Reason → Reason

pub Station-discrete : Discrete Station
Station-discrete = hlevel

-- `a is b` for stations.
abbrev pub index : Station → ℕ
index Station.inq = 0
index Station.f1 = 1
index Station.o = 2
index Station.f2 = 3
index Station.out = 4

abbrev pub is_station : Station → Station → Bool
is_station a b = index a == index b

-- A move takes a part from one station to another.
abbrev pub Move : Type 0
Move = Station × Station

-- `(src, dst) in moves`
unfoldable pub has_move : Station → Station → List Move → Bool
has_move src dst [] = false
has_move src dst ((a, b) ∷ moves) = is_station a src && is_station b dst || has_move src dst moves

-- A table with one entry for each station: a dictionary or a set over the five stations.
pub record PerStation {ℓ} (A : Type ℓ) : Type ℓ where
  pub at_in : A
  pub at_f1 : A
  pub at_o : A
  pub at_f2 : A
  pub at_out : A

module _ {ℓ} {A : Type ℓ} where
  abbrev pub get : PerStation A → Station → A
  get t Station.inq = t.at_in
  get t Station.f1 = t.at_f1
  get t Station.o = t.at_o
  get t Station.f2 = t.at_f2
  get t Station.out = t.at_out

  abbrev pub set : Station → A → PerStation A → PerStation A
  set Station.inq a t = record t { at_in = a }
  set Station.f1 a t = record t { at_f1 = a }
  set Station.o a t = record t { at_o = a }
  set Station.f2 a t = record t { at_f2 = a }
  set Station.out a t = record t { at_out = a }
