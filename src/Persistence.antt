-- ===== src/Persistence.antt =====
-- src/finishing_line/process/persistence.py: the snapshot of a line's state, and what a restart
-- makes of it. The JSON value is a record with the texts that are written for the enumerations;
-- what the code copies as it is keeps its type.
pub mod Roundtrip
pub mod Restart
use finishing_line.Common.{
  Bool, Dict, List, Option, String, [], false, if◌then◌else◌, is_empty, is_some, none, some, ℕ,
  ◌&&◌, ◌==◌, ◌∷◌,
}
use finishing_line.Model.{
  Beat, LineState, Occupancy, PartState, Phase, Reason, Station, get, nobody, set,
}
use finishing_line.Texts.{
  fan_state_of, fan_text, phase_of, phase_text, product_of, product_text, role_of, role_text,
  shutter_of, shutter_text, station_name, station_of,
}

infixl 5 ◌>>=◌
abbrev ◌>>=◌ {ℓ κ} : {A : Type ℓ} {B : Type κ} → Option A → (A → Option B) → Option B
none >>= f = none
some a >>= f = f a

pub record PartSnapshot : Type 0 where
  pub product : String
  pub role : String
  pub pair_index : ℕ
  pub coats_applied : ℕ
  pub flash_1_s : ℕ
  pub flash_2_s : ℕ
  pub is_wet : Bool

pub record Snapshot : Type 0 where
  pub v : ℕ
  pub declared : ℕ
  pub beat : Beat
  pub phase : String
  pub pair_index : ℕ
  pub fault : Option Reason
  pub fault_phase : Option Phase
  pub f1_fan : String
  pub f2_fan : String
  pub shutter : String
  pub occupancy : Dict String
  pub in_queue : List String
  pub parts : Dict PartSnapshot

abbrev pub schema_version : ℕ
schema_version = 1

abbrev pub occupancy_entry : Occupancy → Station → Dict String → Dict String
occupancy_entry t station more = elim (get t station) [
  | none ↦ more
  | some part_id ↦ (station_name station, part_id) ∷ more
]

unfoldable pub occupancy_entries : Occupancy → Dict String
unfolding station_name
occupancy_entries t = occupancy_entry t Station.inq (
    occupancy_entry t Station.f1 (
      occupancy_entry t Station.o
        (occupancy_entry t Station.f2 (occupancy_entry t Station.out []))))

unfoldable pub part_snapshot : PartState → PartSnapshot
unfolding product_text role_text
part_snapshot p = record {
  product = product_text p.product;
  role = role_text p.role;
  pair_index = p.pair_index;
  coats_applied = p.coats_applied;
  flash_1_s = p.flash_1_s;
  flash_2_s = p.flash_2_s;
  is_wet = p.is_wet;
}

unfoldable pub parts_snapshot : Dict PartState → Dict PartSnapshot
unfolding part_snapshot
parts_snapshot [] = []
parts_snapshot ((part_id, p) ∷ parts) = (part_id, part_snapshot p) ∷ parts_snapshot parts

unfoldable pub serialize_state : LineState → ℕ → Snapshot
unfolding parts_snapshot occupancy_entries phase_text fan_text shutter_text
serialize_state s declared = record {
  v = schema_version;
  declared = declared;
  beat = s.beat;
  phase = phase_text s.phase;
  pair_index = s.pair_index;
  fault = s.fault;
  fault_phase = s.fault_phase;
  f1_fan = fan_text s.f1_fan;
  f2_fan = fan_text s.f2_fan;
  shutter = shutter_text s.shutter;
  occupancy = occupancy_entries s.occupancy;
  in_queue = s.in_queue;
  parts = parts_snapshot s.parts;
}

unfoldable pub read_part : String → PartSnapshot → Option PartState
unfolding product_of role_of
read_part part_id p = do
  product ← product_of p.product
  role ← role_of p.role
  some (record {
    part_id = part_id;
    product = product;
    role = role;
    pair_index = p.pair_index;
    coats_applied = p.coats_applied;
    flash_1_s = p.flash_1_s;
    flash_2_s = p.flash_2_s;
    is_wet = p.is_wet;
  })

unfoldable pub read_parts : Dict PartSnapshot → Option (Dict PartState)
unfolding read_part
read_parts [] = some []
read_parts ((part_id, p) ∷ parts) = do
  part ← read_part part_id p
  rest ← read_parts parts
  some ((part_id, part) ∷ rest)

unfoldable pub read_occupancy : Dict String → Occupancy → Option Occupancy
unfolding station_of
read_occupancy [] t = some t
read_occupancy ((name, part_id) ∷ entries) t = do
  station ← station_of name
  read_occupancy entries (set station (some part_id) t)

abbrev pub empty_occupancy : Occupancy
empty_occupancy = record { at_in = none; at_f1 = none; at_o = none; at_f2 = none; at_out = none }

-- The rest of `deserialize_state`, once the schema is known to be supported.
unfoldable pub read_state : Snapshot → Option (LineState × ℕ)
unfolding read_parts read_occupancy phase_of fan_state_of shutter_of
read_state d = do
  parts ← read_parts d.parts
  occupancy ← read_occupancy d.occupancy empty_occupancy
  phase ← phase_of d.phase
  f1_fan ← fan_state_of d.f1_fan
  f2_fan ← fan_state_of d.f2_fan
  shutter ← shutter_of d.shutter
  some (
    record {
      parts = parts;
      occupancy = occupancy;
      in_queue = d.in_queue;
      pending = [];
      in_flight = [];
      beat = d.beat;
      pair_index = d.pair_index;
      phase = phase;
      f1_fan = f1_fan;
      f2_fan = f2_fan;
      shutter = shutter;
      spray_burst_active = false;
      fault = d.fault;
      fault_phase = d.fault_phase;
    },
    d.declared,
  )

unfoldable pub deserialize_state : Snapshot → Option (LineState × ℕ)
unfolding read_state
deserialize_state d = if d.v == schema_version then read_state d else none

-- The state that the controller starts with after a restart.
unfoldable pub as_restored : LineState → LineState
unfolding nobody
as_restored s =
    let t = record s { pending = []; in_flight = [] } in
    if is_empty t.parts && nobody t.occupancy && is_empty t.in_queue
    then record t { phase = Phase.robot_work; fault = none; fault_phase = none }
    else if is_some t.fault
    then record t { phase = Phase.faulted }
    else record t {
      fault_phase = some t.phase;
      phase = Phase.faulted;
      fault = some Reason.restarted;
    }
