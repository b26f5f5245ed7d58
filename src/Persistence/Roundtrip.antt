-- ===== src/Persistence/Roundtrip.antt =====
-- A snapshot that is written and read again (src/finishing_line/process/persistence.py).
use finishing_line.Common.{Dict, [], arith, false, none, refl, some, ℕ, ◌==◌, ◌∷◌, ◌≡◌}
use finishing_line.Model.{
  FanState, LineState, Occupancy, PartRole, PartState, Phase, Product, ShutterState, Station,
}
use finishing_line.Persistence.{
  Snapshot, deserialize_state, empty_occupancy, occupancy_entries, part_snapshot, parts_snapshot,
  read_occupancy, read_part, read_parts, read_state, schema_version, serialize_state,
}
use finishing_line.Texts.{
  fan_state_of, fan_text, phase_of, phase_text, product_of, product_text, role_of, role_text,
  shutter_of, shutter_text, station_name, station_of,
}

-- The entries of a table stand under their parts' ids.
abbrev pub EntriesKeyed : Dict PartState → Type 0
EntriesKeyed [] = Unit {0}
EntriesKeyed ((id, p) ∷ parts) = (p.part_id ≡ id) × EntriesKeyed parts

product-round : (p : Product) → product_of (product_text p) ≡ some p
unfolding product_of product_text
product-round Product.cube = refl
product-round Product.browser = refl

role-round : (r : PartRole) → role_of (role_text r) ≡ some r
unfolding role_of role_text
role-round PartRole.lead = refl
role-round PartRole.trail = refl

fan-round : (f : FanState) → fan_state_of (fan_text f) ≡ some f
unfolding fan_state_of fan_text
fan-round FanState.off = refl
fan-round FanState.on = refl

shutter-round : (s : ShutterState) → shutter_of (shutter_text s) ≡ some s
unfolding shutter_of shutter_text
shutter-round ShutterState.opened = refl
shutter-round ShutterState.closed = refl
shutter-round ShutterState.moving = refl
shutter-round ShutterState.unknown = refl

phase-round : (p : Phase) → phase_of (phase_text p) ≡ some p
unfolding phase_of phase_text
phase-round Phase.robot_work = refl
phase-round Phase.await_guards = refl
phase-round Phase.shutter_open = refl
phase-round Phase.moving = refl
phase-round Phase.shutter_close = refl
phase-round Phase.set_fans = refl
phase-round Phase.faulted = refl

station-round : (s : Station) → station_of (station_name s) ≡ some s
unfolding station_of station_name
station-round Station.inq = refl
station-round Station.f1 = refl
station-round Station.o = refl
station-round Station.f2 = refl
station-round Station.out = refl

pub parts-round :
    (parts : Dict PartState) → EntriesKeyed parts → read_parts (parts_snapshot parts) ≡ some parts
unfolding read_parts read_part parts_snapshot part_snapshot
parts-round [] k = refl
parts-round ((id, p) ∷ parts) (e, k) =
    rw (product-round p.product) (rw (role-round p.role) (rw (parts-round parts k) (rw e refl)))

pub occupancy-round :
    (t : Occupancy) → read_occupancy (occupancy_entries t) empty_occupancy ≡ some t
unfolding read_occupancy occupancy_entries station_of station_name
occupancy-round t = ground arith

-- What a snapshot forgets: the intents and the moves that are under way, and the mirror of the gun.
abbrev pub saved_of : LineState → LineState
saved_of s = record s { pending = []; in_flight = []; spray_burst_active = false }

-- A state whose parts stand in the table under their own ids is read back as it was written, with
-- nothing pending and no moves under way, and the count of declared parts too.
pub deserialize_state-serialize_state :
    (s : LineState) (declared : ℕ)
    → EntriesKeyed s.parts
    → deserialize_state (serialize_state s declared) ≡ some (saved_of s, declared)
unfolding deserialize_state read_state serialize_state
deserialize_state-serialize_state s declared k = rw (parts-round s.parts k) (
    rw (occupancy-round s.occupancy) (
      rw (phase-round s.phase)
        (rw (fan-round s.f1_fan) (rw (fan-round s.f2_fan) (rw (shutter-round s.shutter) refl)))))

-- A snapshot of another schema is refused.
pub deserialize_state-schema :
    (d : Snapshot) → (d.v == schema_version) ≡ false → deserialize_state d ≡ none
unfolding deserialize_state
deserialize_state-schema d h = rw h refl
