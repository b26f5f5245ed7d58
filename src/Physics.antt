-- ===== src/Physics.antt =====
-- src/finishing_line/sim/physics.py: the parts on the belts, which see the motors' registers only and
-- show themselves to the sensors.
pub mod Conserved
pub mod Landing
pub mod Parts
pub mod Pass
use finishing_line.Common.{
  Bool, List, Option, [], false, if◌then◌else◌, is_empty, is_some, leb, ltb, none, not, same, some,
  true, ℕ, ◌&&◌, ◌++◌, ◌+◌, ◌-◌, ◌==◌, ◌||◌, ◌∷◌,
}
use finishing_line.Firmware.{Firmware, level, poke}
use finishing_line.Model.{Station, StationSet, Zone, get, is_station, set}
use finishing_line.Registers.{
  f1_eye_in, f2_eye_in, feed_conveyor_coil, in_count_reg, in_eye_in, mode_continuous,
  mode_sensor_stop, o_eye_in, out_eye_in, state_moving, z1_eye_in, z2_eye_in, zone_regs,
}

-- The belts that a hop rides on.
pub data Ride : Type 0 where
  on_z1 on_z2 across : Ride

pub record Hop : Type 0 where
  pub src : Station
  pub dest : Station
  pub ride : Ride

-- The hops in an order that vacates a station before it fills it.
abbrev pub hop : Station → Station → Ride → Hop
hop src dest ride = record { src = src; dest = dest; ride = ride }

abbrev pub downstream_hops : List Hop
downstream_hops =
    hop Station.f2 Station.out Ride.on_z2
    ∷ hop Station.o Station.f2 Ride.on_z2
    ∷ hop Station.f1 Station.o Ride.across
    ∷ hop Station.inq Station.f1 Ride.on_z1
    ∷ []

abbrev pub upstream_hops : List Hop
upstream_hops = hop Station.o Station.f1 Ride.across ∷ hop Station.f2 Station.o Ride.on_z2 ∷ []

abbrev pub Arrival : Type 0
Arrival = Station × Ride

-- `least_transit` is the gap when `transit_s` is 0.
pub record Pace : Type 0 where
  pub transfer_s : ℕ
  pub transit_s : ℕ
  pub least_transit : ℕ
  pub out_dwell_s : ℕ

pub record Sim : Type 0 where
  pub in_count : ℕ
  pub occupied : StationSet
  pub outfed : ℕ
  pub out_clear_at : Option ℕ
  pub accum : ℕ
  pub in_transit : Option (ℕ × List Arrival)

-- `_publish`
abbrev pub level_of : Bool → ℕ
level_of true = 1
level_of false = 0

unfoldable pub publish : Sim → Firmware → Firmware
publish s f = record f {
  discrete = poke out_eye_in (level_of (is_some s.out_clear_at)) (
      poke in_eye_in (level_of (not (s.in_count == 0))) (
        poke f2_eye_in (level_of s.occupied.at_f2) (
          poke o_eye_in (level_of s.occupied.at_o)
            (poke f1_eye_in (level_of s.occupied.at_f1) f.discrete))));
  input_regs = poke in_count_reg s.in_count f.input_regs;
}

-- `_zone_running`: whether a belt runs, and whether downstream.
unfoldable pub zone_running : Firmware → Zone → Bool × Bool
zone_running f zone =
    let mode = f.holding (zone_regs zone).mode in
    (
      mode == mode_continuous
          || mode == mode_sensor_stop && f.input_regs (zone_regs zone).state == state_moving,
      level f.coils (zone_regs zone).direction,
    )

-- The end of a shift: the destinations fill.
abbrev pub raise_handoff : Ride → Firmware → Firmware
raise_handoff Ride.across f =
    let eye = if level f.coils (zone_regs Zone.z1).direction then z2_eye_in else z1_eye_in in
    record f { discrete = poke eye 1 f.discrete }
raise_handoff _ f = f

abbrev pub land : Pace → (now : ℕ) → Arrival → Sim × Firmware → Sim × Firmware
land p now (Station.out, ride) (s, f) =
    (record s { outfed = s.outfed + 1; out_clear_at = some (now + p.out_dwell_s) }, f)
land p now (dest, ride) (s, f) =
    (record s { occupied = set dest true s.occupied }, raise_handoff ride f)

unfoldable pub land_all : Pace → (now : ℕ) → List Arrival → Sim × Firmware → Sim × Firmware
land_all p now [] m = m
land_all p now (a ∷ arrivals) m = land_all p now arrivals (land p now a m)

-- The plan of a shift: the working copy of the occupied stations, the arrivals so far, and the state
-- in which the sources have been vacated.
pub record Shift : Type 0 where
  pub sim : Sim
  pub work : StationSet
  pub arrivals : List Arrival

abbrev pub hop_enabled : (z1 z2 : Bool × Bool) → Ride → (want_down : Bool) → Bool
hop_enabled (run1, down1) z2 Ride.on_z1 want = run1 && same down1 want
hop_enabled z1 (run2, down2) Ride.on_z2 want = run2 && same down2 want
hop_enabled (run1, down1) (run2, down2) Ride.across want =
    run1 && same down1 want && (run2 && same down2 want)

abbrev pub is_out : Station → Bool
is_out Station.out = true
is_out _ = false

abbrev pub fill : Station → StationSet → StationSet
fill dest t = if is_out dest then t else set dest true t

abbrev pub board : Ride → Shift → Shift
board ride x = record x {
  sim = record (x.sim) { in_count = x.sim.in_count - 1 };
  work = set Station.f1 true x.work;
  arrivals = x.arrivals ++ (Station.f1, ride) ∷ [];
}

abbrev pub ride_on : Hop → Shift → Shift
ride_on h x = record x {
  sim = record (x.sim) { occupied = set h.src false x.sim.occupied };
  work = fill h.dest (set h.src false x.work);
  arrivals = x.arrivals ++ (h.dest, h.ride) ∷ [];
}

abbrev pub take_hop : (feed_on : Bool) → Hop → Shift → Shift
take_hop feed_on h x =
    if is_station h.src Station.inq
    then (if feed_on && not (x.sim.in_count == 0) && not x.work.at_f1 then board h.ride x else x)
    else if get x.work h.src && (is_out h.dest || not (get x.work h.dest))
    then ride_on h x
    else x

unfoldable pub plan_shift :
    (z1 z2 : Bool × Bool) → (want_down feed_on : Bool) → List Hop → Shift → Shift
plan_shift z1 z2 want feed_on [] x = x
plan_shift z1 z2 want feed_on (h ∷ hops) x =
    plan_shift z1 z2 want feed_on hops
      (if hop_enabled z1 z2 h.ride want then take_hop feed_on h x else x)

-- What `time.monotonic` returns at its four calls in a pass.
pub record Clock : Type 0 where
  pub at_start : ℕ
  pub at_gap : ℕ
  pub at_out : ℕ
  pub at_shift : ℕ

abbrev pub past : ℕ → Option ℕ → Bool
past now none = false
past now (some deadline) = leb deadline now

abbrev pub shown : Sim × Firmware → Sim × Firmware
shown (s, f) = (s, publish s f)

-- A shift whose gap has passed ends.
abbrev pub end_shift : Pace → Clock → (ℕ × List Arrival) → Sim → Firmware → Sim × Firmware
end_shift p c (deadline, arrivals) s f =
    let (t, g) = land_all p c.at_out arrivals (s, f) in
    if leb deadline c.at_gap then shown (record t { in_transit = none }, g) else (s, f)

abbrev pub start_transit : Pace → Clock → Shift → Sim
start_transit p c x = if is_empty x.arrivals then x.sim else record (x.sim) {
  in_transit =
      some (c.at_shift + (if p.transit_s == 0 then p.least_transit else p.transit_s), x.arrivals);
}

abbrev pub rest_belts : Sim → Firmware → Sim × Firmware
rest_belts s f =
    (record s { accum = 0 }, record f { discrete = poke z2_eye_in 0 (poke z1_eye_in 0 f.discrete) })

abbrev pub shift_on_belts : Pace → Clock → (z1 z2 : Bool × Bool) → Sim → Firmware → Sim × Firmware
shift_on_belts p c (run1, down1) (run2, down2) s f =
    let down = if run1 then down1 else down2 in
    let x : Shift = record { sim = record s { accum = 0 }; work = s.occupied; arrivals = [] } in
    shown (
      start_transit p c (
          plan_shift (run1, down1) (run2, down2) down (level f.coils feed_conveyor_coil)
            (if down then downstream_hops else upstream_hops) x),
      f,
    )

abbrev pub run_belts :
    Pace → Clock → (dt : ℕ) → (z1 z2 : Bool × Bool) → Sim → Firmware → Sim × Firmware
run_belts p c dt (run1, down1) (run2, down2) s f =
    if not (run1 || run2)
    then rest_belts s f
    else if ltb (s.accum + dt) p.transfer_s
    then (record s { accum = s.accum + dt }, f)
    else shift_on_belts p c (run1, down1) (run2, down2) s f

abbrev pub in_gap :
    Pace → Clock → (dt : ℕ) → Option (ℕ × List Arrival) → Sim → Firmware → Sim × Firmware
in_gap p c dt none s f = run_belts p c dt (zone_running f Zone.z1) (zone_running f Zone.z2) s f
in_gap p c dt (some transit) s f = end_shift p c transit s f

-- `_tick`
abbrev pub cleared : Clock → Sim → Sim
cleared c s = if past c.at_start s.out_clear_at then record s { out_clear_at = none } else s

unfoldable pub belts_tick : Pace → Clock → (dt : ℕ) → Sim → Firmware → Sim × Firmware
unfolding publish zone_running land_all plan_shift
belts_tick p c dt s f = let t = cleared c s in in_gap p c dt t.in_transit t (publish t f)
