-- ===== src/Physics/Landing.antt =====
-- Where the parts of a shift arrive (src/finishing_line/sim/physics.py).
use finishing_line.Common.{
  Bool, List, [], arith, false, if◌then◌else◌, true, ℕ, ◌++◌, ◌+◌, ◌∷◌, ◌≡◌,
}
use finishing_line.Model.{Station, is_station}
use finishing_line.Physics.{
  Arrival, Ride, Shift, board, plan_shift, downstream_hops, upstream_hops, hop_enabled, hop,
}
use finishing_line.Physics.Parts.{
  one, IsUnfilled, ride_hop, ride_hop-o, ride_hop-f1, ride_hop-f1_late, ride_hop-f2,
}

-- How many of the arrivals are for a station.
unfoldable pub bound_for : Station → List Arrival → ℕ
bound_for station [] = 0
bound_for station ((dest, ride) ∷ arrivals) =
    (if is_station dest station then 1 else 0) + bound_for station arrivals

bound_for-append :
    (station : Station) (xs : List Arrival) (dest : Station) (ride : Ride)
    → bound_for station (xs ++ (dest, ride) ∷ [])
      ≡ bound_for station xs + (if is_station dest station then 1 else 0)
unfolding bound_for
bound_for-append station [] dest ride = omega arith
bound_for-append station ((first, other) ∷ xs) dest ride =
    omega (arith, bound_for-append station xs dest ride)

abbrev Appended : Station → List Arrival → Station → Ride → Type 0
Appended station xs dest ride =
    bound_for station (xs ++ (dest, ride) ∷ [])
    ≡ bound_for station xs + (if is_station dest station then 1 else 0)

bounds_append :
    (xs : List Arrival) (dest : Station) (ride : Ride)
    → Appended Station.inq xs dest ride
      × (Appended Station.f1 xs dest ride
          × (Appended Station.o xs dest ride × Appended Station.f2 xs dest ride))
bounds_append xs dest ride = (
  bound_for-append Station.inq xs dest ride,
  (
    bound_for-append Station.f1 xs dest ride,
    (bound_for-append Station.o xs dest ride, bound_for-append Station.f2 xs dest ride),
  ),
)

-- A station of the working copy is occupied still, or has one arrival.
pub record IsPlanned (x : Shift) : Type 0 where
  pub inq : one x.work.at_in ≡ one x.sim.occupied.at_in + bound_for Station.inq x.arrivals
  pub f1 : one x.work.at_f1 ≡ one x.sim.occupied.at_f1 + bound_for Station.f1 x.arrivals
  pub o : one x.work.at_o ≡ one x.sim.occupied.at_o + bound_for Station.o x.arrivals
  pub f2 : one x.work.at_f2 ≡ one x.sim.occupied.at_f2 + bound_for Station.f2 x.arrivals

board-IsPlanned :
    (ride : Ride) (x : Shift) → x.work.at_f1 ≡ false → IsPlanned x → IsPlanned (board ride x)
board-IsPlanned ride x free h = ground (arith, bounds_append x.arrivals Station.f1 ride)

ride_hop-f2_to_out :
    (on feed_on : Bool) (ride : Ride) (x : Shift)
    → IsUnfilled Station.f2 x
    → IsPlanned x
    → IsPlanned (ride_hop on feed_on (hop Station.f2 Station.out ride) x)
ride_hop-f2_to_out on feed_on ride x fresh h =
    ground (arith, bounds_append x.arrivals Station.out ride)

ride_hop-o_to_f2 :
    (on feed_on : Bool) (ride : Ride) (x : Shift)
    → IsUnfilled Station.o x
    → IsPlanned x
    → IsPlanned (ride_hop on feed_on (hop Station.o Station.f2 ride) x)
ride_hop-o_to_f2 on feed_on ride x fresh h =
    ground (arith, bounds_append x.arrivals Station.f2 ride)

ride_hop-f1_to_o :
    (on feed_on : Bool) (ride : Ride) (x : Shift)
    → IsUnfilled Station.f1 x
    → IsPlanned x
    → IsPlanned (ride_hop on feed_on (hop Station.f1 Station.o ride) x)
ride_hop-f1_to_o on feed_on ride x fresh h = ground (arith, bounds_append x.arrivals Station.o ride)

ride_hop-o_to_f1 :
    (on feed_on : Bool) (ride : Ride) (x : Shift)
    → IsUnfilled Station.o x
    → IsPlanned x
    → IsPlanned (ride_hop on feed_on (hop Station.o Station.f1 ride) x)
ride_hop-o_to_f1 on feed_on ride x fresh h =
    ground (arith, bounds_append x.arrivals Station.f1 ride)

ride_hop-f2_to_o :
    (on feed_on : Bool) (ride : Ride) (x : Shift)
    → IsUnfilled Station.f2 x
    → IsPlanned x
    → IsPlanned (ride_hop on feed_on (hop Station.f2 Station.o ride) x)
ride_hop-f2_to_o on feed_on ride x fresh h = ground (arith, bounds_append x.arrivals Station.o ride)

ride_hop-in_to_f1 :
    (on feed_on : Bool) (ride : Ride) (x : Shift)
    → IsPlanned x
    → IsPlanned (ride_hop on feed_on (hop Station.inq Station.f1 ride) x)
ride_hop-in_to_f1 on feed_on ride x h = ground (arith, board-IsPlanned ride x)

pub plan_shift-IsPlanned_down :
    (z1 z2 : Bool × Bool) (feed_on : Bool) (x : Shift)
    → IsUnfilled Station.f1 x
    → IsUnfilled Station.o x
    → IsUnfilled Station.f2 x
    → IsPlanned x
    → IsPlanned (plan_shift z1 z2 true feed_on downstream_hops x)
unfolding plan_shift
plan_shift-IsPlanned_down z1 z2 feed_on x f1 o f2 h =
    let on1 = hop_enabled z1 z2 Ride.on_z1 true in
    let on2 = hop_enabled z1 z2 Ride.on_z2 true in
    let both = hop_enabled z1 z2 Ride.across true in
    let x1 = ride_hop on2 feed_on (hop Station.f2 Station.out Ride.on_z2) x in
    let x2 = ride_hop on2 feed_on (hop Station.o Station.f2 Ride.on_z2) x1 in
    let x3 = ride_hop both feed_on (hop Station.f1 Station.o Ride.across) x2 in
    ride_hop-in_to_f1 on1 feed_on Ride.on_z1 x3 (
      ride_hop-f1_to_o both feed_on Ride.across x2
        (ride_hop-f1_late on2 feed_on Ride.on_z2 x1 (ride_hop-f1 on2 feed_on Ride.on_z2 x f1))
        (ride_hop-o_to_f2 on2 feed_on Ride.on_z2 x1 (ride_hop-o on2 feed_on Ride.on_z2 x o)
          (ride_hop-f2_to_out on2 feed_on Ride.on_z2 x f2 h)))

pub plan_shift-IsPlanned_up :
    (z1 z2 : Bool × Bool) (feed_on : Bool) (x : Shift)
    → IsUnfilled Station.o x
    → IsUnfilled Station.f2 x
    → IsPlanned x
    → IsPlanned (plan_shift z1 z2 false feed_on upstream_hops x)
unfolding plan_shift
plan_shift-IsPlanned_up z1 z2 feed_on x o f2 h =
    let on2 = hop_enabled z1 z2 Ride.on_z2 false in
    let both = hop_enabled z1 z2 Ride.across false in
    let x1 = ride_hop both feed_on (hop Station.o Station.f1 Ride.across) x in
    ride_hop-f2_to_o on2 feed_on Ride.on_z2 x1 (ride_hop-f2 both feed_on Ride.across x f2)
      (ride_hop-o_to_f1 both feed_on Ride.across x o h)
