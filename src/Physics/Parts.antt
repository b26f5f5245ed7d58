-- ===== src/Physics/Parts.antt =====
-- The number of parts while a shift is planned (src/finishing_line/sim/physics.py).
use finishing_line.Common.{
  Bool, List, [], arith, false, if◌then◌else◌, suc, true, ℕ, ◌++◌, ◌+◌, ◌==◌, ◌∷◌, ◌≡◌, ◌∙◌,
}
use finishing_line.Model.{Station, StationSet, get, set}
use finishing_line.Physics.{
  Arrival, Hop, Ride, Shift, board, ride_on, take_hop, plan_shift, downstream_hops, upstream_hops,
  hop_enabled, hop,
}

abbrev pub one : Bool → ℕ
one true = 1
one false = 0

-- The parts that stand at the stations.
abbrev pub standing : StationSet → ℕ
standing t = one t.at_in + (one t.at_f1 + (one t.at_o + (one t.at_f2 + one t.at_out)))

unfoldable pub count : List Arrival → ℕ
count [] = 0
count (a ∷ arrivals) = suc (count arrivals)

count-append : (xs : List Arrival) (a : Arrival) → count (xs ++ a ∷ []) ≡ suc (count xs)
unfolding count
count-append [] a = omega arith
count-append (x ∷ xs) a = omega (arith, count-append xs a)

-- The parts that a plan accounts for.
unfoldable pub parts : Shift → ℕ
parts x = x.sim.in_count + (standing x.sim.occupied + count x.arrivals)

standing_vacated :
    (src : Station) (t : StationSet)
    → get t src ≡ true
    → standing t ≡ suc (standing (set src false t))
standing_vacated Station.f1 t h = ground arith
standing_vacated Station.o t h = ground arith
standing_vacated Station.f2 t h = ground arith
standing_vacated Station.inq t h = ground arith
standing_vacated Station.out t h = ground arith

ride_on-parts :
    (h : Hop) (x : Shift) → get x.sim.occupied h.src ≡ true → parts (ride_on h x) ≡ parts x
unfolding parts
ride_on-parts h x full =
    omega
      (arith, standing_vacated h.src x.sim.occupied full, count-append x.arrivals (h.dest, h.ride))

board-parts :
    (ride : Ride) (x : Shift) → (x.sim.in_count == 0) ≡ false → parts (board ride x) ≡ parts x
unfolding parts
board-parts ride x some_in = ground (arith, count-append x.arrivals (Station.f1, ride))

-- The plan has not filled the station that a hop leaves.
abbrev pub IsUnfilled : Station → Shift → Type 0
IsUnfilled station x = get x.work station ≡ get x.sim.occupied station

take_hop-parts :
    (feed_on : Bool) (h : Hop) (x : Shift)
    → IsUnfilled h.src x
    → parts (take_hop feed_on h x) ≡ parts x
take_hop-parts feed_on h x fresh = ground (arith, board-parts h.ride x, ride_on-parts h x)

-- One hop of a plan, which is skipped unless its belts run.
abbrev pub ride_hop : (on feed_on : Bool) → Hop → Shift → Shift
ride_hop on feed_on h x = if on then take_hop feed_on h x else x

ride_hop-parts :
    (on feed_on : Bool) (h : Hop) (x : Shift)
    → IsUnfilled h.src x
    → parts (ride_hop on feed_on h x) ≡ parts x
ride_hop-parts on feed_on h x fresh = ground (arith, take_hop-parts feed_on h x fresh)

ride_hop_feed :
    (on feed_on : Bool) (ride : Ride) (x : Shift)
    → parts (ride_hop on feed_on (hop Station.inq Station.f1 ride) x) ≡ parts x
ride_hop_feed on feed_on ride x = ground (arith, board-parts ride x)

-- The hops that come before the one that leaves a station do not fill it.
pub ride_hop-o :
    (on feed_on : Bool) (ride : Ride) (x : Shift)
    → IsUnfilled Station.o x
    → IsUnfilled Station.o (ride_hop on feed_on (hop Station.f2 Station.out ride) x)
ride_hop-o on feed_on ride x fresh = ground arith

pub ride_hop-f1 :
    (on feed_on : Bool) (ride : Ride) (x : Shift)
    → IsUnfilled Station.f1 x
    → IsUnfilled Station.f1 (ride_hop on feed_on (hop Station.f2 Station.out ride) x)
ride_hop-f1 on feed_on ride x fresh = ground arith

pub ride_hop-f1_late :
    (on feed_on : Bool) (ride : Ride) (x : Shift)
    → IsUnfilled Station.f1 x
    → IsUnfilled Station.f1 (ride_hop on feed_on (hop Station.o Station.f2 ride) x)
ride_hop-f1_late on feed_on ride x fresh = ground arith

pub ride_hop-f2 :
    (on feed_on : Bool) (ride : Ride) (x : Shift)
    → IsUnfilled Station.f2 x
    → IsUnfilled Station.f2 (ride_hop on feed_on (hop Station.o Station.f1 ride) x)
ride_hop-f2 on feed_on ride x fresh = ground arith

pub plan_shift-downstream_hops :
    (z1 z2 : Bool × Bool) (feed_on : Bool) (x : Shift)
    → IsUnfilled Station.f1 x
    → IsUnfilled Station.o x
    → IsUnfilled Station.f2 x
    → parts (plan_shift z1 z2 true feed_on downstream_hops x) ≡ parts x
unfolding plan_shift
plan_shift-downstream_hops z1 z2 feed_on x f1 o f2 =
    let on1 = hop_enabled z1 z2 Ride.on_z1 true in
    let on2 = hop_enabled z1 z2 Ride.on_z2 true in
    let both = hop_enabled z1 z2 Ride.across true in
    let x1 = ride_hop on2 feed_on (hop Station.f2 Station.out Ride.on_z2) x in
    let x2 = ride_hop on2 feed_on (hop Station.o Station.f2 Ride.on_z2) x1 in
    let x3 = ride_hop both feed_on (hop Station.f1 Station.o Ride.across) x2 in
    ride_hop_feed on1 feed_on Ride.on_z1 x3
    ∙ ride_hop-parts both feed_on (hop Station.f1 Station.o Ride.across) x2
        (ride_hop-f1_late on2 feed_on Ride.on_z2 x1 (ride_hop-f1 on2 feed_on Ride.on_z2 x f1))
    ∙ ride_hop-parts on2 feed_on (hop Station.o Station.f2 Ride.on_z2) x1
        (ride_hop-o on2 feed_on Ride.on_z2 x o)
    ∙ ride_hop-parts on2 feed_on (hop Station.f2 Station.out Ride.on_z2) x f2

pub plan_shift-upstream_hops :
    (z1 z2 : Bool × Bool) (feed_on : Bool) (x : Shift)
    → IsUnfilled Station.o x
    → IsUnfilled Station.f2 x
    → parts (plan_shift z1 z2 false feed_on upstream_hops x) ≡ parts x
unfolding plan_shift
plan_shift-upstream_hops z1 z2 feed_on x o f2 =
    let on2 = hop_enabled z1 z2 Ride.on_z2 false in
    let both = hop_enabled z1 z2 Ride.across false in
    let x1 = ride_hop both feed_on (hop Station.o Station.f1 Ride.across) x in
    ride_hop-parts on2 feed_on (hop Station.f2 Station.o Ride.on_z2) x1
      (ride_hop-f2 both feed_on Ride.across x f2)
    ∙ ride_hop-parts both feed_on (hop Station.o Station.f1 Ride.across) x o
