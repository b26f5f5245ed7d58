-- ===== src/Physics/Conserved.antt =====
-- A pass of the belts, with its gap between two parts (src/finishing_line/sim/physics.py).
use finishing_line.Common.{
  refl, ap, sym, subst, Bool, List, Option, [], arith, if◌then◌else◌, ℕ, ◌+◌, ◌∷◌, ◌≡◌, ◌≤◌, none,
  some, ◌∙◌,
}
use finishing_line.Firmware.{Firmware}
use finishing_line.Model.{Station, StationSet}
use finishing_line.Physics.{
  Hop, take_hop, hop_enabled, start_transit, Arrival, Clock, Pace, Ride, Shift, Sim, land_all, land,
  plan_shift,
}
use finishing_line.Physics.Parts.{one, standing, count, parts}
use finishing_line.Physics.Landing.{bound_for, IsPlanned}

-- No station has both a part and one that arrives, or two that arrive.
pub record IsApart (t : StationSet) (arrivals : List Arrival) : Type 0 where
  pub inq : one t.at_in + bound_for Station.inq arrivals ≤ 1
  pub f1 : one t.at_f1 + bound_for Station.f1 arrivals ≤ 1
  pub o : one t.at_o + bound_for Station.o arrivals ≤ 1
  pub f2 : one t.at_f2 + bound_for Station.f2 arrivals ≤ 1

abbrev pub carried : Option (ℕ × List Arrival) → List Arrival
carried none = []
carried (some (deadline, arrivals)) = arrivals

-- All the parts: in the queue, at the stations, between them and beyond the outfeed.
unfoldable pub all_parts : Sim → ℕ
all_parts s = s.in_count + (standing s.occupied + (count (carried s.in_transit) + s.outfed))

pub IsApart-empty : (t : StationSet) → IsApart t []
unfolding bound_for
IsApart-empty t = ground arith

-- A part that lands leaves the belts for a station or the outfeed.
land-IsApart :
    (p : Pace) (now : ℕ) (dest : Station) (ride : Ride) (arrivals : List Arrival) (s : Sim)
    (f : Firmware)
    → IsApart s.occupied ((dest, ride) ∷ arrivals)
    → let t = (land p now (dest, ride) (s, f)).0 in
      IsApart t.occupied arrivals
      × ((t.in_count ≡ s.in_count)
          × (standing t.occupied + t.outfed ≡ 1 + (standing s.occupied + s.outfed)))
unfolding bound_for
land-IsApart p now Station.out ride arrivals s f h = ground arith
land-IsApart p now Station.inq ride arrivals s f h = ground arith
land-IsApart p now Station.f1 ride arrivals s f h = ground arith
land-IsApart p now Station.o ride arrivals s f h = ground arith
land-IsApart p now Station.f2 ride arrivals s f h = ground arith

pub land_all-parts :
    (p : Pace) (now : ℕ) (arrivals : List Arrival) (s : Sim) (f : Firmware)
    → IsApart s.occupied arrivals
    → all_parts (record (land_all p now arrivals (s, f)).0 { in_transit = none })
      ≡ s.in_count + (standing s.occupied + (count arrivals + s.outfed))
unfolding all_parts count land_all
land_all-parts p now [] s f h = refl
land_all-parts p now ((dest, ride) ∷ arrivals) s f h =
    let (apart, kept) = land-IsApart p now dest ride arrivals s f h in
    let (t, g) = land p now (dest, ride) (s, f) in
    omega (arith, land_all-parts p now arrivals t g apart, kept.0, kept.1)

-- A plan moves no part past the outfeed, and starts no gap.
take_hop_kept :
    (on feed_on : Bool) (h : Hop) (x : Shift)
    → let y = if on then take_hop feed_on h x else x in
      (y.sim.outfed ≡ x.sim.outfed) × (y.sim.in_transit ≡ x.sim.in_transit)
take_hop_kept on feed_on h x = ground arith

pub plan_shift_kept :
    (z1 z2 : Bool × Bool) (want feed_on : Bool) (hops : List Hop) (x : Shift)
    → let y = plan_shift z1 z2 want feed_on hops x in
      (y.sim.outfed ≡ x.sim.outfed) × (y.sim.in_transit ≡ x.sim.in_transit)
unfolding plan_shift
plan_shift_kept z1 z2 want feed_on [] x = (refl, refl)
plan_shift_kept z1 z2 want feed_on (h ∷ hops) x =
    let on = hop_enabled z1 z2 h.ride want in
    let y = if on then take_hop feed_on h x else x in
    let (outfed, transit) = take_hop_kept on feed_on h x in
    let (outfed_on, transit_on) = plan_shift_kept z1 z2 want feed_on hops y in
    (outfed_on ∙ outfed, transit_on ∙ transit)

start_transit-parts :
    (p : Pace) (c : Clock) (sim : Sim) (work : StationSet) (arrivals : List Arrival)
    → sim.in_transit ≡ none
    → let x : Shift = record { sim = sim; work = work; arrivals = arrivals } in
      all_parts (start_transit p c x) ≡ parts x + sim.outfed
unfolding all_parts parts count
start_transit-parts p c sim work [] still = omega (arith, ap (λ t. count (carried t)) still)
start_transit-parts p c sim work (a ∷ arrivals) still = omega arith

start_transit-IsApart :
    (p : Pace) (c : Clock) (sim : Sim) (work : StationSet) (arrivals : List Arrival)
    → sim.in_transit ≡ none
    → let x : Shift = record { sim = sim; work = work; arrivals = arrivals } in
      IsPlanned x
      → IsApart (start_transit p c x).occupied (carried (start_transit p c x).in_transit)
start_transit-IsApart p c sim work [] still h =
    subst (λ t. IsApart sim.occupied (carried t)) (sym still) (IsApart-empty sim.occupied)
start_transit-IsApart p c sim work (a ∷ arrivals) still h = ground arith

abbrev pub IsCarried : Sim → Type 0
IsCarried s = IsApart s.occupied (carried s.in_transit)

-- What a pass that starts with the parts of `s` leaves.
abbrev pub IsConserved : Sim → Sim → Type 0
IsConserved s t = (all_parts t ≡ all_parts s) × IsCarried t

pub planned-IsConserved :
    (p : Pace) (c : Clock) (s : Sim) (x : Shift)
    → s.in_transit ≡ none
    → (x.sim.outfed ≡ s.outfed) × (x.sim.in_transit ≡ s.in_transit)
    → parts x + s.outfed ≡ all_parts s
    → IsPlanned x
    → IsConserved s (start_transit p c x)
planned-IsConserved p c s x still kept same_parts planned =
    let x_still = kept.1 ∙ still in
    (
      start_transit-parts p c x.sim x.work x.arrivals x_still
          ∙ ap (λ n. parts x + n) kept.0
          ∙ same_parts,
      start_transit-IsApart p c x.sim x.work x.arrivals x_still planned,
    )
