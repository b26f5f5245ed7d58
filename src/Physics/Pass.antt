-- ===== src/Physics/Pass.antt =====
-- The parts at the end of a pass (src/finishing_line/sim/physics.py).
use finishing_line.Model.{Zone}
use finishing_line.Common.{
  ap, subst, Bool, List, Option, [], arith, false, if◌then◌else◌, true, ℕ, ◌+◌, ◌≡◌, none, some,
  refl, if_elim, ◌∙◌, ◌||◌, ltb, leb, not,
}
use finishing_line.Firmware.{Firmware, level}
use finishing_line.Registers.{feed_conveyor_coil}
use finishing_line.Physics.{
  Clock, Pace, Shift, Sim, run_belts, end_shift, cleared, publish, in_gap, belts_tick, Arrival,
  plan_shift, downstream_hops, upstream_hops, land_all, start_transit, zone_running, past,
}
use finishing_line.Physics.Parts.{
  plan_shift-downstream_hops, plan_shift-upstream_hops, parts, count,
}
use finishing_line.Physics.Landing.{
  IsPlanned, bound_for, plan_shift-IsPlanned_down, plan_shift-IsPlanned_up,
}
use finishing_line.Physics.Conserved.{
  IsConserved, IsCarried, all_parts, planned-IsConserved, plan_shift_kept, land_all-parts,
  IsApart-empty, IsApart, carried,
}

abbrev begun : Sim → Shift
begun s = record { sim = record s { accum = 0 }; work = s.occupied; arrivals = [] }

begun-IsPlanned : (s : Sim) → IsPlanned (begun s)
unfolding bound_for
begun-IsPlanned s = ground arith

begun-parts : (s : Sim) → s.in_transit ≡ none → parts (begun s) + s.outfed ≡ all_parts s
unfolding parts count all_parts
begun-parts s still = omega (arith, ap (λ t. count (carried t)) still)

begun-IsConserved :
    (p : Pace) (c : Clock) (z1 z2 : Bool × Bool) (feed_on down : Bool) (s : Sim)
    → s.in_transit ≡ none
    → IsConserved s (
        start_transit p c (
          plan_shift z1 z2 down feed_on
            (if down then downstream_hops else upstream_hops)
            (begun s)))
begun-IsConserved p c z1 z2 feed_on true s still =
    planned-IsConserved p c s _ still (plan_shift_kept z1 z2 true feed_on downstream_hops (begun s))
      (ap (λ n. n + s.outfed) (plan_shift-downstream_hops z1 z2 feed_on (begun s) refl refl refl)
        ∙ begun-parts s still)
      (plan_shift-IsPlanned_down z1 z2 feed_on (begun s) refl refl refl (begun-IsPlanned s))
begun-IsConserved p c z1 z2 feed_on false s still =
    planned-IsConserved p c s _ still (plan_shift_kept z1 z2 false feed_on upstream_hops (begun s))
      (ap (λ n. n + s.outfed) (plan_shift-upstream_hops z1 z2 feed_on (begun s) refl refl)
        ∙ begun-parts s still)
      (plan_shift-IsPlanned_up z1 z2 feed_on (begun s) refl refl (begun-IsPlanned s))

run_belts-IsConserved :
    (p : Pace) (c : Clock) (dt : ℕ) (z1 z2 : Bool × Bool) (s : Sim) (f : Firmware)
    → s.in_transit ≡ none
    → IsCarried s
    → IsConserved s (run_belts p c dt z1 z2 s f).0
unfolding all_parts
run_belts-IsConserved p c dt (run1, down1) (run2, down2) s f still apart =
    if_elim (λ (m : Sim × Firmware). IsConserved s m.0) (not (run1 || run2)) (λ _. (refl, apart))
      (λ _.
        if_elim (λ (m : Sim × Firmware). IsConserved s m.0) (ltb (s.accum + dt) p.transfer_s)
          (λ _. (refl, apart))
          (λ _.
            begun-IsConserved p c (run1, down1) (run2, down2) (level f.coils feed_conveyor_coil)
              (if run1 then down1 else down2) s still))

end_shift-IsConserved :
    (p : Pace) (c : Clock) (deadline : ℕ) (arrivals : List Arrival) (s : Sim) (f : Firmware)
    → s.in_transit ≡ some (deadline, arrivals)
    → IsCarried s
    → IsConserved s (end_shift p c (deadline, arrivals) s f).0
unfolding all_parts
end_shift-IsConserved p c deadline arrivals s f moving apart =
    let held = subst (λ t. IsApart s.occupied (carried t)) moving apart in
    if_elim (λ (m : Sim × Firmware). IsConserved s m.0) (leb deadline c.at_gap)
      (λ _. (
        omega (
          arith,
          land_all-parts p c.at_out arrivals s f held,
          ap (λ t. count (carried t)) moving,
        ),
        IsApart-empty (land_all p c.at_out arrivals (s, f)).0.occupied,
      ))
      (λ _. (refl, apart))

in_gap-IsConserved :
    (p : Pace) (c : Clock) (dt : ℕ) (transit : Option (ℕ × List Arrival)) (s : Sim) (f : Firmware)
    → s.in_transit ≡ transit
    → IsCarried s
    → IsConserved s (in_gap p c dt transit s f).0
in_gap-IsConserved p c dt none s f still apart =
    run_belts-IsConserved p c dt (zone_running f Zone.z1) (zone_running f Zone.z2) s f still apart
in_gap-IsConserved p c dt (some (deadline, arrivals)) s f moving apart =
    end_shift-IsConserved p c deadline arrivals s f moving apart

cleared-IsConserved : (c : Clock) (s : Sim) → IsCarried s → IsConserved s (cleared c s)
unfolding all_parts
cleared-IsConserved c s apart =
    if_elim (IsConserved s) (past c.at_start s.out_clear_at) (λ _. (refl, apart))
      (λ _. (refl, apart))

-- A pass of the simulated belts loses no part and makes none, whatever the clock, the motors'
-- registers and the feed show, if no station is to get a second part before it: the parts in the
-- queue, at the stations, between two stations and beyond the outfeed are as many after it as before
-- it, and no station is to get a second part after it.
pub belts_tick-IsConserved :
    (p : Pace) (c : Clock) (dt : ℕ) (s : Sim) (f : Firmware)
    → IsCarried s
    → IsConserved s (belts_tick p c dt s f).0
unfolding belts_tick
belts_tick-IsConserved p c dt s f apart =
    let t = cleared c s in
    let (same_parts, t_apart) = cleared-IsConserved c s apart in
    let (parts_on, apart_on) =
      in_gap-IsConserved p c dt t.in_transit t (publish t f) refl t_apart in
    (parts_on ∙ same_parts, apart_on)
