-- ===== src/Tests/Shifts.antt =====
-- The simulated belts, at a concrete line.
use finishing_line.Common.{[], arith, false, none, refl, some, true, ◌∷◌, ◌≡◌}
use finishing_line.Firmware.{Firmware, poke, power_on}
use finishing_line.Model.{Station, Zone}
use finishing_line.Physics.{Clock, Pace, Ride, Sim, belts_tick}
use finishing_line.Physics.Conserved.{IsCarried, IsConserved}
use finishing_line.Physics.Landing.{bound_for}
use finishing_line.Physics.Pass.{belts_tick-IsConserved}
use finishing_line.Registers.{feed_conveyor_coil, mode_continuous, zone_regs}

abbrev pace : Pace
pace = record { transfer_s = 300; transit_s = 120; least_transit = 50; out_dwell_s = 500 }

abbrev clock : Clock
clock = record { at_start = 1000; at_gap = 1001; at_out = 1002; at_shift = 1003 }

-- Both belts run downstream, and the feed runs.
abbrev downstream : Firmware
downstream = record (power_on 0) {
  holding =
      poke (zone_regs Zone.z1).mode mode_continuous
        (poke (zone_regs Zone.z2).mode mode_continuous (power_on 0).holding);
  coils = poke feed_conveyor_coil 1 (
      poke (zone_regs Zone.z1).direction 1
        (poke (zone_regs Zone.z2).direction 1 (power_on 0).coils));
}

-- Two parts wait, and one stands at each of the stations.
abbrev full_line : Sim
full_line = record {
  in_count = 2;
  occupied = record { at_in = false; at_f1 = true; at_o = true; at_f2 = true; at_out = false };
  outfed = 0;
  out_clear_at = none;
  accum = 200;
  in_transit = none;
}

full_line-IsCarried : IsCarried full_line
unfolding bound_for
full_line-IsCarried = record {
  inq = omega arith;
  f1 = omega arith;
  o = omega arith;
  f2 = omega arith;
}

belts_tick-IsConserved_example :
    IsConserved full_line (belts_tick pace clock 150 full_line downstream).0
belts_tick-IsConserved_example =
    belts_tick-IsConserved pace clock 150 full_line downstream full_line-IsCarried

-- The four parts that move leave their stations, and the next pass lands them when the gap has passed.
full_shift :
    ((belts_tick pace clock 150 full_line downstream).0.in_transit
      ≡ some (
        1123,
        (Station.out, Ride.on_z2)
            ∷ (Station.f2, Ride.on_z2)
            ∷ (Station.o, Ride.across)
            ∷ (Station.f1, Ride.on_z1)
            ∷ [],
      ))
    × ((belts_tick pace clock 150 full_line downstream).0.in_count ≡ 1)
unfolding belts_tick
full_shift = (refl, refl)
