-- ===== src/Tests/States.antt =====
-- Two states of the simulated run, written out: the lead of the first pair gets coat 2 in the beat P3
-- after round 40, and leaves the line in the beat P4 after round 50.
use finishing_line.Common.{[], false, insert, lookup, none, refl, some, subst, true, ◌∷◌, ◌≡◌}
use finishing_line.Controller.{Controller, declare_batch, set_running, start_up}
use finishing_line.Discipline.Runs.{Reaches}
use finishing_line.Executor.{finish, take}
use finishing_line.Model.{Beat, FanState, PartRole, Phase, Product, ShutterState}
use finishing_line.Tests.Line.{drive, drive-Reaches, started, started-Reaches, supervisor}

-- Before the spray of coat 2, and before the motion that takes the part out.
abbrev pub spraying : Controller
spraying = record {
  sup = record {
    executor = record { queue = []; running = none; done = 33 ∷ 32 ∷ []; fault = none };
    cfg = record {
      flash_seconds = 60;
      coats = 2;
      spray_burst_pause_s = 5;
      transfer_s = 20;
      robot_coat1_s = 90;
      robot_coat2_s = 45;
      clean_gun_enabled = true;
      clean_gun_duration_s = 10;
      provenance = [];
    };
    state = record {
      parts =
          (
            "a",
            record {
              part_id = "a";
              product = Product.cube;
              role = PartRole.lead;
              pair_index = 0;
              coats_applied = 1;
              flash_1_s = 500;
              flash_2_s = 0;
              is_wet = false;
            },
          )
          ∷ (
            "b",
            record {
              part_id = "b";
              product = Product.cube;
              role = PartRole.trail;
              pair_index = 0;
              coats_applied = 1;
              flash_1_s = 0;
              flash_2_s = 0;
              is_wet = true;
            },
          )
          ∷ [];
      occupancy = record {
        at_in = none;
        at_f1 = some "b";
        at_o = some "a";
        at_f2 = none;
        at_out = none;
      };
      in_queue = [];
      pending = 32 ∷ 33 ∷ [];
      in_flight = [];
      beat = Beat.p3;
      pair_index = 1;
      phase = Phase.robot_work;
      f1_fan = FanState.on;
      f2_fan = FanState.off;
      shutter = ShutterState.closed;
      spray_burst_active = false;
      fault = none;
      fault_phase = none;
    };
    next_id = 34;
  };
  enabled = true;
  blocked_by = none;
  declared = 2;
}

abbrev pub leaving : Controller
leaving = record {
  sup = record {
    executor = record { queue = []; running = none; done = 45 ∷ []; fault = none };
    cfg = record {
      flash_seconds = 60;
      coats = 2;
      spray_burst_pause_s = 5;
      transfer_s = 20;
      robot_coat1_s = 90;
      robot_coat2_s = 45;
      clean_gun_enabled = true;
      clean_gun_duration_s = 10;
      provenance = [];
    };
    state = record {
      parts =
          (
            "a",
            record {
              part_id = "a";
              product = Product.cube;
              role = PartRole.lead;
              pair_index = 0;
              coats_applied = 2;
              flash_1_s = 500;
              flash_2_s = 300;
              is_wet = false;
            },
          )
          ∷ (
            "b",
            record {
              part_id = "b";
              product = Product.cube;
              role = PartRole.trail;
              pair_index = 0;
              coats_applied = 2;
              flash_1_s = 500;
              flash_2_s = 0;
              is_wet = true;
            },
          )
          ∷ [];
      occupancy = record {
        at_in = none;
        at_f1 = none;
        at_o = some "b";
        at_f2 = some "a";
        at_out = none;
      };
      in_queue = [];
      pending = 45 ∷ [];
      in_flight = [];
      beat = Beat.p4;
      pair_index = 1;
      phase = Phase.moving;
      f1_fan = FanState.off;
      f2_fan = FanState.on;
      shutter = ShutterState.closed;
      spray_burst_active = false;
      fault = none;
      fault_phase = none;
    };
    next_id = 46;
  };
  enabled = true;
  blocked_by = none;
  declared = 2;
}

drive-spraying : drive 40 started ≡ spraying
unfolding drive start_up declare_batch set_running lookup insert finish take
drive-spraying = refl

drive-leaving : drive 50 started ≡ leaving
unfolding drive start_up declare_batch set_running lookup insert finish take
drive-leaving = refl

pub spraying-Reaches : Reaches (start_up supervisor none) spraying
spraying-Reaches =
    subst (Reaches (start_up supervisor none)) drive-spraying
      (drive-Reaches 40 (start_up supervisor none) started started-Reaches)

pub leaving-Reaches : Reaches (start_up supervisor none) leaving
leaving-Reaches =
    subst (Reaches (start_up supervisor none)) drive-leaving
      (drive-Reaches 50 (start_up supervisor none) started started-Reaches)
