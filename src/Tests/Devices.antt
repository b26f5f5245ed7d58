-- ===== src/Tests/Devices.antt =====
-- The drivers and the firmware, at concrete registers.
use finishing_line.ClearCore.{Client, request_until}
use finishing_line.ClearCore.Handshake.{log_of, over_passes, until-StateIs}
use finishing_line.Common.{Bool, List, [], arith, false, none, refl, some, true, ℕ, ◌==◌, ◌∷◌, ◌≡◌}
use finishing_line.Firmware.{Firmware, Table, Timing, loop_tick, poke, power_on, still, zeroes}
use finishing_line.Model.{ShutterState}
use finishing_line.Firmware.Edges.{Look, StateIs}
use finishing_line.Firmware.Protocol.{handle_pdu, write-read}
use finishing_line.Firmware.Watchdog.{IsHalted, loop_tick-IsHalted}
use finishing_line.LegacyDriver.{Driver, Edge, Kinematics, fire_move}
use finishing_line.LegacyDriver.Ids.{IsFired, OnPass, fire_move-IsFired}
use finishing_line.LegacyDriver.Maneuver.{Plan, Poll}
use finishing_line.LegacyDriver.Secure.{transition_move-IsSafe}
use finishing_line.LegacyDriver.Transition.{transition_move}
use finishing_line.LegacyDriver.Watch.{IsSafe, Looping}
use finishing_line.Model.{Zone}
use finishing_line.Registers.{heartbeat_reg, o_eye_in, state_ready}
use finishing_line.Train.{SensorTarget}

abbrev kinematics : Kinematics
kinematics = record { steps_per = 30; per_units = 1; velocity = 1600; acceleration = 16000 }

-- Every write is confirmed, and the feed hunts for the next part.
abbrev hunting : Driver
hunting = record {
  answers = λ (n : ℕ). true;
  log = [];
  request_id = 65000;
  params_pushed = true;
  feed_on = true;
  brush_on = false;
  feed_phases = Edge.lo ∷ Edge.hi ∷ [];
}

fire_move-IsFired_example :
    OnPass (IsFired kinematics 750 true 65000) (fire_move kinematics 750 true hunting)
fire_move-IsFired_example = fire_move-IsFired kinematics 750 true hunting

abbrev entry : Plan
entry = record {
  mm = 750;
  downstream = true;
  stop_on_work_zero = true;
  stop_on_staging = false;
  o_occupied = false;
  pass_through = false;
  feed = false;
  continuous = false;
  overshoot = 400;
  reapproach_cap = 60;
}

-- The part arrives in the second poll, and the belt is idle in the third.
abbrev poll_of : Bool → Bool → Poll
poll_of seen ready = record {
  late = false;
  work_zero = some seen;
  at_staging = some false;
  at_onload = some false;
  ready = some ready;
}

abbrev polls : List Poll
polls = poll_of false false ∷ poll_of true false ∷ poll_of true true ∷ []

hunting-IsSafe : IsSafe false hunting
hunting-IsSafe = record { sure = λ n. refl; watched = λ _ _. refl }

transition_move-IsSafe_example :
    Looping (IsSafe false) (transition_move kinematics entry none polls [] hunting)
transition_move-IsSafe_example =
    transition_move-IsSafe kinematics entry none polls [] hunting hunting-IsSafe

abbrev timing : Timing
timing = record {
  second = 1000;
  watchdog_timeout = 2000;
  shutter_actuation = 250;
  default_velocity = 1600;
}

abbrev lit : Table
lit = poke o_eye_in 1 zeroes

abbrev look_at : Table → Look
look_at discrete = record { now = 1000; tripped = false; discrete = discrete }

abbrev new_client : Client
new_client = record {
  answers = λ n. true;
  log = [];
  request_id = 0;
  heartbeat_count = 0;
  stub_shutter = false;
  stub_state = ShutterState.opened;
}

-- The eye at O is lit at first, goes dark and is lit again; a pass comes between two of the writes.
until-StateIs_example :
    StateIs Zone.z1 state_ready
      (over_passes Zone.z1 timing
        (log_of (request_until Zone.z1 true SensorTarget.o_seen false [] new_client))
        ((look_at lit ∷ look_at zeroes ∷ look_at lit ∷ []) ∷ [] ∷ (look_at lit ∷ []) ∷ [] ∷ [])
        zeroes
        (some (still, zeroes))).1
until-StateIs_example =
    until-StateIs Zone.z1 timing true SensorTarget.o_seen false [] new_client zeroes still zeroes []
      (look_at lit ∷ []) [] (look_at lit) (look_at zeroes ∷ look_at lit ∷ []) (λ n. refl) refl refl
      refl refl refl

-- The heartbeat 7 was seen at the time 100, and no other since.
abbrev silent : Firmware
silent = record (power_on 0) {
  holding = poke heartbeat_reg 7 (power_on 0).holding;
  last_heartbeat = 7;
  heartbeat_seen_at = 100;
  watchdog_armed = true;
}

loop_tick-IsHalted_example : (g : Firmware) × (loop_tick timing 3000 silent ≡ some g) × IsHalted g
loop_tick-IsHalted_example = loop_tick-IsHalted timing 3000 silent refl refl (omega arith)

write-read_example :
    (g : Firmware) × (handle_pdu (6 ∷ 1 ∷ 74 ∷ 1 ∷ 44 ∷ []) (power_on 0)
      ≡ (g, some (6 ∷ 1 ∷ 74 ∷ 1 ∷ 44 ∷ [])))
    × (handle_pdu (3 ∷ 1 ∷ 74 ∷ 0 ∷ 1 ∷ []) g ≡ (g, some (3 ∷ 2 ∷ 1 ∷ 44 ∷ [])))
    × ((other : ℕ) → (330 == other) ≡ false → g.holding other ≡ (power_on 0).holding other)
write-read_example = write-read 330 300 (power_on 0) (omega arith) (omega arith)
