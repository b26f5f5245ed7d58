-- ===== src/Tests/Line.antt =====
-- A simulated run of the line: sensors that see what the train does, and a worker that is done with
-- every intent before the next pass.
use finishing_line.Common.{
  List, Option, [], false, if◌then◌else◌, is_some, none, refl, some, suc, true, zero, ℕ, ◌∷◌, ◌≡◌,
}
use finishing_line.Config.{ProcessConfig}
use finishing_line.Controller.{Controller, declare_batch, loop_pass, set_running, start_up}
use finishing_line.Discipline.Runs.{Happens, Reaches}
use finishing_line.Executor.{Command, Devices, Executor, finish, take}
use finishing_line.Guards.{is_on}
use finishing_line.Machine.{apply_moves, is_moving}
use finishing_line.Model.{LineState, Product, ShutterState, new_line}
use finishing_line.Supervisor.{ClearCoreInputs, Readings, Supervisor}

abbrev pub config : ProcessConfig
config = record {
  flash_seconds = 60;
  coats = 2;
  spray_burst_pause_s = 5;
  transfer_s = 20;
  robot_coat1_s = 90;
  robot_coat2_s = 45;
  clean_gun_enabled = true;
  clean_gun_duration_s = 10;
  provenance = [];
}

abbrev pub idle_executor : Executor
idle_executor = record { queue = []; running = none; done = []; fault = none }

abbrev pub supervisor : Supervisor
supervisor = record { executor = idle_executor; cfg = config; state = new_line; next_id = 0 }

-- The eyes see the parts where the moves under way bring them.
abbrev pub clear_core : LineState → ClearCoreInputs
clear_core s =
    let t = (apply_moves s s.in_flight).occupancy in
    record {
      f1_eye = is_some t.at_f1;
      o_eye = is_some t.at_o;
      f2_eye = is_some t.at_f2;
      z1_eye = false;
      z2_eye = false;
      in_eye = true;
      out_eye = false;
      in_count = 0;
      shutter = if is_moving s.phase then ShutterState.opened else ShutterState.closed;
      f1_fan_on = is_on s.f1_fan;
      f2_fan_on = is_on s.f2_fan;
      watchdog_tripped = false;
    }

abbrev pub readings : Controller → Readings
readings c = record { cc = clear_core c.sup.state; robot_clear = true; gun_on = false }

abbrev pub passed : Option (Controller × List Command) → Controller → Controller
passed none c = c
passed (some (d, commands)) c = d

-- Every device call returns.
abbrev pub all_well : Devices
all_well command = none

abbrev pub taking : Controller → Controller
taking c = record c { sup = record (c.sup) { executor = take c.sup.executor } }

abbrev pub finishing : Controller → Controller
finishing c = record c { sup = record (c.sup) { executor = (finish all_well c.sup.executor).0 } }

abbrev pub worked : Controller → Controller
worked c = finishing (taking c)

-- A pass of the loop, and the worker's rounds after it.
unfoldable pub round : Controller → Controller
unfolding loop_pass
round c = worked (worked (worked (worked (worked (passed (loop_pass c (readings c) 100) c)))))

unfoldable pub drive : ℕ → Controller → Controller
unfolding round
drive zero c = c
drive (suc n) c = drive n (round c)

abbrev pub started : Controller
started =
    set_running true (declare_batch Product.cube ("a" ∷ "b" ∷ []) (start_up supervisor none)).0

passed-Reaches :
    (b c : Controller) (m : Option (Controller × List Command))
    → loop_pass c (readings c) 100 ≡ m
    → Reaches b c
    → Reaches b (passed m c)
passed-Reaches b c none e run = run
passed-Reaches b c (some (d, commands)) e run =
    Reaches.and_then run (Happens.passes (readings c) 100 commands e)

worked-Reaches : (b c : Controller) → Reaches b c → Reaches b (worked c)
worked-Reaches b c run =
    Reaches.and_then (Reaches.and_then run Happens.takes) (Happens.finishes all_well)

pub drive-Reaches : (n : ℕ) (b c : Controller) → Reaches b c → Reaches b (drive n c)
unfolding drive round
drive-Reaches zero b c run = run
drive-Reaches (suc n) b c run =
    let p0 = passed (loop_pass c (readings c) 100) c in
    let p1 = worked p0 in
    let p2 = worked p1 in
    let p3 = worked p2 in
    let p4 = worked p3 in
    drive-Reaches n b (worked p4) (
      worked-Reaches b p4 (
        worked-Reaches b p3 (
          worked-Reaches b p2 (
            worked-Reaches b p1
              (worked-Reaches b p0 (passed-Reaches b c (loop_pass c (readings c) 100) refl run))))))

pub started-Reaches : Reaches (start_up supervisor none) started
started-Reaches =
    Reaches.and_then
      (Reaches.and_then Reaches.not_yet
        (Happens.declares Product.cube ("a" ∷ "b" ∷ []) (refl, refl, (refl, refl, tt))))
      (Happens.switches true)
