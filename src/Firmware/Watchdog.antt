-- ===== src/Firmware/Watchdog.antt =====
-- The firmware's watchdog (src/finishing_line/sim/fake_clearcore.py: `_tick`).
use finishing_line.Common.{ap, arith, false, none, refl, some, true, ℕ, ◌-◌, ◌<◌, ◌==◌, ◌∙◌, ◌≡◌}
use finishing_line.Firmware.{
  check_watchdog, drive_fans, drive_shutter, drive_zones, echo_commands, loop_tick, tripped,
  zones_by,
}
use finishing_line.Firmware.Types.{Firmware, Table, Timing, poke}
use finishing_line.Firmware.Zones.{stopped_zone, zone_tick}
use finishing_line.Model.{Station, Zone}
use finishing_line.Registers.{fan_fb, heartbeat_reg, sh_fb, state_ready, watchdog_reg, zone_regs}

-- The belts are stopped, and both fans run.
pub record IsHalted (f : Firmware) : Type 0 where
  pub flag : f.input_regs watchdog_reg ≡ 1
  pub f1_runs : f.input_regs (fan_fb Station.f1) ≡ 1
  pub f2_runs : f.input_regs (fan_fb Station.f2) ≡ 1
  pub z1_ready : f.input_regs (zone_regs Zone.z1).state ≡ state_ready
  pub z2_ready : f.input_regs (zone_regs Zone.z2).state ≡ state_ready
  pub z1_still : (f.zone_1.move_done_at ≡ none) × (f.zone_1.edge_watch ≡ none)
  pub z2_still : (f.zone_2.move_done_at ≡ none) × (f.zone_2.edge_watch ≡ none)

abbrev halted_regs : Table → Table
halted_regs inputs =
    poke (zone_regs Zone.z2).state state_ready (poke (zone_regs Zone.z1).state state_ready inputs)

drive_zones-halted :
    (timing : Timing) (now : ℕ) (f : Firmware)
    → tripped f ≡ true
    → drive_zones timing now f
      ≡ some (record f {
        zone_1 = stopped_zone f.zone_1;
        zone_2 = stopped_zone f.zone_2;
        input_regs = halted_regs f.input_regs;
      })
unfolding drive_zones zone_tick
drive_zones-halted timing now f t = ap (λ b. zones_by b timing now f) t

-- A stage of a pass that leaves the flag, the fans' feedback and the blocks alone.
drive_shutter-other :
    (timing : Timing) (now : ℕ) (f : Firmware) (a : ℕ)
    → (a == sh_fb) ≡ false
    → (drive_shutter timing now f).input_regs a ≡ f.input_regs a
unfolding drive_shutter
drive_shutter-other timing now f a other = ground arith

flag_up :
    (timing : Timing) (now : ℕ) (f : Firmware)
    → f.watchdog_armed ≡ true
    → f.holding heartbeat_reg ≡ f.last_heartbeat
    → timing.watchdog_timeout < now - f.heartbeat_seen_at
    → (check_watchdog timing now (echo_commands f)).input_regs watchdog_reg ≡ 1
unfolding check_watchdog echo_commands
flag_up timing now f armed same_beat stale = ground arith

tripped-up : (f : Firmware) → f.input_regs watchdog_reg ≡ 1 → tripped f ≡ true
tripped-up f h = rw h refl

-- When the heartbeat has been seen once and has not changed for longer than the timeout, a pass of
-- the loop halts the line: the flag is up, both zones are ready with no motion left, and both fans
-- run, whatever their commands say.
pub loop_tick-IsHalted :
    (timing : Timing) (now : ℕ) (f : Firmware)
    → f.watchdog_armed ≡ true
    → f.holding heartbeat_reg ≡ f.last_heartbeat
    → timing.watchdog_timeout < now - f.heartbeat_seen_at
    → (g : Firmware) × (loop_tick timing now f ≡ some g) × IsHalted g
unfolding loop_tick check_watchdog drive_fans echo_commands
loop_tick-IsHalted timing now f armed same_beat stale =
    let a = echo_commands f in
    let b = check_watchdog timing now a in
    let c = drive_shutter timing now (drive_fans b) in
    let up : b.input_regs watchdog_reg ≡ 1 = flag_up timing now f armed same_beat stale in
    let same_c =
      λ (r : ℕ) (h : (r == sh_fb) ≡ false). drive_shutter-other timing now (drive_fans b) r h in
    let still_up : c.input_regs watchdog_reg ≡ 1 = same_c watchdog_reg refl ∙ up in
    (
      _,
      drive_zones-halted timing now c (tripped-up c still_up),
      record {
        flag = still_up;
        f1_runs = same_c (fan_fb Station.f1) refl ∙ (rw up refl);
        f2_runs = same_c (fan_fb Station.f2) refl ∙ (rw up refl);
        z1_ready = refl;
        z2_ready = refl;
        z1_still = (refl, refl);
        z2_still = (refl, refl);
      },
    )
