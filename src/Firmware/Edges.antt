-- ===== src/Firmware/Edges.antt =====
-- The motion to a sensor's edge (src/finishing_line/sim/fake_clearcore.py: `_tick`).
use finishing_line.Common.{
  Bool, Bool-cases, List, Option, [], arith, false, if◌then◌else◌, if_elim, inl, inr, none, not,
  refl, same, some, true, ℕ, ◌&&◌, ◌||◌, ◌∷◌, ◌≡◌,
}
use finishing_line.Firmware.Types.{EdgeWatch, Table, Timing, ZoneBlock, level, poke}
use finishing_line.Firmware.Zones.{stopped_zone, zone_tick, sensor_stop_tick, watch_edge}
use finishing_line.Model.{Zone}
use finishing_line.Registers.{mode_sensor_stop, state_moving, state_ready, zone_regs}

-- What a pass of the loop finds: the time, whether the watchdog has tripped, and the sensors.
pub record Look : Type 0 where
  pub now : ℕ
  pub tripped : Bool
  pub discrete : Table

-- From the level `last` on, a look sees the wanted edge of a sensor, a change to the wanted level, or
-- finds the watchdog tripped.
abbrev pub has_stop : ℕ → Bool → Bool → List Look → Bool
has_stop sensor want last [] = false
has_stop sensor want last (look ∷ looks) =
    let seen = level look.discrete sensor in
    look.tripped || not (same seen last) && same seen want || has_stop sensor want seen looks

-- Passes of the loop over a zone while nothing is written.
abbrev pub next_pass :
    Zone → Timing → Table → Look → Option (ZoneBlock × Table) → Option (ZoneBlock × Table)
next_pass zone timing holding look none = none
next_pass zone timing holding look (some (z, inputs)) =
    zone_tick zone timing look.now look.tripped holding look.discrete inputs z

unfoldable pub passes_over :
    Zone → Timing → Table → List Look → Option (ZoneBlock × Table) → Option (ZoneBlock × Table)
unfolding zone_tick
passes_over zone timing holding [] m = m
passes_over zone timing holding (look ∷ more) m =
    passes_over zone timing holding more (next_pass zone timing holding look m)

abbrev pub StateIs : Zone → ℕ → Option (ZoneBlock × Table) → Type 0
StateIs zone v none = ⊥
StateIs zone v (some (z, inputs)) = inputs (zone_regs zone).state ≡ v

pub poke-same : (a v : ℕ) (table : Table) → poke a v table a ≡ v
poke-same a v table = ground arith

-- With no new request, a pass looks at the sensor.
pub sensor_stop_tick-watch :
    (zone : Zone) (holding discrete inputs : Table) (z : ZoneBlock) (watch : Option EdgeWatch)
    → holding (zone_regs zone).reqid ≡ z.last_reqid
    → z.edge_watch ≡ watch
    → sensor_stop_tick zone holding discrete inputs z
      ≡ some (watch_edge zone watch discrete inputs z)
unfolding sensor_stop_tick
sensor_stop_tick-watch zone holding discrete inputs z watch same_id e = ground arith

abbrev stopped : Zone → ZoneBlock → Table → ZoneBlock × Table
stopped zone z inputs = (stopped_zone z, poke (zone_regs zone).state state_ready inputs)

-- A pass in the mode of a motion to an edge, with no new request.
zone_tick-watch :
    (zone : Zone) (timing : Timing) (holding : Table) (look : Look) (z : ZoneBlock) (inputs : Table)
    (watch : Option EdgeWatch)
    → holding (zone_regs zone).mode ≡ mode_sensor_stop
    → holding (zone_regs zone).reqid ≡ z.last_reqid
    → z.edge_watch ≡ watch
    → next_pass zone timing holding look (some (z, inputs))
      ≡ some (
          if look.tripped
          then stopped zone z inputs
          else watch_edge zone watch look.discrete inputs z)
unfolding zone_tick
zone_tick-watch zone timing holding look z inputs watch mode same_id e =
    let watching = sensor_stop_tick-watch zone holding look.discrete inputs z watch same_id e in
    rw mode (
      if_elim
        (λ m.
          m
          ≡ some (
              if look.tripped
              then stopped zone z inputs
              else watch_edge zone watch look.discrete inputs z))
        look.tripped (λ trip. rw trip refl) (λ live. rw live watching))

-- What a look at the sensor does: the edge ends the motion; without it the watch goes on.
watch_edge-seen :
    (zone : Zone) (w : EdgeWatch) (discrete inputs : Table) (z : ZoneBlock)
    → (not (same (level discrete w.sensor) w.last_seen)
        && same (level discrete w.sensor) w.want_rising)
      ≡ true
    → watch_edge zone (some w) discrete inputs z
      ≡ (record z { edge_watch = none }, poke (zone_regs zone).state state_ready inputs)
unfolding watch_edge
watch_edge-seen zone w discrete inputs z e = rw e refl

watch_edge-unseen :
    (zone : Zone) (w : EdgeWatch) (discrete inputs : Table) (z : ZoneBlock)
    → (not (same (level discrete w.sensor) w.last_seen)
        && same (level discrete w.sensor) w.want_rising)
      ≡ false
    → watch_edge zone (some w) discrete inputs z
      ≡ (record z { edge_watch = some (record w { last_seen = level discrete w.sensor }) }, inputs)
unfolding watch_edge
watch_edge-unseen zone w discrete inputs z e = rw e refl

-- With no new request, nothing more happens once a motion is over.
module _ (zone : Zone) (timing : Timing) (holding : Table) where
  over-StateIs :
      (looks : List Look) (z : ZoneBlock) (inputs : Table)
      → holding (zone_regs zone).mode ≡ mode_sensor_stop
      → holding (zone_regs zone).reqid ≡ z.last_reqid
      → z.edge_watch ≡ none
      → inputs (zone_regs zone).state ≡ state_ready
      → StateIs zone state_ready (passes_over zone timing holding looks (some (z, inputs)))
  unfolding passes_over
  over-StateIs [] z inputs mode same_id over e = e
  over-StateIs (look ∷ more) z inputs mode same_id over e =
      let next = zone_tick-watch zone timing holding look z inputs none mode same_id over in
      let halted =
        over-StateIs more (stopped_zone z) (poke (zone_regs zone).state state_ready inputs) mode
          same_id refl (poke-same (zone_regs zone).state state_ready inputs) in
      rw next (
        if_elim
          (λ (m : ZoneBlock × Table).
            StateIs zone state_ready (passes_over zone timing holding more (some m)))
          look.tripped (λ trip. halted)
          (λ live. unfold watch_edge in over-StateIs more z inputs mode same_id over e))

  -- A motion to a sensor's edge, once it has begun, is over exactly when the sensor has shown the
  -- wanted edge since, or the watchdog has tripped: a level that is there from the start does not stop
  -- it.
  pub watching-StateIs :
      (looks : List Look) (z : ZoneBlock) (inputs : Table) (w : EdgeWatch)
      → holding (zone_regs zone).mode ≡ mode_sensor_stop
      → holding (zone_regs zone).reqid ≡ z.last_reqid
      → z.edge_watch ≡ some w
      → inputs (zone_regs zone).state ≡ state_moving
      → StateIs zone
          (if has_stop w.sensor w.want_rising w.last_seen looks then state_ready else state_moving)
          (passes_over zone timing holding looks (some (z, inputs)))
  unfolding passes_over
  watching-StateIs [] z inputs w mode same_id armed e = e
  watching-StateIs (look ∷ more) z inputs w mode same_id armed e =
      let next = zone_tick-watch zone timing holding look z inputs (some w) mode same_id armed in
      let over =
        λ (y : ZoneBlock) (same : holding (zone_regs zone).reqid ≡ y.last_reqid)
            (none_left : y.edge_watch ≡ none).
          over-StateIs more y (poke (zone_regs zone).state state_ready inputs) mode same none_left
            (poke-same (zone_regs zone).state state_ready inputs) in
      elim (Bool-cases look.tripped) [
        | inl trip ↦ rw (next, trip) (over (stopped_zone z) same_id refl)
        | inr live ↦
            rw (next, live)
              (elim (Bool-cases (
                not (same (level look.discrete w.sensor) w.last_seen)
                && same (level look.discrete w.sensor) w.want_rising)) [
                  | inl seen ↦
                      rw (watch_edge-seen zone w look.discrete inputs z seen, seen)
                        (over (record z { edge_watch = none }) same_id refl)
                  | inr unseen ↦
                      rw (watch_edge-unseen zone w look.discrete inputs z unseen, unseen)
                        (watching-StateIs more _ inputs
                          (record w { last_seen = level look.discrete w.sensor }) mode same_id refl
                          e)
                ])
      ]
