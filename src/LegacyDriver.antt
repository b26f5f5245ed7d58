-- ===== src/LegacyDriver.antt =====
-- src/finishing_line/devices/legacy_clearcore.py: the driver of the unmodified legacy firmware. This
-- file has its state and its commands; lengths are whole units, and the sign of one is a direction.
pub mod Maneuver
pub mod Transition
pub mod Nudge
pub mod Watch
pub mod Loops
pub mod Secure
pub mod Ids
use finishing_line.Common.{
  Bool, List, Option, [], false, if◌then◌else◌, is_empty, length, ltb, none, not, some, true, ℕ,
  ◌%◌, ◌*◌, ◌+◌, ◌/◌, ◌∷◌,
}
use finishing_line.Registers.{
  acceleration_reg, brush_on_coil, direction_coil, distance_reg, feed_conveyor_coil,
  mode_continuous, mode_distance, mode_idle, motion_mode_reg, request_id_reg, velocity_reg,
}

pub record Kinematics : Type 0 where
  pub steps_per : ℕ
  pub per_units : ℕ
  pub velocity : ℕ
  pub acceleration : ℕ

-- `mm_to_steps` of src/finishing_line/config/loader.py
abbrev pub mm_to_steps : Kinematics → ℕ → ℕ
mm_to_steps k mm = mm * k.steps_per / k.per_units

-- What the driver writes: a register, which is waited for at its echo, or a coil.
pub data Write : Type 0 where
  reg : (address value : ℕ) → Write
  coil : (address : ℕ) → Bool → Write

-- The edges that a watch waits for at a sensor.
pub data Edge : Type 0 where
  hi lo : Edge

abbrev pub edge_seen : Edge → Bool → Bool
edge_seen Edge.hi seen = seen
edge_seen Edge.lo seen = not seen

-- `log` has the writes so far, the last one first; `answers n` says whether write number `n` is
-- confirmed, by the device and, for a register, by its echo in time.
pub record Driver : Type 0 where
  pub answers : ℕ → Bool
  pub log : List Write
  pub request_id : ℕ
  pub params_pushed : Bool
  pub feed_on : Bool
  pub brush_on : Bool
  pub feed_phases : List Edge

-- A command that ran through, or one that raised, and the state that it left.
pub data Try (A : Type 0) : Type 0 where
  failed passed : A → Try A

infixl 5 ◌>>=◌
abbrev pub ◌>>=◌ : {A : Type 0} → Try A → (A → Try A) → Try A
failed a >>= f = failed a
passed a >>= f = f a

abbrev pub put : Write → Driver → Try Driver
put w d =
    let e = record d { log = w ∷ d.log } in if d.answers (length d.log) then passed e else failed e

-- `connect`: the id of the last request that the firmware echoes; `none` is a connection or a read
-- that fails.
abbrev pub connect : Option ℕ → Driver → Try Driver
connect none d = failed d
connect (some echoed) d = passed (record d { request_id = echoed })

-- `set_params`
unfoldable pub set_params : Kinematics → Driver → Try Driver
set_params k d =
    put (Write.reg velocity_reg k.velocity) d
    >>= put (Write.reg acceleration_reg k.acceleration)
    >>= (λ (e : Driver). passed (record e { params_pushed = true }))

-- `_start_move`: the distance must fit its register, and the id changes.
abbrev pub next_request : ℕ → ℕ
next_request request_id = request_id % 65000 + 1

abbrev pub fire : Driver → Try Driver
fire d =
    put (Write.reg request_id_reg (next_request d.request_id))
      (record d { request_id = next_request d.request_id })

abbrev pub arm : ℕ → Bool → Driver → Try Driver
arm steps downstream d =
    if ltb 65535 steps
    then failed d
    else put (Write.coil direction_coil downstream) d
      >>= put (Write.reg distance_reg steps)
      >>= fire

unfoldable pub fire_move : Kinematics → ℕ → Bool → Driver → Try Driver
unfolding set_params
fire_move k mm downstream d =
    (if d.params_pushed then passed d else set_params k d)
    >>= put (Write.reg motion_mode_reg mode_distance)
    >>= arm (mm_to_steps k mm) downstream

unfoldable pub move_idle : Driver → Try Driver
move_idle d = put (Write.reg motion_mode_reg mode_idle) d

unfoldable pub move_continuous : Bool → Driver → Try Driver
move_continuous downstream d =
    put (Write.coil direction_coil downstream) d >>= put (Write.reg motion_mode_reg mode_continuous)

unfoldable pub set_feed : Bool → Driver → Try Driver
set_feed on d =
    put (Write.coil feed_conveyor_coil on) d
    >>= (λ (e : Driver). passed (record e { feed_on = on }))

unfoldable pub set_brush : Bool → Driver → Try Driver
set_brush on d =
    put (Write.coil brush_on_coil on) d >>= (λ (e : Driver). passed (record e { brush_on = on }))

-- `feed_stop`: the watch is cancelled first.
unfoldable pub feed_stop : Driver → Try Driver
unfolding set_feed
feed_stop d = set_feed false (record d { feed_phases = [] })

-- The texts of `feed_state`.
pub data FeedState : Type 0 where
  hunting suspended_feed feeding stopped_feed : FeedState

unfoldable pub feed_state : Driver → FeedState
feed_state d =
    if is_empty d.feed_phases
    then (if d.feed_on then FeedState.feeding else FeedState.stopped_feed)
    else (if d.feed_on then FeedState.hunting else FeedState.suspended_feed)

-- `feed_tick`: one poll of the watch at the junction's eye. `none` is a read that raises.
abbrev pub cut_if_done : List Edge → Driver → Try Driver
cut_if_done [] d = set_feed false d
cut_if_done (_ ∷ _) d = passed d

abbrev pub watch_step : List Edge → Bool → Driver → Try Driver
watch_step [] seen d = passed d
watch_step (e ∷ rest) seen d =
    if edge_seen e seen then cut_if_done rest (record d { feed_phases = rest }) else passed d

abbrev pub tick_with : Option Bool → Driver → Try Driver
tick_with none d = failed d
tick_with (some seen) d = watch_step d.feed_phases seen d

unfoldable pub feed_tick : Option Bool → Driver → Try Driver
unfolding set_feed
feed_tick onload d = if is_empty d.feed_phases then passed d else tick_with onload d
