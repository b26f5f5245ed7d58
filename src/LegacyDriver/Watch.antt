-- ===== src/LegacyDriver/Watch.antt =====
-- The feed and its watch, over the parts of a sensor-stopped move
-- (src/finishing_line/devices/legacy_clearcore.py: `_start_move`, `feed_tick`,
-- `move_idle`, `set_feed`).
use finishing_line.Common.{
  Bool, List, Option, [], ap, arith, false, if_elim, is_empty, length, ltb, none, refl, same, some,
  true, ℕ, ◌∷◌, ◌≡◌,
}
use finishing_line.LegacyDriver.{
  Driver, Edge, Kinematics, Try, Write, arm, cut_if_done, edge_seen, failed, feed_tick, fire,
  fire_move, mm_to_steps, move_continuous, move_idle, passed, put, set_feed, set_params, tick_with,
  watch_step, ◌>>=◌,
}
use finishing_line.LegacyDriver.Maneuver.{Chain, in_chain}
use finishing_line.Registers.{
  acceleration_reg, direction_coil, distance_reg, mode_continuous, mode_distance, motion_mode_reg,
  velocity_reg,
}

-- The device confirms every write, and the feed runs under a watch only, unless a move has a chain of
-- its own for it.
pub record IsSafe (feed : Bool) (d : Driver) : Type 0 where
  pub sure : (n : ℕ) → d.answers n ≡ true
  pub watched : feed ≡ false → d.feed_on ≡ true → is_empty d.feed_phases ≡ false

-- What holds of the state that a command leaves, whether it raises or not.
abbrev pub Always : (Driver → Type 0) → Try Driver → Type 0
Always P (failed d) = P d
Always P (passed d) = P d

abbrev pub Leaving : (Driver → Type 0) → Try Chain → Type 0
Leaving P (failed c) = P c.driver
Leaving P (passed c) = P c.driver

abbrev pub Looping : (Driver → Type 0) → Option (Try Chain) → Type 0
Looping P none = Unit {0}
Looping P (some r) = Leaving P r

pub Always-bind :
    (P : Driver → Type 0) (m : Try Driver) (f : Driver → Try Driver)
    → Always P m
    → ((d : Driver) → P d → Always P (f d))
    → Always P (m >>= f)
Always-bind P (failed d) f h k = h
Always-bind P (passed d) f h k = k d h

module _ (feed : Bool) where
  put-IsSafe : (w : Write) (d : Driver) → IsSafe feed d → Always (IsSafe feed) (put w d)
  put-IsSafe w d h =
      if_elim (Always (IsSafe feed)) (d.answers (length d.log))
        (λ _. record { sure = h.sure; watched = h.watched })
        (λ _. record { sure = h.sure; watched = h.watched })

  fire-IsSafe : (d : Driver) → IsSafe feed d → Always (IsSafe feed) (fire d)
  fire-IsSafe d h = put-IsSafe _ _ (record { sure = h.sure; watched = h.watched })

  arm-IsSafe :
      (steps : ℕ) (downstream : Bool) (d : Driver)
      → IsSafe feed d
      → Always (IsSafe feed) (arm steps downstream d)
  arm-IsSafe steps downstream d h =
      if_elim (Always (IsSafe feed)) (ltb 65535 steps) (λ _. h)
        (λ _.
          Always-bind (IsSafe feed) _ fire
            (Always-bind (IsSafe feed) _ (put (Write.reg distance_reg steps))
              (put-IsSafe (Write.coil direction_coil downstream) d h)
              (put-IsSafe (Write.reg distance_reg steps)))
            fire-IsSafe)

  set_params-IsSafe :
      (k : Kinematics) (d : Driver) → IsSafe feed d → Always (IsSafe feed) (set_params k d)
  unfolding set_params
  set_params-IsSafe k d h =
      Always-bind (IsSafe feed) _ _
        (Always-bind (IsSafe feed) _ _ (put-IsSafe (Write.reg velocity_reg k.velocity) d h)
          (put-IsSafe (Write.reg acceleration_reg k.acceleration)))
        (λ e x. record { sure = x.sure; watched = x.watched })

  pub fire_move-IsSafe :
      (k : Kinematics) (mm : ℕ) (downstream : Bool) (d : Driver)
      → IsSafe feed d
      → Always (IsSafe feed) (fire_move k mm downstream d)
  unfolding fire_move
  fire_move-IsSafe k mm downstream d h =
      Always-bind (IsSafe feed) _ _
        (Always-bind (IsSafe feed) _ _
          (if_elim (Always (IsSafe feed)) d.params_pushed (λ _. h) (λ _. set_params-IsSafe k d h))
          (put-IsSafe (Write.reg motion_mode_reg mode_distance)))
        (arm-IsSafe (mm_to_steps k mm) downstream)

  pub move_idle-IsSafe : (d : Driver) → IsSafe feed d → Always (IsSafe feed) (move_idle d)
  unfolding move_idle
  move_idle-IsSafe d h = put-IsSafe _ d h

  pub move_continuous-IsSafe :
      (downstream : Bool) (d : Driver)
      → IsSafe feed d
      → Always (IsSafe feed) (move_continuous downstream d)
  unfolding move_continuous
  move_continuous-IsSafe downstream d h =
      Always-bind (IsSafe feed) _ _ (put-IsSafe (Write.coil direction_coil downstream) d h)
        (put-IsSafe (Write.reg motion_mode_reg mode_continuous))

  -- The feed is cut: it does not run then, as the write is confirmed.
  pub set_feed-IsSafe :
      (d : Driver) → ((n : ℕ) → d.answers n ≡ true) → Always (IsSafe feed) (set_feed false d)
  unfolding set_feed
  set_feed-IsSafe d sure =
      rw (sure (length d.log)) (record { sure = sure; watched = λ _ on. absurd (ground arith) })

  cut_if_done-IsSafe :
      (e : Edge) (rest : List Edge) (d : Driver)
      → d.feed_phases ≡ rest
      → ((n : ℕ) → d.answers n ≡ true)
      → Always (IsSafe feed) (cut_if_done rest d)
  cut_if_done-IsSafe e [] d same sure = set_feed-IsSafe d sure
  cut_if_done-IsSafe e (x ∷ xs) d same sure = record {
    sure = sure;
    watched = λ _ _. ap is_empty same;
  }

  watch_step-IsSafe :
      (phases : List Edge) (seen : Bool) (d : Driver)
      → IsSafe feed d
      → Always (IsSafe feed) (watch_step phases seen d)
  watch_step-IsSafe [] seen d h = h
  watch_step-IsSafe (e ∷ rest) seen d h =
      if_elim (Always (IsSafe feed)) (edge_seen e seen)
        (λ _. cut_if_done-IsSafe e rest (record d { feed_phases = rest }) refl h.sure) (λ _. h)

  tick_with-IsSafe :
      (m : Option Bool) (d : Driver) → IsSafe feed d → Always (IsSafe feed) (tick_with m d)
  tick_with-IsSafe none d h = h
  tick_with-IsSafe (some seen) d h = watch_step-IsSafe d.feed_phases seen d h

  pub feed_tick-IsSafe :
      (m : Option Bool) (d : Driver) → IsSafe feed d → Always (IsSafe feed) (feed_tick m d)
  unfolding feed_tick
  feed_tick-IsSafe m d h =
      if_elim (Always (IsSafe feed)) (is_empty d.feed_phases) (λ _. h) (λ _. tick_with-IsSafe m d h)

  pub in_chain-IsSafe :
      (c : Chain) (m : Try Driver) → Always (IsSafe feed) m → Leaving (IsSafe feed) (in_chain c m)
  in_chain-IsSafe c (failed d) h = h
  in_chain-IsSafe c (passed d) h = h
