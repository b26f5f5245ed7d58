-- ===== src/LegacyDriver/Ids.antt =====
-- The request ids and the distances of the legacy driver
-- (src/finishing_line/devices/legacy_clearcore.py: `_start_move`).
use finishing_line.Common.{
  Bool, List, ap, arith, if_elim, length, ltb, refl, sym, ℕ, ◌∙◌, ◌∷◌, ◌≡◌, ◌≢◌, ◌≤◌,
}
use finishing_line.LegacyDriver.{
  Driver, Kinematics, Try, Write, arm, failed, fire, fire_move, mm_to_steps, next_request, passed,
  put, set_params, ◌>>=◌,
}
use finishing_line.Registers.{
  acceleration_reg, direction_coil, distance_reg, mode_distance, motion_mode_reg, request_id_reg,
  velocity_reg,
}

-- What holds of the state that a command leaves, if it runs through.
abbrev pub OnPass : (Driver → Type 0) → Try Driver → Type 0
OnPass P (failed d) = Unit {0}
OnPass P (passed d) = P d

OnPass-bind :
    (P Q : Driver → Type 0) (m : Try Driver) (f : Driver → Try Driver)
    → OnPass P m
    → ((d : Driver) → P d → OnPass Q (f d))
    → OnPass Q (m >>= f)
OnPass-bind P Q (failed d) f h k = tt
OnPass-bind P Q (passed d) f h k = k d h

next_request-fresh : (n : ℕ) → next_request n ≢ n
next_request-fresh n = λ h. omega (arith, h)

-- A move's id is one of 1 to 65000, and never the id before it.
pub record IsFired (k : Kinematics) (mm : ℕ) (downstream : Bool) (old : ℕ) (d : Driver)
    : Type 0 where
  pub fits : mm_to_steps k mm ≤ 65535
  pub fresh_id : d.request_id ≢ old
  pub id_low : 1 ≤ d.request_id
  pub id_high : d.request_id ≤ 65000
  pub before : List Write
  pub wrote :
      d.log
      ≡ Write.reg request_id_reg d.request_id
        ∷ Write.reg distance_reg (mm_to_steps k mm)
        ∷ Write.coil direction_coil downstream
        ∷ before

abbrev HasId : ℕ → Driver → Type 0
HasId old d = d.request_id ≡ old

put-HasId : (old : ℕ) (w : Write) (d : Driver) → HasId old d → OnPass (HasId old) (put w d)
put-HasId old w d h = if_elim (OnPass (HasId old)) (d.answers (length d.log)) (λ _. h) (λ _. tt)

set_params-HasId :
    (old : ℕ) (k : Kinematics) (d : Driver) → HasId old d → OnPass (HasId old) (set_params k d)
unfolding set_params
set_params-HasId old k d h =
    OnPass-bind (HasId old) (HasId old) _ _
      (OnPass-bind (HasId old) (HasId old) _ _
        (put-HasId old (Write.reg velocity_reg k.velocity) d h)
        (put-HasId old (Write.reg acceleration_reg k.acceleration)))
      (λ e x. x)

module _ (k : Kinematics) (mm : ℕ) (downstream : Bool) (old : ℕ) where
  abbrev distance : Write
  distance = Write.reg distance_reg (mm_to_steps k mm)

  abbrev IsArmed : Driver → Type 0
  IsArmed d =
      HasId old d
      × (before : List Write) × (d.log ≡ distance ∷ Write.coil direction_coil downstream ∷ before)

  fire-IsFired :
      (d : Driver)
      → mm_to_steps k mm ≤ 65535
      → IsArmed d
      → OnPass (IsFired k mm downstream old) (fire d)
  fire-IsFired d fits (same_id, before, log) =
      if_elim (OnPass (IsFired k mm downstream old)) (d.answers (length d.log))
        (λ _. record {
          fits = fits;
          fresh_id = λ e. next_request-fresh d.request_id (e ∙ sym same_id);
          id_low = omega arith;
          id_high = omega arith;
          before = before;
          wrote =
              ap (λ (x : List Write). Write.reg request_id_reg (next_request d.request_id) ∷ x) log;
        })
        (λ _. tt)

  abbrev IsDirected : Driver → Type 0
  IsDirected d =
      HasId old d × (before : List Write) × (d.log ≡ Write.coil direction_coil downstream ∷ before)

  direction-IsDirected :
      (d : Driver) → HasId old d → OnPass IsDirected (put (Write.coil direction_coil downstream) d)
  direction-IsDirected d h =
      if_elim (OnPass IsDirected) (d.answers (length d.log)) (λ _. (h, d.log, refl)) (λ _. tt)

  distance-IsArmed : (d : Driver) → IsDirected d → OnPass IsArmed (put distance d)
  distance-IsArmed d (h, before, e) =
      if_elim (OnPass IsArmed) (d.answers (length d.log))
        (λ _. (h, before, ap (λ (x : List Write). distance ∷ x) e)) (λ _. tt)

  arm-IsFired :
      (d : Driver)
      → HasId old d
      → OnPass (IsFired k mm downstream old) (arm (mm_to_steps k mm) downstream d)
  arm-IsFired d h =
      if_elim (OnPass (IsFired k mm downstream old)) (ltb 65535 (mm_to_steps k mm)) (λ _. tt)
        (λ low.
          OnPass-bind IsArmed _ _ fire
            (OnPass-bind IsDirected IsArmed _ _ (direction-IsDirected d h) distance-IsArmed)
            (λ e x. fire-IsFired e (ground arith) x))

-- A move that the driver fires has a distance that fits its register, and an id from 1 to 65000 that
-- is not the id before, which the firmware would take for the same move; the direction is written
-- before the distance, and the id last.
pub fire_move-IsFired :
    (k : Kinematics) (mm : ℕ) (downstream : Bool) (d : Driver)
    → OnPass (IsFired k mm downstream d.request_id) (fire_move k mm downstream d)
unfolding fire_move
fire_move-IsFired k mm downstream d =
    OnPass-bind (HasId d.request_id) _ _ _
      (OnPass-bind (HasId d.request_id) (HasId d.request_id) _ _
        (if_elim (OnPass (HasId d.request_id)) d.params_pushed (λ _. refl)
          (λ _. set_params-HasId d.request_id k d refl))
        (put-HasId d.request_id (Write.reg motion_mode_reg mode_distance)))
      (arm-IsFired k mm downstream d.request_id)
