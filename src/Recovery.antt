-- ===== src/Recovery.antt =====
-- The operator's way out of a fault (src/finishing_line/core/machine.py: `resume`).
use finishing_line.Common.{
  Bool, Option, [], arith, false, if_elim, if◌then◌else◌, inl, inr, is_empty, is_some, none, not,
  refl, some, true, ℕ, ◌&&◌, ◌∷◌, ◌≡◌, ◌⊎◌,
}
use finishing_line.Guards.{occupancy_mismatch}
use finishing_line.Intents.{move_to_safe_pose}
use finishing_line.Machine.{
  StepResult, apply_moves, is_faulted, is_moving, is_post_move, or_given, reenter, reenter_at,
  restart, resume, settle, stay,
}
use finishing_line.Model.{Beat, LineState, Occupancy, Phase, Reason, SensorSnapshot, occupancy_eq}

-- The two ways in which a recovery can end: refused, and accepted.
abbrev pub Settled : LineState → SensorSnapshot → Occupancy → ℕ → StepResult → Type 0
Settled s sensors occupancy n r =
    ((r.intents ≡ [])
      × (r.state ≡ record s { occupancy = occupancy })
      × (is_some r.blocked_by ≡ true))
    ⊎ ((r.intents ≡ record { intent_id = n; action = move_to_safe_pose } ∷ [])
        × (is_faulted r.state.phase ≡ false)
        × (r.state.fault ≡ none)
        × (r.state.pending ≡ n ∷ [])
        × (r.state.in_flight ≡ [])
        × (occupancy_mismatch r.state sensors ≡ none))

settle-Settled :
    (m : Option Reason) (s t : LineState) (sensors : SensorSnapshot) (occupancy : Occupancy) (n : ℕ)
    → occupancy_mismatch t sensors ≡ m
    → is_faulted t.phase ≡ false
    → t.fault ≡ none
    → t.pending ≡ n ∷ []
    → t.in_flight ≡ []
    → Settled s sensors occupancy n (settle m s occupancy t n)
unfolding settle
settle-Settled none s t sensors occupancy n e live f p i = inr (refl, live, f, p, i, e)
settle-Settled (some why) s t sensors occupancy n e live f p i = inl (refl, refl, refl)

abbrev Live : Phase × LineState → Type 0
Live (phase, u) = is_faulted phase ≡ false

reenter-live :
    (phase : Phase) (s : LineState) (occupancy : Occupancy) (beat : Beat)
    → is_faulted (reenter_at phase s occupancy beat).0 ≡ false
unfolding reenter_at
reenter-live phase s occupancy beat =
    let projected = apply_moves (record s { fault = none }) s.in_flight in
    if_elim Live (is_post_move phase) (λ _. refl)
      λ _.
        if_elim Live (is_moving phase && not (is_empty s.in_flight))
          (λ _.
            if_elim Live (occupancy_eq occupancy projected.occupancy)
              {x = (Phase.shutter_close, record projected { beat = beat })}
              {y = if occupancy_eq occupancy s.occupancy
                then (Phase.await_guards, record s { occupancy = occupancy; beat = beat })
                else (Phase.robot_work, record s { occupancy = occupancy; beat = beat })}
              (λ _. refl)
              λ _.
                if_elim Live (occupancy_eq occupancy s.occupancy)
                  {x = (Phase.await_guards, record s { occupancy = occupancy; beat = beat })}
                  {y = (Phase.robot_work, record s { occupancy = occupancy; beat = beat })}
                  (λ _. refl) (λ _. refl))
          (λ _. refl)

-- `resume` of a faulted machine either refuses, and then it stays faulted as it was, but with the
-- operator's occupancy, and asks for nothing; or it accepts, and then it is out of the fault, asks
-- for the safe pose and waits for it, has no moves under way, and agrees with the sensors.
pub resume-Settled :
    (s : LineState) (sensors : SensorSnapshot) (confirmed : Option Occupancy) (beat : Option Beat)
    (n : ℕ)
    → s.phase ≡ Phase.faulted
    → Settled s sensors (or_given confirmed s.occupancy) n (resume s sensors confirmed beat n)
unfolding resume reenter
resume-Settled s sensors confirmed beat n e =
    let occupancy = or_given confirmed s.occupancy in
    let entry = or_given s.fault_phase Phase.robot_work in
    let p = reenter_at entry s occupancy (or_given beat s.beat) in
    let settled =
      settle-Settled (occupancy_mismatch (restart p n) sensors) s (restart p n) sensors occupancy n
        refl (reenter-live entry s occupancy (or_given beat s.beat)) refl refl refl in
    if_elim (Settled s sensors occupancy n) (is_faulted s.phase) (λ _. settled)
      λ live. absurd (ground arith)

-- A machine that is not faulted does not resume.
pub resume-live :
    (s : LineState) (sensors : SensorSnapshot) (confirmed : Option Occupancy) (beat : Option Beat)
    (n : ℕ)
    → is_faulted s.phase ≡ false
    → resume s sensors confirmed beat n ≡ stay s (some Reason.not_faulted) n
unfolding resume
resume-live s sensors confirmed beat n live =
    if_elim (λ r. r ≡ stay s (some Reason.not_faulted) n) (is_faulted s.phase)
      (λ faulted. absurd (ground arith)) (λ _. refl)

-- The projection of the moves under way, which tells a finished motion from one that never began.
abbrev pub projection : LineState → Occupancy
projection s = (apply_moves (record s { fault = none }) s.in_flight).occupancy

first_of :
    (a b : Bool) (x y z : Phase × LineState)
    → (if a then x else if b then y else z).0 ≡ (if a then x.0 else if b then y.0 else z.0)
first_of true b x y z = refl
first_of false true x y z = refl
first_of false false x y z = refl

-- After a fault during the belts' motion: confirming the map that the moves lead to finishes the
-- transition; otherwise, confirming the recorded map goes back to the guards of the same moves, and
-- any other map goes back to the work. A refusal records the operator's map, so the same map
-- confirmed again counts as the recorded one.
pub reenter-moving :
    (s : LineState) (occupancy : Occupancy) (beat : Beat)
    → is_empty s.in_flight ≡ false
    → (reenter_at Phase.moving s occupancy beat).0 ≡ (
        if occupancy_eq occupancy (projection s)
        then Phase.shutter_close
        else if occupancy_eq occupancy s.occupancy
        then Phase.await_guards
        else Phase.robot_work)
unfolding reenter_at
reenter-moving s occupancy beat some_left = rw some_left (
    first_of (occupancy_eq occupancy (projection s)) (occupancy_eq occupancy s.occupancy)
      (
        Phase.shutter_close,
        record (apply_moves (record s { fault = none }) s.in_flight) { beat = beat },
      )
      (Phase.await_guards, record s { occupancy = occupancy; beat = beat })
      (Phase.robot_work, record s { occupancy = occupancy; beat = beat }))
