-- ===== src/Discipline/Resume.antt =====
-- The flash discipline and `resume` (src/finishing_line/core/machine.py).
use finishing_line.Common.{
  Bool, Option, ap, arith, false, if_elim, if◌then◌else◌, is_empty, none, refl, some, subst, sym,
  true, ℕ, ◌∙◌, ◌≡◌,
}
use finishing_line.Config.{ProcessConfig}
use finishing_line.Discipline.{IsDisciplined, IsDisciplinedIn, at_fault}
use finishing_line.Discipline.Recovery.{Reenters, arrived, reenter_at-believed}
use finishing_line.Discipline.Steps.{Keeps}
use finishing_line.Machine.{
  apply_moves, is_faulted, or_given, reenter, reenter_at, restart, resume, settle,
}
use finishing_line.Model.{LineState, Occupancy, Phase, Reason, SensorSnapshot, occupancy_eq}

restart-IsDisciplined :
    (cfg : ProcessConfig) (phase : Phase) (u : LineState) (n : ℕ)
    → Reenters cfg (phase, u)
    → IsDisciplined cfg (restart (phase, u) n)
restart-IsDisciplined cfg phase u n (live, h) = rw live h

first_taken {ℓ} : {A : Type ℓ} (test : Bool) (x y : A) → test ≡ true → (if test then x else y) ≡ x
first_taken true x y e = refl
first_taken false x y e = absurd (ground arith)

-- `resume` at a fault, by the phase in which the fault hit.
module _ (cfg : ProcessConfig) (s : LineState) (sensors : SensorSnapshot) (n : ℕ) where
  settle-IsDisciplined :
      (m : Option Reason) (p : Phase × LineState)
      → IsDisciplined cfg s
      → Reenters cfg p
      → IsDisciplined cfg (settle m s s.occupancy (restart p n) n).state
  unfolding settle
  settle-IsDisciplined none (phase, u) d r = restart-IsDisciplined cfg phase u n r
  settle-IsDisciplined (some why) (phase, u) d r = d

  reenter-Reenters :
      (m : Option Phase)
      → IsDisciplinedIn (at_fault m) cfg s
      → Reenters cfg (reenter_at (or_given m Phase.robot_work) s s.occupancy s.beat)
  reenter-Reenters none d = absurd d.stage
  reenter-Reenters (some phase) d = reenter_at-believed phase cfg s d

  -- In a disciplined line, `resume` on the recorded occupancy, without a map and without a beat from
  -- the operator, keeps the discipline, whether the sensors let it go on or not.
  pub resume-Keeps : IsDisciplined cfg s → Keeps cfg (resume s sensors none none n)
  unfolding resume reenter
  resume-Keeps d =
      if_elim (Keeps cfg) (is_faulted s.phase)
        (λ faulted.
          settle-IsDisciplined _ (reenter s s.occupancy s.beat) d
            (reenter-Reenters s.fault_phase (rw faulted at d)))
        (λ _. d)

  accepted-IsDisciplined :
      (m : Option Reason) (occupancy : Occupancy) (p : Phase × LineState)
      → s.phase ≡ Phase.faulted
      → Reenters cfg p
      → is_faulted (settle m s occupancy (restart p n) n).state.phase ≡ false
      → IsDisciplined cfg (settle m s occupancy (restart p n) n).state
  unfolding settle
  accepted-IsDisciplined none occupancy (phase, u) e r live = restart-IsDisciplined cfg phase u n r
  accepted-IsDisciplined (some why) occupancy (phase, u) e r live = absurd (ground arith)

  reenter_at-arrived :
      (occupancy : Occupancy)
      → is_empty s.in_flight ≡ false
      → occupancy_eq occupancy (apply_moves (record s { fault = none }) s.in_flight).occupancy
        ≡ true
      → reenter_at Phase.moving s occupancy s.beat ≡ (
        Phase.shutter_close,
        record (apply_moves (record s { fault = none }) s.in_flight) { beat = s.beat },
      )
  unfolding reenter_at
  reenter_at-arrived occupancy g h = rw g (first_taken _ _ _ h)

  -- After a fault in the belts' motion, `resume` with the map that the moves under way lead to keeps
  -- the discipline, if it leaves the fault.
  resume-arrived :
      (occupancy : Occupancy)
      → IsDisciplined cfg s
      → s.phase ≡ Phase.faulted
      → s.fault_phase ≡ some Phase.moving
      → is_empty s.in_flight ≡ false
      → occupancy_eq occupancy (apply_moves (record s { fault = none }) s.in_flight).occupancy
        ≡ true
      → is_faulted (resume s sensors (some occupancy) none n).state.phase ≡ false
      → Keeps cfg (resume s sensors (some occupancy) none n)
  unfolding resume reenter
  resume-arrived occupancy d e f g h =
      let u = apply_moves (record s { fault = none }) s.in_flight in
      let p : Phase × LineState = (Phase.shutter_close, record u { beat = s.beat }) in
      let to : reenter s occupancy s.beat ≡ p =
        ap (λ m. reenter_at (or_given m Phase.robot_work) s occupancy s.beat) f
        ∙ reenter_at-arrived occupancy g h in
      let believed : IsDisciplinedIn Phase.moving cfg s = rw f at (rw e at d) in
      let here : Reenters cfg (reenter s occupancy s.beat) =
        subst (Reenters cfg) (sym to) (refl, arrived cfg s believed g) in
      if_elim (λ r. is_faulted r.state.phase ≡ false → Keeps cfg r) (is_faulted s.phase)
        (λ _ live. accepted-IsDisciplined _ occupancy (reenter s occupancy s.beat) e here live)
        (λ live _. absurd (ground arith))
