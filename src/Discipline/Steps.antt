-- ===== src/Discipline/Steps.antt =====
-- The results of one step of the machine and the flash discipline
-- (src/finishing_line/core/machine.py).
use finishing_line.Common.{
  Bool, List, Option, false, inl, inr, is_empty, leb, lookup, none, not, refl, some, subst, true, ℕ,
  ◌&&◌, ◌∙◌, ◌≡◌, ◌⊎◌,
}
use finishing_line.Config.{ProcessConfig}
use finishing_line.Discipline.{IsDisciplined, IsDisciplinedIn}
use finishing_line.Discipline.Work.{Holds-idle, Holds-sprayed, part_of-found}
use finishing_line.Guards.{spray_station_not_ready}
use finishing_line.Intents.{Action}
use finishing_line.Machine.{
  Inputs, StepResult, coated, emit, enter_fault, fault_if, is_faulted, robot_work, robot_work_at,
  same_role, stay, work_on,
}
use finishing_line.Model.{LineState, PartState, Phase, Reason, Station, nobody, part_at, part_of}
use finishing_line.Outcome.{Outcome, Outcome-if, Outcome-unless}
use finishing_line.Schedule.{schedule}

-- A result that is disciplined.
abbrev pub Keeps : ProcessConfig → StepResult → Type 0
Keeps cfg r = IsDisciplined cfg r.state

pub in_phase :
    (phase : Phase) (cfg : ProcessConfig) (s : LineState)
    → is_faulted phase ≡ false
    → s.phase ≡ phase
    → IsDisciplinedIn phase cfg s
    → IsDisciplined cfg s
in_phase phase cfg s live e d = subst (λ k. IsDisciplinedIn k cfg s) (rw e (rw live)) d

-- A fault keeps the phase in which it hit, and with it all that is known of the parts.
pub fault-IsDisciplined :
    (cfg : ProcessConfig) (s : LineState) (reason : Reason) (n : ℕ)
    → IsDisciplined cfg s
    → Keeps cfg (enter_fault s reason n)
unfolding enter_fault
fault-IsDisciplined cfg s reason n d = go (is_faulted s.phase) refl
  where
    go : (b : Bool) → is_faulted s.phase ≡ b → Keeps cfg (fault_if b s reason n)
    go true e = d
    go false e = rw e at d

module _ (cfg : ProcessConfig) (s : LineState) (n : ℕ) where
  pub emit-IsDisciplined :
      (phase : Phase) (actions : List Action)
      → is_faulted phase ≡ false
      → IsDisciplinedIn phase cfg s
      → Keeps cfg (emit s phase actions n)
  unfolding emit
  emit-IsDisciplined phase actions live d = rw live d

  stay-IsDisciplined :
      (phase : Phase)
      → is_faulted phase ≡ false
      → IsDisciplinedIn phase cfg s
      → Keeps cfg (stay (record s { phase = phase }) none n)
  stay-IsDisciplined phase live d = rw live d

-- The robot's work.
module _ (cfg : ProcessConfig) (s : LineState) (i : Inputs) (n : ℕ) (e : s.phase ≡ Phase.robot_work)
    (d : IsDisciplinedIn Phase.robot_work cfg s) where
  work_on-Keeps :
      (p : PartState) (m : Option PartState)
      → part_of s.occupancy.at_o s.parts ≡ some p
      → leb (schedule s.beat).robot.coat p.coats_applied ≡ false
      → m ≡ lookup p.part_id s.parts
      → Outcome ⊥
          (Keeps cfg)
          (work_on (coated m s (schedule s.beat) p.part_id) s (schedule s.beat) p.part_id n)
  unfolding work_on coated
  work_on-Keeps p none here less found =
      absurd (cc (found, (part_of-found s.occupancy.at_o s.parts p d.keyed here).2))
  work_on-Keeps p (some q) here less found =
      let q-eq-p : some q ≡ some p =
        found ∙ (part_of-found s.occupancy.at_o s.parts p d.keyed here).2 in
      let q-is-p : q ≡ p = cc q-eq-p in rw q-is-p (Holds-sprayed cfg s p d here less)

  skip-Keeps :
      (part_of s.occupancy.at_o s.parts ≡ none)
        ⊎ ((p : PartState) × (part_of s.occupancy.at_o s.parts ≡ some p)
            × (leb (schedule s.beat).robot.coat p.coats_applied ≡ true))
      → Keeps cfg (stay (record s { phase = Phase.await_guards }) none n)
  skip-Keeps idle = stay-IsDisciplined cfg s n Phase.await_guards refl (Holds-idle cfg s d idle)

  robot_work_at-Keeps :
      (m : Option PartState)
      → part_of s.occupancy.at_o s.parts ≡ m
      → Outcome ⊥ (Keeps cfg) (robot_work_at m (schedule s.beat) s i cfg n)
  unfolding robot_work_at
  robot_work_at-Keeps none here = skip-Keeps (inl here)
  robot_work_at-Keeps (some p) here =
      Outcome-if ⊥ (Keeps cfg) (not (same_role p.role (schedule s.beat).robot.role)) _ _
        (λ wrong. fault-IsDisciplined cfg s _ n (in_phase Phase.robot_work cfg s refl e d))
        λ right.
          Outcome-if ⊥ (Keeps cfg) (leb (schedule s.beat).robot.coat p.coats_applied) _ _
            (λ enough. skip-Keeps (inr (p, here, enough)))
            λ less.
              Outcome-unless ⊥ (Keeps cfg) (spray_station_not_ready s i.sensors cfg) _ s n
                (λ why. in_phase Phase.robot_work cfg s refl e d)
                λ free. work_on-Keeps p (lookup p.part_id s.parts) here less refl

  pub robot_work-Keeps : Outcome ⊥ (Keeps cfg) (robot_work s i cfg n)
  unfolding robot_work
  robot_work-Keeps =
      Outcome-if ⊥ (Keeps cfg) (nobody s.occupancy && is_empty s.in_queue) _ _
        (λ _. in_phase Phase.robot_work cfg s refl e d)
        (λ _. robot_work_at-Keeps (part_at s Station.o) refl)
