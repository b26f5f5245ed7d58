-- ===== src/Outcome.antt =====
-- Reasoning about the results of a step, which raises or returns.
use finishing_line.Common.{
  Bool, Option, false, if◌then◌else◌, none, refl, some, subst, true, ℕ, ◌≡◌,
}
use finishing_line.Machine.{StepResult, stay, unless}
use finishing_line.Model.{LineState, Reason}

-- What holds of a result: `N` of none, `P` of one that is returned.
abbrev pub Outcome {ℓ} : Type ℓ → (StepResult → Type ℓ) → Option StepResult → Type ℓ
Outcome N P none = N
Outcome N P (some r) = P r

module _ {ℓ} (N : Type ℓ) (P : StepResult → Type ℓ) where
  pub Outcome-unless :
      (m : Option Reason) (go : Option StepResult) (s : LineState) (n : ℕ)
      → ((why : Reason) → P (stay s (some why) n))
      → (m ≡ none → Outcome N P go)
      → Outcome N P (unless m go s n)
  Outcome-unless none go s n blocked free = free refl
  Outcome-unless (some why) go s n blocked free = blocked why

  pub Outcome-if :
      (test : Bool) (x y : Option StepResult)
      → (test ≡ true → Outcome N P x)
      → (test ≡ false → Outcome N P y)
      → Outcome N P (if test then x else y)
  Outcome-if true x y hx hy = hx refl
  Outcome-if false x y hx hy = hy refl

  pub Outcome-returned : (m : Option StepResult) (r : StepResult) → m ≡ some r → Outcome N P m → P r
  Outcome-returned m r e h = subst (Outcome N P) e h

  pub Outcome-result :
      (m : Option StepResult) → ¬ N → Outcome N P m → (r : StepResult) × (m ≡ some r) × P r
  Outcome-result none never h = absurd (never h)
  Outcome-result (some r) never h = (r, refl, h)
