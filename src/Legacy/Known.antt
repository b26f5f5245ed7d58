-- ===== src/Legacy/Known.antt =====
-- The parts' table of the legacy line, and the flash time that is banked in it
-- (src/finishing_line/process/legacy_sequencer.py: `bank`).
use finishing_line.Common.{
  Bool, Dict, Option, String, ap, arith, has, if_elim, if◌then◌else◌, insert, is_some, leb, lookup,
  lookup-insert, none, not, refl, some, true, ℕ, ◌&&◌, ◌===◌, ◌==◌, ◌||◌, ◌∙◌, ◌≡◌,
}
use finishing_line.Config.{ProcessConfig}
use finishing_line.Legacy.{bank, bank_one, credited, fan_on, then_bank, with_parts}
use finishing_line.Legacy.Step.{banked_step, is_legacy_faulted, legacy_step, poll_and_run}
use finishing_line.Legacy.Types.{Answers, Cause, LegacyPhase, Sequencer, Setup}
use finishing_line.Model.{PartState, Station}
use finishing_line.Timers.{dried}

-- The state after banking differs in the parts and in the time only.
pub record IsQuiet (s t : Sequencer) : Type 0 where
  pub same_calls : t.calls ≡ s.calls
  pub same_phase : t.phase ≡ s.phase
  pub same_fault : t.fault ≡ s.fault
  pub same_occ : t.occ ≡ s.occ

-- What holds of the state that a call leaves, which does not raise.
abbrev pub Banked : (Sequencer → Type 0) → Option Sequencer → Type 0
Banked P none = ⊥
Banked P (some s) = P s

-- Every part that stands at a fan station is in the table.
abbrev is_known : Option String → Dict PartState → Bool
is_known none parts = true
is_known (some i) parts = has i parts

abbrev pub has_parts : Sequencer → Bool
has_parts s = is_known s.occ.at_f1 s.parts && is_known s.occ.at_f2 s.parts

abbrev Keeps : Dict PartState → Option (Dict PartState) → Type 0
Keeps parts none = ⊥
Keeps parts (some d) = (j : String) → has j parts ≡ true → has j d ≡ true

insert-has :
    (i j : String) (p : PartState) (d : Dict PartState)
    → has j d ≡ true
    → has j (insert i p d) ≡ true
insert-has i j p d h =
    rw (lookup-insert i j p d)
      (if_elim (λ (m : Option PartState). is_some m ≡ true) (i === j) (λ _. refl) (λ _. h))

is_known-Keeps :
    (m : Option String) (parts d : Dict PartState)
    → Keeps parts (some d)
    → is_known m parts ≡ true
    → is_known m d ≡ true
is_known-Keeps none parts d k h = refl
is_known-Keeps (some i) parts d k h = k i h

credited-Keeps :
    (cfg : ProcessConfig) (dt : ℕ) (on : Bool) (i : String) (m : Option PartState)
    (parts : Dict PartState)
    → is_some m ≡ true
    → Keeps parts (credited cfg dt on i m parts)
credited-Keeps cfg dt on i none parts h = absurd (ground arith)
credited-Keeps cfg dt on i (some p) parts h =
    if_elim (Keeps parts) (p.coats_applied == 0 || not on) (λ _ j k. k)
      (λ _ j k. insert-has i j (dried p dt cfg) parts k)

bank_one-Keeps :
    (cfg : ProcessConfig) (dt : ℕ) (on : Bool) (m : Option String) (parts : Dict PartState)
    → is_known m parts ≡ true
    → Keeps parts (bank_one cfg dt on m parts)
bank_one-Keeps cfg dt on none parts h = λ j k. k
bank_one-Keeps cfg dt on (some i) parts h = credited-Keeps cfg dt on i (lookup i parts) parts h

Keeps-trans :
    (a b : Dict PartState) (m : Option (Dict PartState)) → Keeps a (some b) → Keeps b m → Keeps a m
Keeps-trans a b none h k = k
Keeps-trans a b (some d) h k = λ j x. k j (h j x)

then_bank-Keeps :
    (cfg : ProcessConfig) (dt : ℕ) (on : Bool) (m : Option String) (parts : Dict PartState)
    (r : Option (Dict PartState))
    → is_known m parts ≡ true
    → Keeps parts r
    → Keeps parts (then_bank cfg dt on m r)
then_bank-Keeps cfg dt on m parts none h k = k
then_bank-Keeps cfg dt on m parts (some d) h k =
    Keeps-trans parts d _ k (bank_one-Keeps cfg dt on m d (is_known-Keeps m parts d k h))

with_parts-IsQuiet :
    (s : Sequencer) (now : ℕ) (m : Option (Dict PartState))
    → Keeps s.parts m
    → Banked (IsQuiet s) (with_parts (record s { last_bank = now }) m)
with_parts-IsQuiet s now none k = k
with_parts-IsQuiet s now (some parts) k = record {
  same_calls = refl;
  same_phase = refl;
  same_fault = refl;
  same_occ = refl;
}

-- Banking does not raise when the parts at the fan stations are in the table; it makes no device call
-- and leaves the phase, the fault and the places.
pub bank-IsQuiet :
    (u : Setup) (now : ℕ) (s : Sequencer) → has_parts s ≡ true → Banked (IsQuiet s) (bank u now s)
unfolding bank
bank-IsQuiet u now s known =
    let f1 : is_known s.occ.at_f1 s.parts ≡ true = ground arith in
    let f2 : is_known s.occ.at_f2 s.parts ≡ true = ground arith in
    if_elim (Banked (IsQuiet s)) (leb now s.last_bank)
      (λ _. record { same_calls = refl; same_phase = refl; same_fault = refl; same_occ = refl })
      (λ _. with_parts-IsQuiet s now _ (
        then_bank-Keeps u.cfg _ (fan_on u s Station.f2) s.occ.at_f2 s.parts _ f2
          (bank_one-Keeps u.cfg _ (fan_on u s Station.f1) s.occ.at_f1 s.parts f1)))

with_fault :
    (u : Setup) (a : Answers) (s : Sequencer) (m : Option Sequencer)
    → Banked (IsQuiet s) m
    → s.phase ≡ LegacyPhase.faulted
    → (t : Sequencer) × (banked_step u a m ≡ some (t, s.fault)) × IsQuiet s t
with_fault u a s none k h = elim k [ ]
with_fault u a s (some t) k h = (
  t,
  ap (λ (x : LegacyPhase). if is_legacy_faulted x then some (t, t.fault) else poll_and_run u a t)
        (k.same_phase ∙ h)
      ∙ ap (λ (x : Option Cause). some (t, x)) k.same_fault,
  k,
)

-- A faulted line stays so: a step reports the fault again, makes no device call and moves no part, if
-- the parts at the fan stations are in the table.
pub legacy_step-faulted :
    (u : Setup) (a : Answers) (s : Sequencer)
    → s.phase ≡ LegacyPhase.faulted
    → has_parts s ≡ true
    → (t : Sequencer) × (legacy_step u a s ≡ some (t, s.fault)) × IsQuiet s t
unfolding legacy_step
legacy_step-faulted u a s h known =
    with_fault u a s (bank u a.now s) (bank-IsQuiet u a.now s known) h
