-- ===== src/Flash.antt =====
-- What src/finishing_line/core/timers.py does to the table of parts.
use finishing_line.Common.{
  leb, ◌+◌, Bool, Dict, Option, Option-cases, String, arith, eq_iff, false, if◌then◌else◌, inl, inr,
  lookup, lookup-insert, none, not, some, sym, true, ℕ, ◌&&◌, ◌===◌, ◌==◌, ◌||◌, ◌∙◌, ◌≡◌, ◌≤◌, ◌⊎◌,
}
use finishing_line.Config.{ProcessConfig}
use finishing_line.Model.{
  LineState, PartState, Station, fan_state, part_of, with_flash_advanced, active_flash_seconds,
}
use finishing_line.Timers.{advance_flash_timers, bank_at, bank_part, dried, runs, flash_complete}

-- Every entry of the table stands under the part's own id.
abbrev pub IsKeyed : Dict PartState → Type 0
IsKeyed parts = (j : String) (p : PartState) → lookup j parts ≡ some p → p.part_id ≡ j

-- Whether the part with id `j` stands at a running fan.
abbrev pub under_fan : Bool → Option String → String → Bool
under_fan on none j = false
under_fan on (some i) j = on && not (i === "") && i === j

unfoldable pub dries : LineState → String → Bool
unfolding fan_state
dries s j =
    under_fan (runs (fan_state s Station.f1)) s.occupancy.at_f1 j
    || under_fan (runs (fan_state s Station.f2)) s.occupancy.at_f2 j

-- A part after `dt` seconds under a running fan: they are added to the first flash with one coat, to
-- the second with more, and the part is dry once that flash is as long as it must be.
abbrev pub is_flashed : ℕ → ProcessConfig → Bool
is_flashed flash cfg = leb cfg.flash_seconds flash

abbrev pub flashed : PartState → ℕ → ProcessConfig → PartState
flashed p dt cfg =
    if leb p.coats_applied 1
    then record p {
      flash_1_s = p.flash_1_s + dt;
      is_wet = p.is_wet && not (is_flashed (p.flash_1_s + dt) cfg);
    }
    else record p {
      flash_2_s = p.flash_2_s + dt;
      is_wet = p.is_wet && not (is_flashed (p.flash_2_s + dt) cfg);
    }

dried-flashed : (p : PartState) (dt : ℕ) (cfg : ProcessConfig) → dried p dt cfg ≡ flashed p dt cfg
unfolding dried with_flash_advanced flash_complete active_flash_seconds
dried-flashed p dt cfg = ground arith

-- What one advance makes of a part.
abbrev pub credit : Bool → Option PartState → ℕ → ProcessConfig → Option PartState
credit drying none dt cfg = none
credit drying (some p) dt cfg =
    if drying && not (p.coats_applied == 0) then some (flashed p dt cfg) else some p

lookup-bank_part :
    (occupant : Option String) (parts d : Dict PartState) (on : Bool) (dt : ℕ) (cfg : ProcessConfig)
    (j : String)
    → IsKeyed parts
    → (lookup j d ≡ lookup j parts) ⊎ (lookup j d ≡ credit true (lookup j parts) dt cfg)
    → lookup j (if on then bank_part (part_of occupant parts) dt cfg d else d)
      ≡ (if under_fan on occupant j then credit true (lookup j parts) dt cfg else lookup j d)
unfolding bank_part part_of
lookup-bank_part none parts d on dt cfg j k h = ground arith
lookup-bank_part (some i) parts d false dt cfg j k h = ground arith
lookup-bank_part (some i) parts d true dt cfg j k h = elim (Option-cases (lookup i parts)) [
  | inl e ↦ ground (arith, eq_iff i j)
  | inr (p, e) ↦ ground (
    arith,
    eq_iff i j,
    k i p,
    dried-flashed p dt cfg,
    lookup-insert p.part_id j (dried p dt cfg) d,
  )
]

-- In a table whose entries stand under their parts' ids, advancing the timers gives the time to each
-- part with a coat that stands at a fan station whose fan runs, to the flash of its current coat,
-- marks it dry when that flash is long enough, and leaves every other entry as it is.
pub lookup-advance_flash_timers :
    (s : LineState) (dt : ℕ) (cfg : ProcessConfig) (j : String)
    → IsKeyed s.parts
    → lookup j (advance_flash_timers s dt cfg) ≡ credit (dries s j) (lookup j s.parts) dt cfg
unfolding advance_flash_timers dries
lookup-advance_flash_timers s dt cfg j k = ground (
  arith,
  lookup-bank_part s.occupancy.at_f1 s.parts s.parts (runs (fan_state s Station.f1)) dt cfg j k,
  lookup-bank_part s.occupancy.at_f2 s.parts (bank_at s dt cfg Station.f1 s.parts)
      (runs (fan_state s Station.f2)) dt cfg j k,
)

-- The same part later on: as many coats, and no flash time lost.
pub record IsGrown (p q : PartState) : Type 0 where
  pub same_id : q.part_id ≡ p.part_id
  pub same_role : q.role ≡ p.role
  pub same_coats : q.coats_applied ≡ p.coats_applied
  pub more_1 : p.flash_1_s ≤ q.flash_1_s
  pub more_2 : p.flash_2_s ≤ q.flash_2_s

abbrev pub HasGrown : Option PartState → Option PartState → Type 0
HasGrown none none = Unit {0}
HasGrown (some p) (some q) = IsGrown p q
HasGrown _ _ = ⊥

credit-HasGrown :
    (drying : Bool) (m : Option PartState) (dt : ℕ) (cfg : ProcessConfig)
    → HasGrown m (credit drying m dt cfg)
credit-HasGrown drying none dt cfg = tt
credit-HasGrown drying (some p) dt cfg = ground arith

-- Banking flash time loses no entry of the table and adds none; of a part it changes neither the id
-- nor the role nor the coats, and it takes no flash time away.
pub advance_flash_timers-HasGrown :
    (s : LineState) (dt : ℕ) (cfg : ProcessConfig) (j : String)
    → IsKeyed s.parts
    → HasGrown (lookup j s.parts) (lookup j (advance_flash_timers s dt cfg))
advance_flash_timers-HasGrown s dt cfg j k =
    rw (lookup-advance_flash_timers s dt cfg j k)
      (credit-HasGrown (dries s j) (lookup j s.parts) dt cfg)

credit-part_id :
    (drying : Bool) (m : Option PartState) (dt : ℕ) (cfg : ProcessConfig) (j : String)
    → ((p : PartState) → m ≡ some p → p.part_id ≡ j)
    → (q : PartState) → credit drying m dt cfg ≡ some q
    → q.part_id ≡ j
credit-part_id drying none dt cfg j k q e = ground arith
credit-part_id drying (some p) dt cfg j k q e = ground (arith, k p)

pub advance_flash_timers-IsKeyed :
    (s : LineState) (dt : ℕ) (cfg : ProcessConfig)
    → IsKeyed s.parts
    → IsKeyed (advance_flash_timers s dt cfg)
advance_flash_timers-IsKeyed s dt cfg k j q e =
    credit-part_id (dries s j) (lookup j s.parts) dt cfg j (k j) q
      (sym (lookup-advance_flash_timers s dt cfg j k) ∙ e)
