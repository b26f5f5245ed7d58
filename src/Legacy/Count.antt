-- ===== src/Legacy/Count.antt =====
-- How often a part stands on the belt of the legacy line, and how a move of the belt changes that
-- (src/finishing_line/process/legacy_sequencer.py: `_step_transition`).
use finishing_line.Common.{
  List, Option, String, [], arith, eq_iff, false, if◌then◌else◌, none, refl, some, true, ℕ, ◌++◌,
  ◌+◌, ◌===◌, ◌∷◌, ◌≡◌,
}
use finishing_line.Legacy.{someone}
use finishing_line.Legacy.Transition.{enter, pull, shift_one}
use finishing_line.Legacy.Types.{Sequencer}
use finishing_line.Model.{Occupancy, Station}

-- How often an id stands in a place, on the belt, and in a list.
abbrev pub here : String → Option String → ℕ
here j none = 0
here j (some x) = if x === j then 1 else 0

abbrev pub on_belt : String → Occupancy → ℕ
on_belt j t =
    here j t.at_in + (here j t.at_f1 + (here j t.at_o + (here j t.at_f2 + here j t.at_out)))

unfoldable pub count_in : String → List String → ℕ
count_in j [] = 0
count_in j (x ∷ xs) = (if x === j then 1 else 0) + count_in j xs

-- The parts on the belt, the ones that left it, and the one that is about to enter.
abbrev pub tally : String → Sequencer → ℕ
tally j s = on_belt j s.occ + (count_in j s.completed + here j s.pending_enterer)

pub here-nobody :
    (j : String) (m : Option String) → (j === "") ≡ false → someone m ≡ false → here j m ≡ 0
here-nobody j none named h = refl
here-nobody j (some x) named h = ground (arith, eq_iff x j, eq_iff x "", eq_iff j "")

pub count_in-append :
    (j : String) (xs ys : List String) → count_in j (xs ++ ys) ≡ count_in j xs + count_in j ys
unfolding count_in
count_in-append j [] ys = omega arith
count_in-append j (x ∷ xs) ys = omega (arith, count_in-append j xs ys)

-- The three ways in which the belt moves the parts.
module _ (j : String) (named : (j === "") ≡ false) (t : Occupancy) where
  pub shift-on_belt :
      someone t.at_f2 ≡ false
      → on_belt j (shift_one Station.f1 Station.o (shift_one Station.o Station.f2 t)) ≡ on_belt j t
  shift-on_belt f2 =
      ground (
        arith,
        here-nobody j t.at_f2 named,
        here-nobody j t.at_f1 named,
        here-nobody j t.at_o named,
      )

  pub enter-on_belt :
      (x : String)
      → someone t.at_f1 ≡ false
      → someone t.at_f2 ≡ false
      → on_belt j
          (enter (some x) (shift_one Station.f1 Station.o (shift_one Station.o Station.f2 t)))
        ≡ on_belt j t + here j (some x)
  enter-on_belt x f1 f2 =
      ground (
        arith,
        here-nobody j t.at_f2 named,
        here-nobody j t.at_f1 named,
        here-nobody j t.at_o named,
      )

  pub retreat-on_belt :
      someone t.at_f1 ≡ false
      → someone t.at_f2 ≡ true
      → on_belt j (pull Station.f2 Station.o (shift_one Station.o Station.f1 t)) ≡ on_belt j t
  retreat-on_belt f1 f2 = ground (arith, here-nobody j t.at_f1 named, here-nobody j t.at_o named)

  pub return-on_belt :
      someone t.at_f1 ≡ true
      → someone t.at_f2 ≡ false
      → on_belt j (pull Station.f1 Station.o (shift_one Station.o Station.f2 t)) ≡ on_belt j t
  return-on_belt f1 f2 = ground (arith, here-nobody j t.at_f2 named, here-nobody j t.at_o named)
