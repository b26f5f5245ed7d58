-- ===== src/Legacy/Tally.antt =====
-- The number of parts in a transition of the legacy line
-- (src/finishing_line/process/legacy_sequencer.py: `_step_transition`).
use finishing_line.Common.{
  Bool, Option, String, [], ap, arith, eq_iff, false, if_elim, none, not, refl, same, some, true, ℕ,
  ◌&&◌, ◌+◌, ◌===◌, ◌∙◌, ◌∷◌, ◌≡◌,
}
use finishing_line.Legacy.{controllable, drive_pin, fault_with, say, set_f1, someone}
use finishing_line.Legacy.Count.{
  count_in, count_in-append, enter-on_belt, here, retreat-on_belt, return-on_belt, shift-on_belt,
  tally,
}
use finishing_line.Legacy.Places.{
  Ends-map, IsPlaced, Moves, entry_beat-Moves, is_placed, retreat_beat-Moves, return_beat-Moves,
}
use finishing_line.Legacy.Still.{Ends}
use finishing_line.Legacy.Transition.{
  Moved, after_move, began, begin_beat, begin_seen, begin_with, belt_at, ended, entry_beat,
  finish_f2, finished, move_belt, moved, shift_downstream, step_transition, wants_f1,
}
use finishing_line.Legacy.Types.{Answers, Call, Eyes, Sequencer, Setup}
use finishing_line.Model.{Beat}
use finishing_line.Schedule.{next_beat}

-- The part at F2, if there is one, leaves the belt.
finished-nobody :
    (m : Option String) (s : Sequencer) → s.occ.at_f2 ≡ m → someone (finished m s).occ.at_f2 ≡ false
finished-nobody none s e = ap someone e
finished-nobody (some x) s e = refl

finished-tally :
    (j : String) (m : Option String) (s : Sequencer)
    → (j === "") ≡ false
    → s.occ.at_f2 ≡ m
    → tally j (finished m s) ≡ tally j s
finished-tally j none s named e = refl
finished-tally j (some x) s named e =
    let at_f2 : here j s.occ.at_f2 ≡ here j (some x) = ap (here j) e in
    let one : count_in j (x ∷ []) ≡ here j (some x) = unfold count_in in omega arith in
    ground (
      arith,
      eq_iff x j,
      eq_iff x "",
      eq_iff j "",
      count_in-append j s.completed (x ∷ []),
      at_f2,
      one,
    )

finished-f1 : (m : Option String) (s : Sequencer) → (finished m s).occ.at_f1 ≡ s.occ.at_f1
finished-f1 none s = refl
finished-f1 (some x) s = refl

finished-pending :
    (m : Option String) (s : Sequencer) → (finished m s).pending_enterer ≡ s.pending_enterer
finished-pending none s = refl
finished-pending (some x) s = refl

module _ (j : String) (named : (j === "") ≡ false) where
  shift_downstream-tally : (s : Sequencer) → tally j (shift_downstream none s) ≡ tally j s
  unfolding shift_downstream
  shift_downstream-tally s =
      let belt = shift-on_belt j named (finish_f2 s).occ (finished-nobody s.occ.at_f2 s refl) in
      ap
        (λ (n : ℕ). n + (count_in j (finish_f2 s).completed + here j (finish_f2 s).pending_enterer))
        belt
      ∙ finished-tally j s.occ.at_f2 s named refl

  shift_downstream-enterer :
      (x : String) (s : Sequencer)
      → someone s.occ.at_f1 ≡ false
      → s.pending_enterer ≡ some x
      → tally j (shift_downstream (some x) (record s { pending_enterer = none })) ≡ tally j s
  unfolding shift_downstream
  shift_downstream-enterer x s f1 e =
      let r = record s { pending_enterer = none } in
      let t = finish_f2 r in
      let f1_after : someone t.occ.at_f1 ≡ false = ap someone (finished-f1 s.occ.at_f2 r) ∙ f1 in
      let belt = enter-on_belt j named t.occ x f1_after (finished-nobody s.occ.at_f2 r refl) in
      let kept = finished-tally j s.occ.at_f2 r named refl in
      let gone : here j t.pending_enterer ≡ 0 = ap (here j) (finished-pending s.occ.at_f2 r) in
      let waiting : here j s.pending_enterer ≡ here j (some x) = ap (here j) e in
      omega (arith, belt, kept, gone, waiting)

  entry_beat-tally :
      (a : Answers) (s : Sequencer)
      → Moves
          (λ (t : Sequencer). tally j t ≡ tally j s)
          (λ (t : Sequencer). tally j t ≡ tally j s)
          (entry_beat a s.pending_enterer s)
  unfolding fault_with
  entry_beat-tally a s =
      entry_beat-Moves _ _ a s s.pending_enterer (λ c why _. refl) (λ _. refl) (λ _. refl)
        (λ c _. shift_downstream-tally (say c s))
        (λ c x e f1. shift_downstream-enterer x (say c s) f1 e)

  belt_at-tally :
      (a : Answers) (b : Beat) (s : Sequencer)
      → is_placed b s.occ ≡ true
      → Moves
          (λ (t : Sequencer). tally j t ≡ tally j s)
          (λ (t : Sequencer). tally j t ≡ tally j s)
          (belt_at a b s)
  unfolding fault_with
  belt_at-tally a Beat.p1 s h = entry_beat-tally a s
  belt_at-tally a Beat.p4 s h = entry_beat-tally a s
  belt_at-tally a Beat.p2 s h =
      let f1 : someone s.occ.at_f1 ≡ false = ground arith in
      retreat_beat-Moves _ _ a s (λ c why _. refl) (λ _. refl)
        (λ c f2.
          ap (λ (n : ℕ). n + (count_in j s.completed + here j s.pending_enterer))
            (retreat-on_belt j named s.occ f1 f2))
  belt_at-tally a Beat.p3 s h =
      return_beat-Moves _ _ a s (λ c why _. refl) (λ _. refl) (λ _. refl)
        (λ c. shift_downstream-tally (say c s))
        (λ c f1 f2.
          ap (λ (n : ℕ). n + (count_in j s.completed + here j s.pending_enterer))
            (return-on_belt j named s.occ f1 f2))

  drive_pin-tally :
      (able : Bool) (pin : Option ℕ) (on : Bool) (s : Sequencer)
      → tally j (drive_pin able pin on s) ≡ tally j s
  drive_pin-tally true (some pin) on s = refl
  drive_pin-tally true none on s = refl
  drive_pin-tally false pin on s = refl

  set_f1-tally :
      (u : Setup) (driven on : Bool) (s : Sequencer) → tally j (set_f1 u driven on s).0 ≡ tally j s
  unfolding set_f1
  set_f1-tally u driven on s =
      if_elim (λ (r : Sequencer × Bool). tally j r.0 ≡ tally j s)
        (controllable u.f1_mode && not (same s.f1_commanded on))
        (λ _. drive_pin-tally u.has_fan_do u.f1_mode.do_pin on (record s { f1_commanded = on }))
        (λ _. refl)

  began-tally :
      (n : ℕ) (r : Sequencer × Bool)
      → tally j r.0 ≡ n
      → Ends (λ (t : Sequencer). tally j t ≡ n) (began r)
  began-tally n (s, true) h = h
  began-tally n (s, false) h = tt

  begin_with-tally :
      (u : Setup) (a : Answers) (m : Option Bool) (s : Sequencer)
      → Ends (λ (t : Sequencer). tally j t ≡ tally j s) (begin_with u a m s)
  begin_with-tally u a none s = tt
  begin_with-tally u a (some on) s =
      began-tally (tally j s) (set_f1 u a.fan_driven on s) (set_f1-tally u a.fan_driven on s)

  begin_seen-tally :
      (u : Setup) (a : Answers) (m : Option Eyes) (s : Sequencer)
      → Ends (λ (t : Sequencer). tally j t ≡ tally j s) (begin_seen u a m s)
  begin_seen-tally u a none s = tt
  begin_seen-tally u a (some e) s =
      begin_with-tally u a (wants_f1 s.occ.at_f1 s.parts)
        (record s { sensors = some e; beat = next_beat s.beat })

  begin_beat-tally :
      (u : Setup) (a : Answers) (s : Sequencer)
      → Ends (λ (t : Sequencer). tally j t ≡ tally j s) (begin_beat u a s)
  unfolding begin_beat
  begin_beat-tally u a s =
      begin_seen-tally u a a.eyes_after (say Call.read_eyes (record s { probe_slide = 0 }))

  after_move-tally :
      (u : Setup) (a : Answers) (n : ℕ) (m : Moved)
      → Moves (λ (t : Sequencer). tally j t ≡ n) (λ (t : Sequencer). tally j t ≡ n) m
      → Ends (λ (t : Sequencer). tally j t ≡ n) (after_move u a m)
  after_move-tally u a n (ended s) h = h
  after_move-tally u a n (moved s) h =
      Ends-map _ _ (begin_beat u a s) (λ (t : Sequencer) (k : tally j t ≡ tally j s). k ∙ h)
        (begin_beat-tally u a s)

-- A transition of the line whose parts are placed for their beat, whether it succeeds or ends in a
-- fault, loses no part and doubles none: an id that is not empty stands as often on the belt, among
-- the finished parts and in wait for its entry as before.
pub step_transition-tally :
    (u : Setup) (a : Answers) (s : Sequencer) (j : String)
    → IsPlaced s
    → (j === "") ≡ false
    → Ends (λ (t : Sequencer). tally j t ≡ tally j s) (step_transition u a s)
unfolding step_transition move_belt
step_transition-tally u a s j h named =
    after_move-tally j named u a (tally j s) (move_belt a s) (belt_at-tally j named a s.beat s h)
