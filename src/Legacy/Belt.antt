-- ===== src/Legacy/Belt.antt =====
-- Where the belt of the legacy line takes the parts
-- (src/finishing_line/process/legacy_sequencer.py: `_step_transition`).
use finishing_line.Common.{
  Bool, Option, String, ap, arith, false, none, not, refl, some, sym, true, ◌∙◌, ◌≡◌,
}
use finishing_line.Legacy.{fault_with, say, someone}
use finishing_line.Legacy.Places.{
  IsMoved, IsSame, Moves, entry_beat-Moves, is_placed, is_possible, retreat-placed,
  retreat_beat-Moves, return-placed, return_beat-Moves, shift_downstream-f1,
}
use finishing_line.Legacy.Transition.{belt_at, entry_beat, finished, shift_downstream}
use finishing_line.Legacy.Types.{Answers, Cause, Sequencer}
use finishing_line.Model.{Beat, Occupancy, nobody}
use finishing_line.Schedule.{next_beat}

finished-beat : (m : Option String) (s : Sequencer) → (finished m s).beat ≡ s.beat
finished-beat none s = refl
finished-beat (some x) s = refl

shift_downstream-beat : (m : Option String) (s : Sequencer) → (shift_downstream m s).beat ≡ s.beat
unfolding shift_downstream
shift_downstream-beat m s = finished-beat s.occ.at_f2 s

pub not-false : (b : Bool) → b ≡ false → not b ≡ true
not-false b h = ap not h

pub not-not : (b : Bool) → not b ≡ false → b ≡ true
not-not true h = refl
not-not false h = sym h

pub nobody-f1 : (t : Occupancy) → nobody t ≡ true → someone t.at_f1 ≡ false
unfolding nobody
nobody-f1 t h = ground arith

some_possible : (why w : Cause) → is_possible why ≡ true → some why ≡ some w → is_possible w ≡ true
some_possible why w h e = cc

clash : {A : Type 0} (b : Bool) → not b ≡ true → b ≡ true → A
clash {A} true h k = ground arith
clash {A} false h k = ground arith

moves_down :
    (m : Option String) (b : Beat) (s : Sequencer)
    → s.beat ≡ b
    → ((t : Occupancy) → is_placed (next_beat b) t ≡ not (someone t.at_f1))
    → IsMoved b (shift_downstream m s)
moves_down m b s e after =
    (shift_downstream-beat m s ∙ e, after _ ∙ not-false _ (shift_downstream-f1 m s))

fault-IsSame :
    (b : Beat) (s : Sequencer) (why : Cause)
    → s.beat ≡ b
    → is_placed b s.occ ≡ true
    → is_possible why ≡ true
    → IsSame b (fault_with why s)
unfolding fault_with
fault-IsSame b s why e h l = (e, h, λ w q. some_possible why w l q)

entry_beat-IsMoved :
    (a : Answers) (b : Beat) (s : Sequencer)
    → s.beat ≡ b
    → is_placed b s.occ ≡ true
    → ((t : Occupancy) → is_placed b t ≡ not (someone t.at_f1))
    → ((t : Occupancy) → is_placed (next_beat b) t ≡ not (someone t.at_f1))
    → Moves (IsSame b) (IsMoved b) (entry_beat a s.pending_enterer s)
entry_beat-IsMoved a b s e h before after =
    let f1 = sym (before s.occ) ∙ h in
    entry_beat-Moves _ _ a s s.pending_enterer (λ c why l. fault-IsSame b (say c s) why e h l)
      (λ up. clash _ f1 up) (λ _. (e, after s.occ ∙ f1))
      (λ c _. moves_down none b (say c s) e after)
      (λ c x _ _. moves_down (some x) b (record (say c s) { pending_enterer = none }) e after)

pub belt_at-IsMoved :
    (a : Answers) (b : Beat) (s : Sequencer)
    → s.beat ≡ b
    → is_placed b s.occ ≡ true
    → Moves (IsSame b) (IsMoved b) (belt_at a b s)
unfolding next_beat
belt_at-IsMoved a Beat.p1 s e h = entry_beat-IsMoved a Beat.p1 s e h (λ t. refl) (λ t. refl)
belt_at-IsMoved a Beat.p4 s e h = entry_beat-IsMoved a Beat.p4 s e h (λ t. refl) (λ t. refl)
belt_at-IsMoved a Beat.p2 s e h =
    let f1 : someone s.occ.at_f1 ≡ false = ground arith in
    retreat_beat-Moves _ _ a s (λ c why l. fault-IsSame Beat.p2 (say c s) why e h l)
      (λ f2. (e, not-false _ f2)) (λ c f2. (e, retreat-placed s.occ f1 f2))
belt_at-IsMoved a Beat.p3 s e h =
    return_beat-Moves _ _ a s (λ c why l. fault-IsSame Beat.p3 (say c s) why e h l)
      (λ up. clash _ h up) (λ n. (e, not-false _ (nobody-f1 s.occ n)))
      (λ c. moves_down none Beat.p3 (say c s) e (λ t. refl)) (λ c f1 f2. (e, return-placed s.occ))
