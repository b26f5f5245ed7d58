-- ===== src/Legacy/Places.antt =====
-- Where the parts stand on the legacy line (src/finishing_line/process/legacy_sequencer.py).
use finishing_line.Common.{
  Bool, Option, String, ap, arith, false, if_elim, is_some, none, not, refl, some, true, ◌∙◌, ◌≡◌,
}
use finishing_line.Legacy.{Ended, fault_with, say, someone}
use finishing_line.Legacy.Still.{Ends, IsStill}
use finishing_line.Legacy.Transition.{
  Moved, arrive_at, ended, enter, entry_beat, finish_f2, moved, pull, retreat_beat, return_beat,
  shift_downstream, shift_one, shuffle,
}
use finishing_line.Legacy.Types.{Answers, Call, Cause, Sequencer}
use finishing_line.Model.{Beat, Occupancy, Station, nobody}
use finishing_line.Schedule.{next_beat}

-- A part stands at F1 in beat P3 only, and there is none at F2 then.
abbrev pub is_placed : Beat → Occupancy → Bool
is_placed Beat.p3 t = not (someone t.at_f2)
is_placed _ t = not (someone t.at_f1)

abbrev pub IsPlaced : Sequencer → Type 0
IsPlaced s = is_placed s.beat s.occ ≡ true

pub IsStill-IsPlaced : (s t : Sequencer) → IsPlaced s → IsStill s t → IsPlaced t
IsStill-IsPlaced s t h k = rw (k.same_beat, k.same_occ) h

pub Ends-map :
    (P Q : Sequencer → Type 0) (r : Ended) → ((t : Sequencer) → P t → Q t) → Ends P r → Ends Q r
Ends-map P Q none f h = tt
Ends-map P Q (some (t, why)) f h = f t h

-- A move downstream of what stands at F1, after one of what stands at O.
shift_one-f1 :
    (t : Occupancy)
    → someone (shift_one Station.f1 Station.o (shift_one Station.o Station.f2 t)).at_f1 ≡ false
shift_one-f1 t = ground arith

enter-f1 : (m : Option String) (t : Occupancy) → (enter m t).at_f1 ≡ t.at_f1
enter-f1 none t = refl
enter-f1 (some x) t = refl

-- After a shift downstream there is no part at F1.
pub shift_downstream-f1 :
    (enterer : Option String) (s : Sequencer)
    → someone (shift_downstream enterer s).occ.at_f1 ≡ false
unfolding shift_downstream
shift_downstream-f1 m s = ap someone (enter-f1 m _) ∙ shift_one-f1 (finish_f2 s).occ

-- What holds of the state after the belt's move, and of the one in which the move ended.
abbrev pub Moves : (Sequencer → Type 0) → (Sequencer → Type 0) → Moved → Type 0
Moves P Q (ended s) = P s
Moves P Q (moved s) = Q s

-- The belt has moved: the beat is the old one, and the places are good for the next.
abbrev pub IsMoved : Beat → Sequencer → Type 0
IsMoved b t = (t.beat ≡ b) × (is_placed (next_beat b) t.occ ≡ true)

-- The faults of a device, and not those of an occupancy that cannot be.
abbrev pub is_possible : Cause → Bool
is_possible Cause.f1_impossible = false
is_possible Cause.f2_impossible = false
is_possible _ = true

abbrev pub IsSame : Beat → Sequencer → Type 0
IsSame b t =
    (t.beat ≡ b)
    × (is_placed b t.occ ≡ true)
    × ((why : Cause) → t.fault ≡ some why → is_possible why ≡ true)

pub retreat-placed :
    (t : Occupancy)
    → someone t.at_f1 ≡ false
    → someone t.at_f2 ≡ true
    → is_placed Beat.p3 (pull Station.f2 Station.o (shift_one Station.o Station.f1 t)) ≡ true
retreat-placed t h k = ground arith

pub return-placed :
    (t : Occupancy)
    → is_placed Beat.p4 (pull Station.f1 Station.o (shift_one Station.o Station.f2 t)) ≡ true
return-placed t = ground arith

module _ (P Q : Sequencer → Type 0) where
  pub arrive_at-Moves :
      (m : Option Bool) (lost : Cause) (beat : Beat) (s : Sequencer) (go : Sequencer → Moved)
      → ((why : Cause) → is_possible why ≡ true → P (fault_with why s))
      → is_possible lost ≡ true
      → Moves P Q (go s)
      → Moves P Q (arrive_at m lost beat s go)
  arrive_at-Moves none lost beat s go h l k = h (Cause.belt_failed beat) refl
  arrive_at-Moves (some false) lost beat s go h l k = h lost l
  arrive_at-Moves (some true) lost beat s go h l k = k

  pub shuffle-Moves :
      (ok : Bool) (s : Sequencer)
      → ((why : Cause) → is_possible why ≡ true → P (fault_with why s))
      → Q (shift_downstream none s)
      → Moves P Q (shuffle ok s)
  shuffle-Moves true s h k = k
  shuffle-Moves false s h k = h (Cause.belt_failed s.beat) refl

-- A move of the belt keeps `P` if a fault does, and reaches `Q` if each way of moving does.
module _ (P Q : Sequencer → Type 0) (a : Answers) (s : Sequencer) where
  pub entry_beat-Moves :
      (m : Option String)
      → ((c : Call) (why : Cause) → is_possible why ≡ true → P (fault_with why (say c s)))
      → (someone s.occ.at_f1 ≡ true → P (fault_with Cause.f1_impossible s))
      → (nobody s.occ ≡ true → Q s)
      → ((c : Call) → m ≡ none → Q (shift_downstream none (say c s)))
      → ((c : Call) (x : String)
          → m ≡ some x
          → someone s.occ.at_f1 ≡ false
          → Q (shift_downstream (some x) (record (say c s) { pending_enterer = none })))
      → Moves P Q (entry_beat a m s)
  entry_beat-Moves none f f0 rests blind goes = if_elim (Moves P Q) (nobody s.occ) rests (λ _.
      shuffle-Moves P Q a.shuffled _ (f (Call.run_blind s.probe_slide))
        (blind (Call.run_blind s.probe_slide) refl))
  entry_beat-Moves (some x) f f0 rests blind goes =
      let call = Call.run_entry (is_some s.occ.at_o) in
      if_elim (Moves P Q) (someone s.occ.at_f1) f0 (λ e.
        arrive_at-Moves P Q a.arrival Cause.entry_lost s.beat (say call s) _ (f call) refl
          (goes call x refl e))

  pub retreat_beat-Moves :
      ((c : Call) (why : Cause) → is_possible why ≡ true → P (fault_with why (say c s)))
      → (someone s.occ.at_f2 ≡ false → Q s)
      → ((c : Call)
          → someone s.occ.at_f2 ≡ true
          → Q (record (say c s) {
            occ = pull Station.f2 Station.o (shift_one Station.o Station.f1 s.occ);
          }))
      → Moves P Q (retreat_beat a s)
  retreat_beat-Moves f rests goes =
      let call = Call.run_retreat (is_some s.occ.at_o) in
      if_elim (Moves P Q) (someone s.occ.at_f2)
        (λ e.
          arrive_at-Moves P Q a.arrival Cause.retreat_lost s.beat (say call s) _ (f call) refl
            (goes call e))
        rests

  pub return_beat-Moves :
      ((c : Call) (why : Cause) → is_possible why ≡ true → P (fault_with why (say c s)))
      → (someone s.occ.at_f2 ≡ true → P (fault_with Cause.f2_impossible s))
      → (nobody s.occ ≡ true → Q s)
      → ((c : Call) → Q (shift_downstream none (say c s)))
      → ((c : Call)
          → someone s.occ.at_f1 ≡ true
          → someone s.occ.at_f2 ≡ false
          → Q (record (say c s) {
            occ = pull Station.f1 Station.o (shift_one Station.o Station.f2 s.occ);
          }))
      → Moves P Q (return_beat a s)
  return_beat-Moves f f0 rests blind goes =
      let call = Call.run_return (is_some s.occ.at_o) in
      if_elim (Moves P Q) (someone s.occ.at_f1)
        (λ e. if_elim (Moves P Q) (someone s.occ.at_f2) f0 (λ e2.
          arrive_at-Moves P Q a.arrival Cause.return_lost s.beat (say call s) _ (f call) refl
            (goes call e e2)))
        (λ _.
          if_elim (Moves P Q) (nobody s.occ) rests
            (λ _. shuffle-Moves P Q a.shuffled _ (f (Call.run_blind 0)) (blind (Call.run_blind 0))))
