-- ===== src/Flow.antt =====
-- The flow of parts that the tables of src/finishing_line/core/schedule.py make, with the shift of
-- the occupancy map (src/finishing_line/core/machine.py: `_apply_moves`).
use finishing_line.Common.{List, String, arith, none, refl, remove, some, ◌∷◌, ◌≡◌, ◌≢◌}
use finishing_line.Machine.{apply_moves}
use finishing_line.Model.{Beat, LineState, Station, has_move}
use finishing_line.Schedule.{next_beat, outfeed_transitions, transitions}

-- The line after the transition of a beat.
abbrev pub advanced : LineState → Beat → LineState
advanced s beat = apply_moves s (transitions beat).moves

abbrev pub after_period : LineState → LineState
after_period s = advanced (advanced (advanced (advanced s Beat.p1) Beat.p2) Beat.p3) Beat.p4

-- Four beats, from P1 on, with a lead at O, its trail at F1 and the last trail at F2, take two parts
-- off the line, the last trail and the lead, and two in: the lead's trail is at F2, the next pair's
-- lead is at O and its trail at F1, and the two that went out are out of the table.
pub period :
    (s : LineState) (lead trail last next_lead next_trail : String) (queue : List String)
    → s.occupancy ≡ record {
      at_in = none;
      at_f1 = some trail;
      at_o = some lead;
      at_f2 = some last;
      at_out = none;
    }
    → s.in_queue ≡ next_lead ∷ next_trail ∷ queue
    → ((after_period s).occupancy ≡ record {
      at_in = none;
      at_f1 = some next_trail;
      at_o = some next_lead;
      at_f2 = some trail;
      at_out = none;
    })
      × ((after_period s).in_queue ≡ queue)
      × ((after_period s).parts ≡ remove lead (remove last s.parts))
unfolding apply_moves transitions
period s lead trail last next_lead next_trail queue here waiting = ground arith

-- After four beats the schedule is at the same beat again, and after fewer it is not.
pub next_beat-period :
    (b : Beat)
    → (next_beat (next_beat (next_beat (next_beat b))) ≡ b)
      × (next_beat b ≢ b)
      × (next_beat (next_beat b) ≢ b)
      × (next_beat (next_beat (next_beat b)) ≢ b)
unfolding next_beat
next_beat-period Beat.p1 = (refl, λ e. ground arith, λ e. ground arith, λ e. ground arith)
next_beat-period Beat.p2 = (refl, λ e. ground arith, λ e. ground arith, λ e. ground arith)
next_beat-period Beat.p3 = (refl, λ e. ground arith, λ e. ground arith, λ e. ground arith)
next_beat-period Beat.p4 = (refl, λ e. ground arith, λ e. ground arith, λ e. ground arith)

-- `outfeed_transitions` are the beats whose transition moves a part from F2 to OUT.
pub outfeed_transitions-exact :
    (b : Beat) → outfeed_transitions b ≡ has_move Station.f2 Station.out (transitions b).moves
unfolding outfeed_transitions has_move transitions
outfeed_transitions-exact Beat.p1 = refl
outfeed_transitions-exact Beat.p2 = refl
outfeed_transitions-exact Beat.p3 = refl
outfeed_transitions-exact Beat.p4 = refl
