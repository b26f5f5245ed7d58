-- ===== src/Legacy/Transition.antt =====
-- The belt's move at the end of a beat (src/finishing_line/process/legacy_sequencer.py:
-- `_step_transition`, `_shift_downstream`).
use finishing_line.Common.{
  Bool, Dict, Option, String, [], false, if◌then◌else◌, is_empty, is_some, lookup, none, some, true,
  ◌&&◌, ◌++◌, ◌===◌, ◌∷◌,
}
use finishing_line.Legacy.{Ended, change, fault_with, say, set_f1, someone, went}
use finishing_line.Legacy.Types.{Answers, Call, Cause, Eyes, LegacyPhase, Sequencer, Setup}
use finishing_line.Model.{Beat, Occupancy, PartState, Station, get, nobody, set}
use finishing_line.Schedule.{next_beat}

-- `_shift_downstream`, a statement at a time.
abbrev pub finished : Option String → Sequencer → Sequencer
finished none s = s
finished (some part_id) s = record s {
  occ = set Station.f2 none s.occ;
  completed = if part_id === "" then s.completed else s.completed ++ (part_id ∷ []);
}

abbrev pub finish_f2 : Sequencer → Sequencer
finish_f2 s = finished s.occ.at_f2 s

-- `if occ.get(src): occ[dst] = occ.pop(src)`
abbrev pub shift_one : Station → Station → Occupancy → Occupancy
shift_one src dst t = if someone (get t src) then set dst (get t src) (set src none t) else t

abbrev pub enter : Option String → Occupancy → Occupancy
enter none t = t
enter (some part_id) t = set Station.o (some part_id) t

unfoldable pub shift_downstream : Option String → Sequencer → Sequencer
shift_downstream enterer s =
    let t = finish_f2 s in
    record t {
      occ = enter enterer (shift_one Station.f1 Station.o (shift_one Station.o Station.f2 t.occ));
    }

-- `occ[dst] = occ.pop(src)` for a part that is there.
abbrev pub pull : Station → Station → Occupancy → Occupancy
pull src dst t = set dst (get t src) (set src none t)

-- The belt's part of a transition goes on with the new state, or ends the step.
pub data Moved : Type 0 where
  ended moved : Sequencer → Moved

abbrev pub stops : Cause → Sequencer → Moved
stops why s = ended (fault_with why s)

-- A move that ends at the work-zero eye.
abbrev pub arrive_at : Option Bool → Cause → Beat → Sequencer → (Sequencer → Moved) → Moved
arrive_at none lost beat s go = stops (Cause.belt_failed beat) s
arrive_at (some false) lost beat s go = stops lost s
arrive_at (some true) lost beat s go = go s

-- A move without an arrival.
abbrev pub shuffle : Bool → Sequencer → Moved
shuffle ok s = if ok then moved (shift_downstream none s) else stops (Cause.belt_failed s.beat) s

abbrev pub enter_part : Answers → String → Sequencer → Moved
enter_part a enterer s =
    arrive_at a.arrival Cause.entry_lost s.beat (say (Call.run_entry (is_some s.occ.at_o)) s)
      (λ (t : Sequencer).
        moved (shift_downstream (some enterer) (record t { pending_enterer = none })))

abbrev pub entry_beat : Answers → Option String → Sequencer → Moved
entry_beat a none s =
    if nobody s.occ then moved s else shuffle a.shuffled (say (Call.run_blind s.probe_slide) s)
entry_beat a (some enterer) s =
    if someone s.occ.at_f1 then stops Cause.f1_impossible s else enter_part a enterer s

abbrev pub retreat_beat : Answers → Sequencer → Moved
retreat_beat a s =
    if someone s.occ.at_f2
    then arrive_at a.arrival Cause.retreat_lost s.beat
        (say (Call.run_retreat (is_some s.occ.at_o)) s)
        (λ (t : Sequencer).
          moved
            (record t { occ = pull Station.f2 Station.o (shift_one Station.o Station.f1 t.occ) }))
    else moved s

abbrev pub return_part : Answers → Sequencer → Moved
return_part a s =
    if someone s.occ.at_f2
    then stops Cause.f2_impossible s
    else arrive_at a.arrival Cause.return_lost s.beat (say (Call.run_return (is_some s.occ.at_o)) s)
        (λ (t : Sequencer).
          moved
            (record t { occ = pull Station.f1 Station.o (shift_one Station.o Station.f2 t.occ) }))

abbrev pub return_beat : Answers → Sequencer → Moved
return_beat a s =
    if someone s.occ.at_f1
    then return_part a s
    else if nobody s.occ
    then moved s
    else shuffle a.shuffled (say (Call.run_blind 0) s)

abbrev pub belt_at : Answers → Beat → Sequencer → Moved
belt_at a Beat.p1 s = entry_beat a s.pending_enterer s
belt_at a Beat.p2 s = retreat_beat a s
belt_at a Beat.p3 s = return_beat a s
belt_at a Beat.p4 s = entry_beat a s.pending_enterer s

unfoldable pub move_belt : Answers → Sequencer → Moved
unfolding shift_downstream fault_with nobody
move_belt a s = belt_at a s.beat s

-- The next beat begins; the outer `none` is a device call that raises, or a KeyError.
abbrev pub wet_at : Option PartState → Option Bool
wet_at none = none
wet_at (some p) = some p.is_wet

abbrev pub wants_f1 : Option String → Dict PartState → Option Bool
wants_f1 none parts = some false
wants_f1 (some part_id) parts = wet_at (lookup part_id parts)

abbrev pub resting_phase : Sequencer → LegacyPhase
resting_phase s =
    if nobody s.occ && is_empty s.queue then LegacyPhase.idle else LegacyPhase.robot_work

abbrev pub began : Sequencer × Bool → Ended
began (s, false) = none
began (s, true) = went (change (record s { phase = resting_phase s }))

abbrev pub begin_with : Setup → Answers → Option Bool → Sequencer → Ended
begin_with u a none s = none
begin_with u a (some on) s = began (set_f1 u a.fan_driven on s)

abbrev pub begin_seen : Setup → Answers → Option Eyes → Sequencer → Ended
begin_seen u a none s = none
begin_seen u a (some e) s =
    begin_with u a (wants_f1 s.occ.at_f1 s.parts)
      (record s { sensors = some e; beat = next_beat s.beat })

unfoldable pub begin_beat : Setup → Answers → Sequencer → Ended
unfolding set_f1 next_beat nobody
begin_beat u a s = begin_seen u a a.eyes_after (say Call.read_eyes (record s { probe_slide = 0 }))

abbrev pub after_move : Setup → Answers → Moved → Ended
after_move u a (ended s) = some (s, s.fault)
after_move u a (moved s) = begin_beat u a s

unfoldable pub step_transition : Setup → Answers → Sequencer → Ended
unfolding move_belt begin_beat
step_transition u a s = after_move u a (move_belt a s)
