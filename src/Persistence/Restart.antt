-- ===== src/Persistence/Restart.antt =====
-- What a restart makes of a line (src/finishing_line/process/persistence.py: `as_restored`).
use finishing_line.Common.{
  Bool, Bool-cases, Dict, List, String, [], arith, false, if_elim, if◌then◌else◌, inl, inr,
  is_empty, is_some, none, opt_eq_sound, refl, some, true, ◌&&◌, ◌≡◌,
}
use finishing_line.Config.{ProcessConfig}
use finishing_line.Discipline.{Holds, IsDisciplined, IsDisciplinedIn, IsStart, Stage, at_fault}
use finishing_line.Machine.{is_faulted}
use finishing_line.Model.{
  Beat, LineState, Move, Occupancy, PartState, Phase, Reason, nobody, part_of,
}
use finishing_line.Persistence.{as_restored}

-- Whether a line has nothing on it and nothing in its table.
abbrev pub is_bare : LineState → Bool
is_bare s = is_empty s.parts && nobody s.occupancy && is_empty s.in_queue

-- A restarted controller never resumes by itself: a bare line starts its work phase with no fault,
-- and any other line is faulted with a reason; the parts and where they are stay as they were saved.
pub as_restored-waits :
    (s : LineState)
    → ((is_bare s ≡ true
          → ((as_restored s).phase ≡ Phase.robot_work) × ((as_restored s).fault ≡ none))
        × (is_bare s ≡ false
            → ((as_restored s).phase ≡ Phase.faulted) × (is_some (as_restored s).fault ≡ true)))
      × ((as_restored s).parts ≡ s.parts)
      × ((as_restored s).occupancy ≡ s.occupancy)
      × ((as_restored s).in_queue ≡ s.in_queue)
      × ((as_restored s).pending ≡ [])
      × ((as_restored s).beat ≡ s.beat)
unfolding as_restored nobody
as_restored-waits s = (
  (λ h. ground arith, λ h. ground arith),
  ground arith,
  ground arith,
  ground arith,
  ground arith,
  ground arith,
)

Stage-stopped :
    (phase : Phase) (cfg : ProcessConfig) (beat : Beat) (t : Occupancy) (parts : Dict PartState)
    (queue : List String) (in_flight : List Move)
    → Stage phase cfg beat t parts queue in_flight
    → Stage phase cfg beat t parts queue []
Stage-stopped Phase.robot_work cfg beat t parts queue in_flight (e, h) = (refl, h)
Stage-stopped Phase.await_guards cfg beat t parts queue in_flight (e, h) = (refl, h)
Stage-stopped Phase.shutter_open cfg beat t parts queue in_flight (e, h) = (refl, h)
Stage-stopped Phase.moving cfg beat t parts queue in_flight (e, h) = (inl refl, h)
Stage-stopped Phase.shutter_close cfg beat t parts queue in_flight (e, h) = (refl, h)
Stage-stopped Phase.set_fans cfg beat t parts queue in_flight (e, h) = (refl, h)
Stage-stopped Phase.faulted cfg beat t parts queue in_flight h = h

-- With the moves under way forgotten, what a phase says of the parts still holds.
Holds-stopped :
    (phase : Phase) (cfg : ProcessConfig) (s : LineState)
    → IsDisciplinedIn phase cfg s
    → Holds phase cfg s.beat s.occupancy s.parts s.in_queue []
Holds-stopped phase cfg s d = record {
  keyed = d.keyed;
  slots = d.slots;
  held = d.held;
  queued = d.queued;
  stage = Stage-stopped phase cfg s.beat s.occupancy s.parts s.in_queue s.in_flight d.stage;
}

faulted-at :
    (cfg : ProcessConfig) (s : LineState)
    → IsDisciplined cfg s
    → (is_faulted s.phase ≡ false → s.fault ≡ none)
    → is_some s.fault ≡ true
    → IsDisciplinedIn (at_fault s.fault_phase) cfg s
faulted-at cfg s d g has_fault = elim (Bool-cases (is_faulted s.phase)) [
  | inl e ↦ rw e at d
  | inr e ↦ absurd (ground (arith, g e))
]

running-at :
    (cfg : ProcessConfig) (s : LineState)
    → IsDisciplined cfg s
    → (is_faulted s.phase ≡ true → is_some s.fault ≡ true)
    → is_some s.fault ≡ false
    → IsDisciplinedIn s.phase cfg s
running-at cfg s d f no_fault = elim (Bool-cases (is_faulted s.phase)) [
  | inl e ↦ absurd (ground (arith, f e))
  | inr e ↦ rw e at d
]

empty-IsStart :
    (cfg : ProcessConfig) (beat : Beat) (t : Occupancy) (parts : Dict PartState)
    → t.at_f1 ≡ none
    → t.at_o ≡ none
    → t.at_f2 ≡ none
    → IsStart cfg beat t parts
unfolding part_of
empty-IsStart cfg Beat.p1 t parts a b c = rw a (rw b (rw c (tt, (tt, tt, tt))))
empty-IsStart cfg Beat.p2 t parts a b c = rw a (rw b (rw c (refl, (tt, tt))))
empty-IsStart cfg Beat.p3 t parts a b c = rw a (rw b (rw c (refl, (tt, tt))))
empty-IsStart cfg Beat.p4 t parts a b c = rw a (rw b (rw c (tt, (tt, tt, tt))))

nobody-empty :
    (t : Occupancy) → nobody t ≡ true → (t.at_f1 ≡ none) × (t.at_o ≡ none) × (t.at_f2 ≡ none)
unfolding nobody
nobody-empty t h =
    ground (arith, opt_eq_sound t.at_f1 none, opt_eq_sound t.at_o none, opt_eq_sound t.at_f2 none)

bare-IsDisciplined :
    (cfg : ProcessConfig) (s : LineState)
    → IsDisciplined cfg s
    → is_bare s ≡ true
    → Holds Phase.robot_work cfg s.beat s.occupancy s.parts s.in_queue []
bare-IsDisciplined cfg s d bare =
    let (a, b, c) = nobody-empty s.occupancy (ground arith) in
    record {
      keyed = d.keyed;
      slots = d.slots;
      held = d.held;
      queued = d.queued;
      stage = (refl, inl (empty-IsStart cfg s.beat s.occupancy s.parts a b c));
    }

-- A restart keeps the flash discipline of an orderly line: what was known of the parts in the saved
-- phase is known of them in the phase of the fault.
pub as_restored-IsDisciplined :
    (cfg : ProcessConfig) (s : LineState)
    → IsDisciplined cfg s
    → (is_faulted s.phase ≡ true → is_some s.fault ≡ true)
    → (is_faulted s.phase ≡ false → s.fault ≡ none)
    → IsDisciplined cfg (as_restored s)
unfolding as_restored
as_restored-IsDisciplined cfg s d f g =
    let t = record s { pending = []; in_flight = [] } in
    if_elim (IsDisciplined cfg) (is_empty s.parts && nobody s.occupancy && is_empty s.in_queue)
      {x = record t { phase = Phase.robot_work; fault = none; fault_phase = none }}
      {y = if is_some s.fault then record t { phase = Phase.faulted } else record t {
        fault_phase = some s.phase;
        phase = Phase.faulted;
        fault = some Reason.restarted;
      }}
      (λ bare. bare-IsDisciplined cfg s d bare)
      λ _.
        if_elim (IsDisciplined cfg) (is_some s.fault) {x = record t { phase = Phase.faulted }}
          {y = record t {
            fault_phase = some s.phase;
            phase = Phase.faulted;
            fault = some Reason.restarted;
          }}
          (λ has_fault.
            Holds-stopped (at_fault s.fault_phase) cfg s (faulted-at cfg s d g has_fault))
          λ no_fault. Holds-stopped s.phase cfg s (running-at cfg s d f no_fault)
