-- ===== src/LegacyControl.antt =====
-- src/finishing_line/process/legacy_controller.py: the operator's commands, the loop that runs the
-- sequencer, and the state that is kept over a restart. The JSON value is a record; what the code
-- copies as it is keeps its type.
pub mod Operator
pub mod Rules
pub mod Saved
use finishing_line.Common.{
  Bool, Dict, List, Option, String, [], false, if◌then◌else◌, ltb, none, not, some, true, ℕ, ◌&&◌,
  ◌-◌, ◌||◌,
}
use finishing_line.Legacy.{
  Answers, Call, Cause, Ended, FanKind, LegacyPhase, Sequencer, Setup, StageNote, bank, fault_with,
  say,
}
use finishing_line.Legacy.Step.{is_legacy_faulted, legacy_step}
use finishing_line.Model.{Beat, Occupancy, PartState, Product, nobody}
use finishing_line.Persistence.{
  PartSnapshot, empty_occupancy, occupancy_entries, parts_snapshot, read_occupancy, read_parts,
}

pub record LegacyControl : Type 0 where
  pub seq : Sequencer
  pub enabled : Bool
  pub halt_reason : Option String
  pub blocked : Option Cause
  pub last_save : ℕ
  pub feed_paused : Bool

-- The fields that `data.get` reads with a default are optional.
pub record LegacySnapshot : Type 0 where
  pub declared : ℕ
  pub minted : Option ℕ
  pub pairs : Option ℕ
  pub intake_product : Option Product
  pub beat : Beat
  pub queue : List String
  pub completed : List String
  pub occupancy : Dict String
  pub parts : Dict PartSnapshot

-- `_save`
unfoldable pub legacy_save : Sequencer → LegacySnapshot
unfolding occupancy_entries parts_snapshot
legacy_save s = record {
  declared = s.declared;
  minted = some s.minted;
  pairs = some s.pairs;
  intake_product = some s.intake_product;
  beat = s.beat;
  queue = s.queue;
  completed = s.completed;
  occupancy = occupancy_entries s.occ;
  parts = parts_snapshot s.parts;
}

-- `_restore`, on the sequencer that was just built; `none` is a KeyError or a ValueError of a text
-- that names nothing.
abbrev pub get_or {ℓ} : {A : Type ℓ} → A → Option A → A
get_or a none = a
get_or a (some b) = b

abbrev pub held_up : Sequencer → Sequencer
held_up s =
    if nobody s.occ
    then s
    else record s { fault = some Cause.restarted_occupied; phase = LegacyPhase.faulted }

abbrev pub restored_with :
    LegacySnapshot → Sequencer → Option (Dict PartState) → Option Occupancy → Option Sequencer
restored_with d s none occ = none
restored_with d s (some parts) none = none
restored_with d s (some parts) (some occ) = some (
    held_up (record s {
      declared = d.declared;
      minted = get_or 0 d.minted;
      pairs = get_or 0 d.pairs;
      intake_product = get_or s.intake_product d.intake_product;
      beat = d.beat;
      queue = d.queue;
      completed = d.completed;
      occ = occ;
      parts = parts;
    }))

unfoldable pub legacy_restore : LegacySnapshot → Sequencer → Option Sequencer
unfolding read_parts read_occupancy nobody
legacy_restore d s =
    restored_with d s (read_parts d.parts) (read_occupancy d.occupancy empty_occupancy)

abbrev pub is_always_on : FanKind → Bool
is_always_on FanKind.always_on = true
is_always_on _ = false

-- The sequencer that `LegacySequencer.__init__` builds, at a time.
unfoldable pub new_sequencer : Setup → Product → ℕ → Sequencer
new_sequencer u product now = record {
  parts = [];
  occ = empty_occupancy;
  queue = [];
  completed = [];
  declared = 0;
  intake_product = product;
  minted = 0;
  pairs = 0;
  pending_enterer = none;
  pending_clean = false;
  probe_slide = 0;
  beat = Beat.p1;
  phase = LegacyPhase.idle;
  fault = none;
  stage_note = StageNote.no_note;
  f1_commanded = is_always_on u.f1_mode.kind;
  last_bank = now;
  sensors = none;
  dirty = false;
  calls = [];
}

-- `__init__`: what the file has, if there is one, and both belts stopped.
abbrev pub newly_built : Sequencer → LegacyControl
newly_built s = record {
  seq = say Call.stop_belts s;
  enabled = false;
  halt_reason = none;
  blocked = none;
  last_save = 0;
  feed_paused = false;
}

abbrev pub boot_with : Option Sequencer → Option LegacyControl
boot_with none = none
boot_with (some s) = some (newly_built s)

unfoldable pub legacy_boot : Sequencer → Option LegacySnapshot → Option LegacyControl
unfolding legacy_restore
legacy_boot s none = some (newly_built s)
legacy_boot s (some d) = boot_with (legacy_restore d s)

-- `halt_now` makes a fault of the reason; the belts stop, and a suspended feed with them.
abbrev pub take_reason : LegacyControl → Option String → LegacyControl
take_reason c none = c
take_reason c (some reason) = record c {
  halt_reason = none;
  enabled = false;
  seq = fault_with (Cause.halted_for reason) c.seq;
  feed_paused = false;
}

-- One pass of `_loop`. A halt that was asked for takes effect before the step.
unfoldable pub take_halt : LegacyControl → LegacyControl
unfolding fault_with
take_halt c = take_reason c c.halt_reason

abbrev pub runs_now : LegacyControl → Bool
runs_now c = c.enabled && not (is_legacy_faulted c.seq.phase)

abbrev pub with_step : LegacyControl → Ended → Option LegacyControl
with_step c none = none
with_step c (some (s, why)) = some (record c { seq = s; blocked = why })

-- A running line resumes a feed that the pause suspended.
abbrev pub unpaused : LegacyControl → LegacyControl
unpaused c =
    if c.feed_paused then record c { feed_paused = false; seq = say Call.resume_feed c.seq } else c

-- A line that does not run suspends the feed and goes on banking; an exception of the suspension is
-- passed over.
abbrev pub pause_with : LegacyControl → Option Bool → LegacyControl
pause_with c none = record c { seq = say Call.suspend_feed c.seq }
pause_with c (some paused) = record c { seq = say Call.suspend_feed c.seq; feed_paused = paused }

abbrev pub pause_feed : Answers → LegacyControl → LegacyControl
pause_feed a c = if c.feed_paused then c else pause_with c a.suspended

abbrev pub with_bank : LegacyControl → Option Sequencer → Option LegacyControl
with_bank c none = none
with_bank c (some s) = some (record c { seq = s })

unfoldable pub run_or_rest : Setup → Answers → LegacyControl → Option LegacyControl
unfolding legacy_step bank
run_or_rest u a c =
    if runs_now c
    then with_step (unpaused c) (legacy_step u a (unpaused c).seq)
    else with_bank (pause_feed a c) (bank u a.now (pause_feed a c).seq)

-- What is written at the end of the pass, if anything.
abbrev pub save_at :
    (save_every now : ℕ) → Option LegacyControl → Option (LegacyControl × Option LegacySnapshot)
save_at save_every now none = none
save_at save_every now (some c) =
    if c.seq.dirty || ltb save_every (now - c.last_save)
    then some (
      record c { seq = record (c.seq) { dirty = false }; last_save = now },
      some (legacy_save c.seq),
    )
    else some (c, none)

unfoldable pub legacy_pass :
    Setup
    → Answers
    → (save_every now : ℕ) → LegacyControl
    → Option (LegacyControl × Option LegacySnapshot)
unfolding take_halt run_or_rest legacy_save
legacy_pass u a save_every now c = save_at save_every now (run_or_rest u a (take_halt c))
