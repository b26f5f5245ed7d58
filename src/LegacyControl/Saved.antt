-- ===== src/LegacyControl/Saved.antt =====
-- The state of the legacy line over a restart (src/finishing_line/process/legacy_controller.py:
-- `_save`, `_restore`).
use finishing_line.Common.{ap, arith, false, is_some, refl, some, true, ◌≡◌}
use finishing_line.Legacy.{Cause, LegacyPhase, Sequencer}
use finishing_line.Model.{Station, get, nobody}
use finishing_line.LegacyControl.{held_up, legacy_restore, legacy_save}
use finishing_line.Persistence.Roundtrip.{EntriesKeyed, occupancy-round, parts-round}

-- What a restart keeps of a sequencer: the rest is as it was built.
abbrev pub kept_of : Sequencer → Sequencer → Sequencer
kept_of s built = record built {
  declared = s.declared;
  minted = s.minted;
  pairs = s.pairs;
  intake_product = s.intake_product;
  beat = s.beat;
  queue = s.queue;
  completed = s.completed;
  occ = s.occ;
  parts = s.parts;
}

-- What `t` keeps of a line `s` that was saved, over a line that was newly built.
pub record IsRestored (s built t : Sequencer) : Type 0 where
  pub same_declared : t.declared ≡ s.declared
  pub same_minted : t.minted ≡ s.minted
  pub same_pairs : t.pairs ≡ s.pairs
  pub same_product : t.intake_product ≡ s.intake_product
  pub same_beat : t.beat ≡ s.beat
  pub same_queue : t.queue ≡ s.queue
  pub same_completed : t.completed ≡ s.completed
  pub same_occ : t.occ ≡ s.occ
  pub same_parts : t.parts ≡ s.parts
  pub no_enterer : t.pending_enterer ≡ built.pending_enterer
  pub held :
      (station : Station)
      → is_some (get s.occ station) ≡ true
      → (t.phase ≡ LegacyPhase.faulted) × (t.fault ≡ some Cause.restarted_occupied)
  pub ready :
      ((station : Station) → is_some (get s.occ station) ≡ false)
      → (t.phase ≡ built.phase) × (t.fault ≡ built.fault)

held_up-occupied :
    (t : Sequencer) (station : Station)
    → is_some (get t.occ station) ≡ true
    → ((held_up t).phase ≡ LegacyPhase.faulted)
      × ((held_up t).fault ≡ some Cause.restarted_occupied)
unfolding nobody
held_up-occupied t Station.inq h = ground arith
held_up-occupied t Station.f1 h = ground arith
held_up-occupied t Station.o h = ground arith
held_up-occupied t Station.f2 h = ground arith
held_up-occupied t Station.out h = ground arith

held_up-empty :
    (t : Sequencer) → ((station : Station) → is_some (get t.occ station) ≡ false) → held_up t ≡ t
unfolding nobody
held_up-empty t h =
    ground (arith, h Station.inq, h Station.f1, h Station.o, h Station.f2, h Station.out)

held_up-IsRestored : (s built : Sequencer) → IsRestored s built (held_up (kept_of s built))
held_up-IsRestored s built = record {
  same_declared = ground arith;
  same_minted = ground arith;
  same_pairs = ground arith;
  same_product = ground arith;
  same_beat = ground arith;
  same_queue = ground arith;
  same_completed = ground arith;
  same_occ = ground arith;
  same_parts = ground arith;
  no_enterer = ground arith;
  held = λ station h. held_up-occupied (kept_of s built) station h;
  ready = λ h.
      let same = held_up-empty (kept_of s built) h in
      (ap (λ (t : Sequencer). t.phase) same, ap (λ (t : Sequencer). t.fault) same);
}

-- In a table whose entries stand under their parts' ids, what was saved is read back: the parts, where
-- they stand, the queue, the finished parts, the beat, the product and the counters. A line with a
-- part at a station comes up faulted, and one with none in the phase in which it was built. What is
-- not saved is as it was built: so a part that had left the queue and not yet reached O, which only
-- `pending_enterer` names, is in no place any more.
pub legacy_restore-legacy_save :
    (s built : Sequencer)
    → EntriesKeyed s.parts
    → (t : Sequencer) × (legacy_restore (legacy_save s) built ≡ some t) × IsRestored s built t
unfolding legacy_restore legacy_save
legacy_restore-legacy_save s built k = (
  held_up (kept_of s built),
  rw (parts-round s.parts k, occupancy-round s.occ) refl,
  held_up-IsRestored s built,
)
