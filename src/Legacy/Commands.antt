-- ===== src/Legacy/Commands.antt =====
-- The commands to the sequencer (src/finishing_line/process/legacy_sequencer.py: `declare_batch`,
-- `clear_line`, `confirm_occupancy`, `set_intake_product`).
use finishing_line.Common.{
  Bool, Dict, List, Option, String, [], contains, false, has, if◌then◌else◌, insert, is_empty, none,
  not, remove, some, true, ◌++◌, ◌+◌, ◌||◌, ◌∷◌,
}
use finishing_line.Controller.{declare_part}
use finishing_line.Legacy.{change}
use finishing_line.Legacy.Types.{Cause, LegacyPhase, Sequencer}
use finishing_line.Model.{Beat, Occupancy, PartState, Product, new_line, nobody}

-- The loop of `declare_batch`; `false` is the ValueError of an id that exists. What the loop did
-- before it raised stays.
unfoldable pub declare_parts : Product → List String → Sequencer → Sequencer × Bool
declare_parts product [] s = (s, true)
declare_parts product (part_id ∷ part_ids) s =
    let rest = declare_parts product part_ids (record s {
      parts = insert part_id (declare_part product s.declared part_id) s.parts;
      declared = s.declared + 1;
      queue = s.queue ++ (part_id ∷ []);
    }) in
    if has part_id s.parts || contains part_id s.queue then (s, false) else rest

abbrev pub declared_all : Sequencer × Bool → Sequencer × Bool
declared_all (s, true) = (change s, true)
declared_all (s, false) = (s, false)

unfoldable pub legacy_declare : Product → List String → Sequencer → Sequencer × Bool
unfolding declare_parts
legacy_declare product part_ids s = declared_all (declare_parts product part_ids s)

unfoldable pub set_intake_product : Product → Sequencer → Sequencer
set_intake_product product s = change (record s { intake_product = product })

-- `clear_line`: the parts on the belt go.
abbrev pub forget : Option String → Dict PartState → Dict PartState
forget none parts = parts
forget (some part_id) parts = remove part_id parts

unfoldable pub forget_all : Occupancy → Dict PartState → Dict PartState
forget_all t parts =
    forget t.at_out (forget t.at_f2 (forget t.at_o (forget t.at_f1 (forget t.at_in parts))))

unfoldable pub clear_line : Sequencer → Sequencer
unfolding forget_all
clear_line s = change (record s {
  parts = forget_all s.occ s.parts;
  occ = new_line.occupancy;
  fault = none;
  phase = LegacyPhase.idle;
})

-- `confirm_occupancy`: the ids that are not known reject it.
abbrev pub unknown_at : Dict PartState → Option String → List String → List String
unknown_at parts none more = more
unknown_at parts (some part_id) more = if has part_id parts then more else part_id ∷ more

unfoldable pub unknown_of : Occupancy → Dict PartState → List String
unknown_of t parts = unknown_at parts t.at_in (
    unknown_at parts t.at_f1
      (unknown_at parts t.at_o (unknown_at parts t.at_f2 (unknown_at parts t.at_out []))))

abbrev pub beat_or : Beat → Option Beat → Beat
beat_or beat none = beat
beat_or _ (some beat) = beat

unfoldable pub legacy_confirm : Occupancy → Option Beat → Sequencer → Sequencer × Option Cause
unfolding unknown_of nobody
legacy_confirm t beat s =
    let unknown = unknown_of t s.parts in
    if not (is_empty unknown) then (s, some (Cause.unknown_ids unknown)) else (
      change (record s {
        occ = t;
        beat = beat_or s.beat beat;
        fault = none;
        phase = if nobody t then LegacyPhase.idle else LegacyPhase.robot_work;
      }),
      none,
    )
