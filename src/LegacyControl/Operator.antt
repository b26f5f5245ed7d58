-- ===== src/LegacyControl/Operator.antt =====
-- The operator's commands to the legacy line (src/finishing_line/process/legacy_controller.py:
-- `set_running`, `halt`, `ack_fault`).
use finishing_line.Common.{
  Bool, Dict, Option, String, [], false, if◌then◌else◌, none, some, true, ◌===◌, ◌∷◌,
}
use finishing_line.Legacy.{Cause, Sequencer}
use finishing_line.Legacy.Commands.{clear_line, legacy_confirm}
use finishing_line.Legacy.Step.{is_legacy_faulted}
use finishing_line.LegacyControl.{LegacyControl}
use finishing_line.Model.{Beat, Occupancy, Station, nobody, set}
use finishing_line.Persistence.{empty_occupancy}
use finishing_line.Texts.{station_of}

abbrev pub legacy_running : Bool → LegacyControl → LegacyControl
legacy_running enabled c = record c { enabled = enabled }

abbrev pub legacy_halt : String → LegacyControl → LegacyControl
legacy_halt reason c = record c { halt_reason = some reason }

-- `ack_fault`. `upper` is `str.upper`; the outer `none` is the KeyError of a name of no station.
abbrev pub confirmed_at :
    Option Station → String → Occupancy → (Occupancy → Option Occupancy) → Option Occupancy
confirmed_at none part_id t rest = none
confirmed_at (some station) part_id t rest = rest (set station (some part_id) t)

unfoldable pub confirmed : (String → String) → Dict String → Occupancy → Option Occupancy
unfolding station_of
confirmed upper [] t = some t
confirmed upper ((name, part_id) ∷ entries) t =
    let rest = confirmed upper entries in
    if part_id === "" then rest t else confirmed_at (station_of (upper name)) part_id t rest

abbrev pub confirm_answer :
    LegacyControl → Sequencer × Option Cause → LegacyControl × Bool × Option Cause
confirm_answer c (s, none) = (record c { seq = s }, true, none)
confirm_answer c (s, some why) = (record c { seq = s }, false, some why)

abbrev pub ack_with :
    LegacyControl → Option Beat → Option Occupancy → Option (LegacyControl × Bool × Option Cause)
ack_with c beat none = none
ack_with c beat (some t) = some (
    if nobody t
    then (record c { seq = clear_line c.seq }, true, none)
    else confirm_answer c (legacy_confirm t beat c.seq))

unfoldable pub legacy_ack :
    (String → String)
    → Dict String
    → Option Beat
    → LegacyControl
    → Option (LegacyControl × Bool × Option Cause)
unfolding confirmed clear_line legacy_confirm nobody
legacy_ack upper entries beat c =
    if is_legacy_faulted c.seq.phase
    then ack_with c beat (confirmed upper entries empty_occupancy)
    else some (c, false, some Cause.line_not_faulted)
