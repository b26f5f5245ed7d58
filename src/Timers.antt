-- ===== src/Timers.antt =====
-- src/finishing_line/core/timers.py: a flash timer advances only while its part stands at a fan
-- station whose fan runs.
use finishing_line.Common.{
  Bool, Dict, Option, false, if◌then◌else◌, insert, leb, none, some, true, ℕ, ◌&&◌, ◌==◌,
}
use finishing_line.Config.{ProcessConfig}
use finishing_line.Model.{
  FanState, LineState, PartState, Station, active_flash_seconds, fan_state, part_at,
  with_flash_advanced,
}

unfoldable pub flash_complete : PartState → ProcessConfig → Bool
unfolding active_flash_seconds
flash_complete p cfg = leb cfg.flash_seconds (active_flash_seconds p)

unfoldable pub may_receive_coat_2 : PartState → ProcessConfig → Bool
may_receive_coat_2 p cfg = p.coats_applied == 1 && leb cfg.flash_seconds p.flash_1_s

unfoldable pub may_outfeed : PartState → ProcessConfig → Bool
may_outfeed p cfg = leb cfg.coats p.coats_applied && leb cfg.flash_seconds p.flash_2_s

unfoldable pub may_leave_fan : PartState → ProcessConfig → Bool
unfolding flash_complete
may_leave_fan p cfg = if p.coats_applied == 0 then true else flash_complete p cfg

abbrev pub runs : Option FanState → Bool
runs (some FanState.on) = true
runs _ = false

-- A part at a running fan: `dt` more seconds, and dry once its flash is complete.
unfoldable pub dried : PartState → ℕ → ProcessConfig → PartState
unfolding with_flash_advanced flash_complete
dried p dt cfg =
    let advanced = with_flash_advanced p dt in
    if advanced.is_wet && flash_complete advanced cfg
    then record advanced { is_wet = false }
    else advanced

-- The body of the loop over the fan stations, for the part that stands at one.
unfoldable pub bank_part : Option PartState → ℕ → ProcessConfig → Dict PartState → Dict PartState
unfolding dried
bank_part none dt cfg parts = parts
bank_part (some p) dt cfg parts =
    if p.coats_applied == 0 then parts else insert p.part_id (dried p dt cfg) parts

unfoldable pub bank_at : LineState → ℕ → ProcessConfig → Station → Dict PartState → Dict PartState
unfolding bank_part fan_state part_at
bank_at s dt cfg station parts =
    if runs (fan_state s station) then bank_part (part_at s station) dt cfg parts else parts

unfoldable pub advance_flash_timers : LineState → ℕ → ProcessConfig → Dict PartState
unfolding bank_at
advance_flash_timers s dt cfg = bank_at s dt cfg Station.f2 (bank_at s dt cfg Station.f1 s.parts)
