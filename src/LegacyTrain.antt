-- ===== src/LegacyTrain.antt =====
-- src/finishing_line/process/legacy_train.py: the manoeuvres of the legacy line, over its driver.
pub mod Feed
use mathlib.Core.Option
use finishing_line.Common.{
  Bool, List, Option, [], false, if◌then◌else◌, is_empty, ltb, none, not, some, true, ℕ, ◌*◌, ◌-◌,
  ◌/◌, ◌==◌, ◌∷◌,
}
use finishing_line.LegacyDriver.{
  Driver, Kinematics, Try, failed, feed_stop, fire_move, move_idle, passed, set_feed, ◌>>=◌,
}
use finishing_line.LegacyDriver.Maneuver.{Chain, Plan, Poll}
use finishing_line.LegacyDriver.Nudge.{Staging, stage_next}
use finishing_line.LegacyDriver.Transition.{transition_move}

-- `mm` is the number of units of length in a millimetre.
pub record LegacyTrain : Type 0 where
  pub driver : Driver
  pub mm : ℕ
  pub load_mm : ℕ
  pub pitch_mm : ℕ
  pub last_spacing : Option ℕ

abbrev pub in_train : LegacyTrain → Try Driver → Try LegacyTrain
in_train t (failed d) = failed (record t { driver = d })
in_train t (passed d) = passed (record t { driver = d })

-- The plans of the sensor-stopped moves.
abbrev pub pitch_plan : LegacyTrain → (downstream o_occupied pass_through : Bool) → Plan
pitch_plan t downstream o_occupied pass_through = record {
  mm = t.pitch_mm;
  downstream = downstream;
  stop_on_work_zero = true;
  stop_on_staging = false;
  o_occupied = o_occupied;
  pass_through = pass_through;
  feed = false;
  continuous = false;
  overshoot = 400 * t.mm;
  reapproach_cap = 60 * t.mm;
}

abbrev pub intake_plan : LegacyTrain → Plan
intake_plan t = record {
  mm = t.load_mm;
  downstream = true;
  stop_on_work_zero = false;
  stop_on_staging = true;
  o_occupied = false;
  pass_through = false;
  feed = true;
  continuous = false;
  overshoot = 400 * t.mm;
  reapproach_cap = 60 * t.mm;
}

abbrev pub entry_plan : LegacyTrain → (o_occupied : Bool) → Plan
entry_plan t o_occupied = pitch_plan t true o_occupied false

abbrev pub retreat_plan : LegacyTrain → (o_occupied : Bool) → Plan
retreat_plan t o_occupied = pitch_plan t false o_occupied true

abbrev pub return_plan : LegacyTrain → (o_occupied : Bool) → Plan
return_plan t o_occupied = pitch_plan t true o_occupied false

-- `_record`: the way that the belt ran in `seconds`, if the part arrived.
abbrev pub recorded : Kinematics → (seconds : ℕ) → Option Bool → LegacyTrain → LegacyTrain
recorded k seconds (some true) t = record t {
  last_spacing = some (seconds * k.velocity * k.per_units / k.steps_per);
}
recorded k seconds _ t = t

-- The sensor-stopped moves: the first read of the junction's eye, what the polls of the two loops see,
-- and the seconds that the move took. An intake is not recorded.
abbrev pub in_move : LegacyTrain → Try Chain → Try LegacyTrain
in_move t (failed c) = failed (record t { driver = c.driver })
in_move t (passed c) = passed (record t { driver = c.driver })

abbrev pub in_recorded : Kinematics → (seconds : ℕ) → LegacyTrain → Try Chain → Try LegacyTrain
in_recorded k seconds t (failed c) = failed (record t { driver = c.driver })
in_recorded k seconds t (passed c) =
    passed (recorded k seconds c.arrived (record t { driver = c.driver }))

unfoldable pub run_move :
    Kinematics
    → Plan
    → List Poll
    → List Poll
    → (seconds : ℕ) → LegacyTrain
    → Option (Try LegacyTrain)
unfolding transition_move
run_move k p polls again seconds t =
    Option.map (in_recorded k seconds t) (transition_move k p none polls again t.driver)

abbrev pub entry_move :
    Kinematics
    → (o_occupied : Bool) → List Poll
    → (seconds : ℕ) → LegacyTrain
    → Option (Try LegacyTrain)
entry_move k o_occupied polls seconds t = run_move k (entry_plan t o_occupied) polls [] seconds t

abbrev pub retreat_move :
    Kinematics
    → (o_occupied : Bool) → List Poll
    → List Poll
    → (seconds : ℕ) → LegacyTrain
    → Option (Try LegacyTrain)
retreat_move k o_occupied polls again seconds t =
    run_move k (retreat_plan t o_occupied) polls again seconds t

abbrev pub return_move :
    Kinematics
    → (o_occupied : Bool) → List Poll
    → (seconds : ℕ) → LegacyTrain
    → Option (Try LegacyTrain)
return_move k o_occupied polls seconds t = run_move k (return_plan t o_occupied) polls [] seconds t

unfoldable pub intake_move :
    Kinematics → Option Bool → List Poll → LegacyTrain → Option (Try LegacyTrain)
unfolding transition_move
intake_move k onload polls t =
    Option.map (in_move t) (transition_move k (intake_plan t) onload polls [] t.driver)

abbrev pub in_stage : LegacyTrain → Try Staging → Try LegacyTrain
in_stage t (failed s) = failed (record t { driver = s.driver })
in_stage t (passed s) = passed (record t { driver = s.driver })

unfoldable pub stage_move :
    Kinematics → Option Bool → List Poll → List Poll → LegacyTrain → Option (Try LegacyTrain)
unfolding stage_next
stage_move k onload polls later t =
    Option.map (in_stage t) (stage_next k true onload polls later t.driver)

-- A live watch's feed is suspended, and resumed only while the watch is live.
unfoldable pub feed_suspend : LegacyTrain → Try LegacyTrain × Bool
unfolding set_feed
feed_suspend t =
    if is_empty t.driver.feed_phases
    then (passed t, false)
    else (in_train t (set_feed false t.driver), true)

unfoldable pub feed_resume : LegacyTrain → Try LegacyTrain
unfolding set_feed
feed_resume t =
    if is_empty t.driver.feed_phases then passed t else in_train t (set_feed true t.driver)

-- `move_mm`: the move, and the polls for its end; `none` is a read that raises.
unfoldable pub wait_ready : List (Option Bool) → Driver → Try Driver
wait_ready [] d = failed d
wait_ready (none ∷ more) d = failed d
wait_ready (some true ∷ more) d = passed d
wait_ready (some false ∷ more) d = wait_ready more d

unfoldable pub move_mm :
    Kinematics → (mm : ℕ) → (downstream : Bool) → List (Option Bool) → Driver → Try Driver
unfolding fire_move wait_ready
move_mm k mm downstream polls d = fire_move k mm downstream d >>= wait_ready polls

-- `blind`: one spacing, less the way that the belt has made already. Nothing moves for a millimetre or
-- less; a difference below zero is 0 here.
abbrev pub spacing : LegacyTrain → ℕ
spacing t = elim (t.last_spacing) [ none ↦ t.pitch_mm | some s ↦ if s == 0 then t.pitch_mm else s ]

abbrev pub feed_if : Bool → Bool → Driver → Try Driver
feed_if test on d = if test then set_feed on d else passed d

unfoldable pub shuffle_by : Kinematics → ℕ → List (Option Bool) → Driver → Try Driver
unfolding set_feed move_mm
shuffle_by k distance polls d =
    let live = not (is_empty d.feed_phases) in
    feed_if live false d >>= move_mm k distance true polls >>= feed_if live true

unfoldable pub blind_move :
    Kinematics → (reduce_mm : ℕ) → List (Option Bool) → LegacyTrain → Try LegacyTrain
unfolding shuffle_by
blind_move k reduce_mm polls t =
    let distance = spacing t - reduce_mm in
    if ltb t.mm distance then in_train t (shuffle_by k distance polls t.driver) else passed t

-- `idle`
unfoldable pub stop_all : LegacyTrain → Try LegacyTrain
unfolding feed_stop move_idle
stop_all t = in_train t (feed_stop t.driver >>= move_idle)
