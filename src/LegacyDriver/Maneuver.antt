-- ===== src/LegacyDriver/Maneuver.antt =====
-- A sensor-stopped move of the legacy belt (src/finishing_line/devices/legacy_clearcore.py:
-- `transition_move`).
use finishing_line.Common.{
  Bool, List, Option, [], false, if◌then◌else◌, is_empty, none, not, some, true, ℕ, ◌&&◌, ◌++◌, ◌+◌,
  ◌||◌, ◌∷◌,
}
use finishing_line.LegacyDriver.{
  Driver, Edge, Kinematics, Try, edge_seen, failed, feed_tick, fire_move, move_continuous,
  move_idle, passed, set_feed,
}

-- The arguments of the call; `mm` is the length of the nominal way, with its direction.
pub record Plan : Type 0 where
  pub mm : ℕ
  pub downstream : Bool
  pub stop_on_work_zero : Bool
  pub stop_on_staging : Bool
  pub o_occupied : Bool
  pub pass_through : Bool
  pub feed : Bool
  pub continuous : Bool
  pub overshoot : ℕ
  pub reapproach_cap : ℕ

-- What one pass of the polling loop reads; `none` is a read that raises. `late` says whether the
-- deadline has passed.
pub record Poll : Type 0 where
  pub late : Bool
  pub work_zero : Option Bool
  pub at_staging : Option Bool
  pub at_onload : Option Bool
  pub ready : Option Bool

-- The loop's variables.
pub record Chain : Type 0 where
  pub driver : Driver
  pub wz_phases : List Edge
  pub arrived : Option Bool
  pub chain_phases : List Edge
  pub entered : Option Bool

abbrev pub in_chain : Chain → Try Driver → Try Chain
in_chain c (failed d) = failed (record c { driver = d })
in_chain c (passed d) = passed (record c { driver = d })

abbrev pub park : Chain → Try Chain
park c = let t = record c { arrived = some true } in in_chain t (move_idle c.driver)

abbrev pub park_if_done : List Edge → Chain → Try Chain
park_if_done [] c = park c
park_if_done (_ ∷ _) c = passed c

-- The eye at work-zero.
abbrev pub wz_step : Option Bool → List Edge → Chain → Try Chain
wz_step seen [] c = passed c
wz_step none (e ∷ rest) c = failed c
wz_step (some seen) (e ∷ rest) c =
    if edge_seen e seen then park_if_done rest (record c { wz_phases = rest }) else passed c

-- The eye at the staging place.
abbrev pub is_false : Option Bool → Bool
is_false (some false) = true
is_false _ = false

abbrev pub staging_with : Option Bool → Chain → Try Chain
staging_with none c = failed c
staging_with (some seen) c = if seen then park c else passed c

abbrev pub staging_step : Bool → Option Bool → Chain → Try Chain
staging_step stop seen c = if stop && is_false c.arrived then staging_with seen c else passed c

-- The eye at the junction: the move's own chain, or else the watch that it has inherited.
abbrev pub cut_chain : List Edge → Chain → Try Chain
cut_chain [] c = in_chain (record c { entered = some true }) (set_feed false c.driver)
cut_chain (_ ∷ _) c = passed c

abbrev pub junction_step : Option Bool → List Edge → Chain → Try Chain
junction_step seen [] c = in_chain c (feed_tick seen c.driver)
junction_step none (e ∷ rest) c = failed c
junction_step (some seen) (e ∷ rest) c =
    if edge_seen e seen then cut_chain rest (record c { chain_phases = rest }) else passed c

abbrev pub bind : Try Chain → (Chain → Try Chain) → Try Chain
bind (failed c) f = failed c
bind (passed c) f = f c

unfoldable pub poll_pass : Plan → Poll → Chain → Try Chain
unfolding move_idle set_feed feed_tick
poll_pass p o c =
    bind
      (bind (wz_step o.work_zero c.wz_phases c)
        (λ (t : Chain). staging_step p.stop_on_staging o.at_staging t))
      (λ (t : Chain). junction_step o.at_onload t.chain_phases t)

-- The loop; `none` is a loop that goes on after the polls that are given.
abbrev pub looped : Option Bool → Chain → Option (Try Chain) → Option (Try Chain)
looped none c rest = some (failed c)
looped (some true) c rest = some (passed c)
looped (some false) c rest = rest

abbrev pub next_poll : Try Chain → (Chain → Option (Try Chain)) → Option (Try Chain)
next_poll (failed c) f = some (failed c)
next_poll (passed c) f = f c

unfoldable pub poll_loop : Plan → List Poll → Chain → Option (Try Chain)
unfolding poll_pass
poll_loop p [] c = none
poll_loop p (o ∷ more) c =
    let go = poll_loop p more in
    if o.late
    then some (failed c)
    else next_poll (poll_pass p o c) (λ (t : Chain). looped o.ready t (go t))

-- The way back to the eye after an upstream move: it ends at the deadline without an exception.
abbrev pub seen_again : Option Bool → Chain → Try Chain
seen_again none c = failed c
seen_again (some seen) c = if seen then park c else passed c

abbrev pub inherit_step : Bool → Option Bool → Chain → Try Chain
inherit_step feed seen c =
    if not feed && not (is_empty c.driver.feed_phases)
    then in_chain c (feed_tick seen c.driver)
    else passed c

unfoldable pub reapproach_pass : Plan → Poll → Chain → Try Chain
unfolding move_idle set_feed feed_tick
reapproach_pass p o c =
    bind (seen_again o.work_zero c) (λ (t : Chain). inherit_step p.feed o.at_onload t)

unfoldable pub reapproach_loop : Plan → List Poll → Chain → Option (Try Chain)
unfolding reapproach_pass
reapproach_loop p [] c = none
reapproach_loop p (o ∷ more) c =
    let go = reapproach_loop p more in
    if o.late
    then some (passed c)
    else next_poll (reapproach_pass p o c) (λ (t : Chain). looped o.ready t (go t))

abbrev pub is_true : Option Bool → Bool
is_true (some true) = true
is_true _ = false

abbrev pub reapproach : Kinematics → Plan → List Poll → Chain → Option (Try Chain)
reapproach k p polls c =
    next_poll
      (in_chain (record c { arrived = some false }) (fire_move k p.reapproach_cap true c.driver))
      (λ (t : Chain). reapproach_loop p polls t)

-- An incomplete chain is handed over as a watch.
abbrev pub hand_over : Plan → Chain → Chain
hand_over p c =
    if p.feed && not (is_true c.entered) && p.stop_on_staging
    then record c { driver = record (c.driver) { feed_phases = c.chain_phases } }
    else c

abbrev pub tail_of : Kinematics → Plan → List Poll → Chain → Option (Try Chain)
tail_of k p polls c =
    if p.pass_through && is_true c.arrived then reapproach k p polls c else some (passed c)

-- The chain that the move waits for; `onload` is the read of the junction's eye at its start.
abbrev pub wz_plan : Plan → List Edge
wz_plan p =
    if p.stop_on_work_zero
    then (if p.o_occupied then Edge.hi ∷ Edge.lo ∷ [] else [])
      ++ Edge.hi ∷ (if p.pass_through then Edge.lo ∷ [] else [])
    else []

abbrev pub feed_plan : Bool → List Edge
feed_plan true = Edge.lo ∷ Edge.hi ∷ []
feed_plan false = Edge.hi ∷ Edge.lo ∷ Edge.hi ∷ []

abbrev pub chain_of : Plan → List Edge → Option Bool → Driver → Chain
chain_of p phases entered d = record {
  driver = d;
  wz_phases = wz_plan p;
  arrived = if p.stop_on_work_zero || p.stop_on_staging then some false else none;
  chain_phases = phases;
  entered = entered;
}

abbrev pub with_chain : Plan → Option Bool → Driver → Try Chain
with_chain p none d = failed (chain_of p [] (some false) d)
with_chain p (some seen) d = passed (chain_of p (feed_plan seen) (some false) d)

abbrev pub begin_chain : Plan → Option Bool → Driver → Try Chain
begin_chain p onload d = if p.feed then with_chain p onload d else passed (chain_of p [] none d)

abbrev pub launch : Kinematics → Plan → Driver → Try Driver
launch k p d =
    if p.continuous
    then move_continuous p.downstream d
    else fire_move k (p.mm + (if p.stop_on_work_zero then p.overshoot else 0)) p.downstream d

abbrev pub launched : Plan → Option Bool → Try Driver → Try Chain
launched p onload (failed d) = failed (chain_of p [] none d)
launched p onload (passed d) = begin_chain p onload d
