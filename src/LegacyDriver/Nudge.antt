-- ===== src/LegacyDriver/Nudge.antt =====
-- The staging of the next part (src/finishing_line/devices/legacy_clearcore.py: `stage_next`).
use finishing_line.Common.{Bool, List, Option, [], false, if◌then◌else◌, none, some, true, ℕ, ◌∷◌}
use finishing_line.LegacyDriver.{
  Driver, Edge, Kinematics, Try, edge_seen, failed, fire_move, move_idle, passed, set_feed, ◌>>=◌,
}
use finishing_line.LegacyDriver.Maneuver.{Poll, feed_plan}
use finishing_line.LegacyDriver.Transition.{state_of}

-- The variables of the call, and what it returns.
pub record Staging : Type 0 where
  pub driver : Driver
  pub phases : List Edge
  pub entered : Bool
  pub is_staged : Bool
  pub nudged : Bool

abbrev pub in_staging : Staging → Try Driver → Try Staging
in_staging s (failed d) = failed (record s { driver = d })
in_staging s (passed d) = passed (record s { driver = d })

abbrev pub then_stage : Try Staging → (Staging → Option (Try Staging)) → Option (Try Staging)
then_stage (failed s) f = some (failed s)
then_stage (passed s) f = f s

-- `chain_tick`
abbrev pub cut_at_end : List Edge → Staging → Try Staging
cut_at_end [] s = in_staging (record s { entered = true }) (set_feed false s.driver)
cut_at_end (_ ∷ _) s = passed s

abbrev pub chain_step : Option Bool → List Edge → Staging → Try Staging
chain_step none phases s = failed s
chain_step (some seen) [] s = passed s
chain_step (some seen) (e ∷ rest) s =
    if edge_seen e seen then cut_at_end rest (record s { phases = rest }) else passed s

unfoldable pub chain_tick : Option Bool → Staging → Try Staging
unfolding set_feed
chain_tick onload s = if s.entered then passed s else chain_step onload s.phases s

-- `result`: an incomplete chain is handed over as a watch.
abbrev pub staging_result : (is_staged nudged : Bool) → Staging → Staging
staging_result is_staged nudged s =
    let t = record s { is_staged = is_staged; nudged = nudged } in
    if s.entered then t else record t { driver = record (s.driver) { feed_phases = s.phases } }

-- A read of the staging eye: a part there ends the loop, and `rest` is what comes else.
abbrev pub at_eye :
    Option Bool → (nudged : Bool) → Staging → Option (Try Staging) → Option (Try Staging)
at_eye none nudged s rest = some (failed s)
at_eye (some seen) nudged s rest =
    if seen then some (passed (staging_result true nudged s)) else rest

-- The nudge's loop; `none` is a loop that goes on after the polls that are given.
abbrev pub at_cap : Option Bool → Staging → Option (Try Staging) → Option (Try Staging)
at_cap none s rest = some (failed s)
at_cap (some ready) s rest = if ready then some (passed (staging_result false true s)) else rest

unfoldable pub nudge_loop : List Poll → Staging → Option (Try Staging)
unfolding chain_tick
nudge_loop [] s = none
nudge_loop (o ∷ more) s =
    let go = nudge_loop more in
    if o.late
    then some (passed (staging_result false true s))
    else then_stage (chain_tick o.at_onload s)
        (λ (t : Staging). at_eye o.at_staging true t (at_cap o.ready t (go t)))

-- The nudge always ends with the belt idled.
abbrev pub idled : Try Staging → Try Staging
idled (failed s) = failed (record s { driver = state_of (move_idle s.driver) })
idled (passed s) = in_staging s (move_idle s.driver)

abbrev pub idled_after : Option (Try Staging) → Option (Try Staging)
idled_after none = none
idled_after (some r) = some (idled r)

abbrev pub nudge_cap : ℕ
nudge_cap = 400

abbrev pub nudge_on : List Poll → Try Staging → Option (Try Staging)
nudge_on polls (failed s) = some (failed s)
nudge_on polls (passed s) = idled_after (nudge_loop polls s)

unfoldable pub nudge_part : Kinematics → List Poll → Staging → Option (Try Staging)
unfolding fire_move nudge_loop move_idle
nudge_part k polls s = nudge_on polls (in_staging s (fire_move k nudge_cap true s.driver))

-- The loop with the feed alone, and what follows at its deadline.
unfoldable pub feed_loop :
    Kinematics → (nudge : Bool) → List Poll → List Poll → Staging → Option (Try Staging)
unfolding chain_tick nudge_part
feed_loop k nudge [] later s = none
feed_loop k nudge (o ∷ more) later s =
    let go = feed_loop k nudge more later in
    if o.late
    then (if nudge then nudge_part k later s else some (passed (staging_result false false s)))
    else then_stage (chain_tick o.at_onload s) (λ (t : Staging). at_eye o.at_staging false t (go t))

-- An exception inside the `try` cuts the feed and idles the belt; if the first fails, the second is
-- not tried.
abbrev pub cut_and_idle : Driver → Driver
cut_and_idle d = state_of (set_feed false d >>= move_idle)

abbrev pub secured : Option (Try Staging) → Option (Try Staging)
secured none = none
secured (some (failed s)) = some (failed (record s { driver = cut_and_idle s.driver }))
secured (some (passed s)) = some (passed s)

abbrev pub staging_at : List Edge → Driver → Staging
staging_at phases d = record {
  driver = d;
  phases = phases;
  entered = false;
  is_staged = false;
  nudged = false;
}

-- The first read of the junction's eye stands before the `try`.
abbrev pub stage_from :
    Kinematics → Bool → Option Bool → List Poll → List Poll → Try Driver → Option (Try Staging)
stage_from k nudge onload polls later (failed d) = some (failed (staging_at [] d))
stage_from k nudge none polls later (passed d) = some (failed (staging_at [] d))
stage_from k nudge (some seen) polls later (passed d) =
    secured (feed_loop k nudge polls later (staging_at (feed_plan seen) d))

unfoldable pub stage_next :
    Kinematics → Bool → Option Bool → List Poll → List Poll → Driver → Option (Try Staging)
unfolding feed_loop set_feed move_idle
stage_next k nudge onload polls later d =
    stage_from k nudge onload polls later (set_feed true (record d { feed_phases = [] }))
