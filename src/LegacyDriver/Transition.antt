-- ===== src/LegacyDriver/Transition.antt =====
-- The end of a sensor-stopped move, and the whole of it
-- (src/finishing_line/devices/legacy_clearcore.py: `transition_move`).
use finishing_line.Common.{
  Bool, List, Option, [], false, if◌then◌else◌, is_empty, none, not, some, true, ◌&&◌, ◌||◌,
}
use finishing_line.LegacyDriver.{
  Driver, Kinematics, Try, failed, fire_move, move_continuous, move_idle, passed, set_feed,
}
use finishing_line.LegacyDriver.Maneuver.{
  Chain, Plan, Poll, chain_of, hand_over, in_chain, launch, launched, next_poll, poll_loop,
  reapproach_loop, tail_of,
}

abbrev pub state_of : Try Driver → Driver
state_of (failed d) = d
state_of (passed d) = d

-- The `finally`: a feed that no watch is left for is cut. It may raise itself.
abbrev pub finish_feed : Plan → Driver → Try Driver
finish_feed p d = if p.feed && is_empty d.feed_phases then set_feed false d else passed d

-- An exception idles the belt, which may fail too, and goes on after the `finally`.
abbrev pub clean_up : Plan → Driver → Driver
clean_up p d = state_of (finish_feed p (state_of (move_idle d)))

abbrev pub finally_ : Plan → Try Chain → Try Chain
finally_ p (failed c) = failed (record c { driver = clean_up p c.driver })
finally_ p (passed c) = in_chain c (finish_feed p c.driver)

abbrev pub ended_with : Plan → Option (Try Chain) → Option (Try Chain)
ended_with p none = none
ended_with p (some r) = some (finally_ p r)

abbrev pub then_tail : Kinematics → Plan → List Poll → Option (Try Chain) → Option (Try Chain)
then_tail k p again none = none
then_tail k p again (some (failed c)) = some (failed c)
then_tail k p again (some (passed c)) = tail_of k p again c

abbrev pub handed_over : Plan → Option (Try Chain) → Option (Try Chain)
handed_over p none = none
handed_over p (some (failed c)) = some (failed c)
handed_over p (some (passed c)) = some (passed (hand_over p c))

-- The body of the `try`: `onload` is the first read of the junction's eye, `polls` and `again` are
-- those of the two loops.
unfoldable pub guarded_move :
    Kinematics → Plan → Option Bool → List Poll → List Poll → Driver → Option (Try Chain)
unfolding fire_move move_continuous poll_loop reapproach_loop
guarded_move k p onload polls again d = handed_over p (
    then_tail k p again
      (next_poll (launched p onload (launch k p d)) (λ (c : Chain). poll_loop p polls c)))

abbrev pub is_refused : Plan → Bool
is_refused p = p.continuous && not p.stop_on_work_zero || p.stop_on_work_zero && p.stop_on_staging

abbrev pub after_feed :
    Kinematics → Plan → Option Bool → List Poll → List Poll → Try Driver → Option (Try Chain)
after_feed k p onload polls again (failed d) = some (failed (chain_of p [] none d))
after_feed k p onload polls again (passed d) = ended_with p (guarded_move k p onload polls again d)

-- A new feed takes the place of the watch that there was.
unfoldable pub transition_move :
    Kinematics → Plan → Option Bool → List Poll → List Poll → Driver → Option (Try Chain)
unfolding guarded_move set_feed move_idle
transition_move k p onload polls again d =
    if is_refused p
    then some (failed (chain_of p [] none d))
    else after_feed k p onload polls again
        (if p.feed then set_feed true (record d { feed_phases = [] }) else passed d)
