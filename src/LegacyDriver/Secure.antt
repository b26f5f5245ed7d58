-- ===== src/LegacyDriver/Secure.antt =====
-- The feed of a sensor-stopped move of the legacy belt
-- (src/finishing_line/devices/legacy_clearcore.py: `transition_move`).
use finishing_line.Common.{
  Bool, List, Option, [], arith, false, if_elim, if◌then◌else◌, is_empty, length, none, not, refl,
  some, true, ◌&&◌, ◌≡◌,
}
use finishing_line.LegacyDriver.{Driver, Kinematics, Try, failed, move_idle, passed, set_feed}
use finishing_line.LegacyDriver.Loops.{next_poll-IsSafe, poll_loop-IsSafe, reapproach_loop-IsSafe}
use finishing_line.LegacyDriver.Maneuver.{
  Chain, Plan, Poll, begin_chain, is_true, launch, launched, tail_of, with_chain,
}
use finishing_line.LegacyDriver.Transition.{
  after_feed, ended_with, finally_, finish_feed, guarded_move, handed_over, is_refused, state_of,
  then_tail, transition_move,
}
use finishing_line.LegacyDriver.Watch.{
  Always, IsSafe, Leaving, Looping, fire_move-IsSafe, in_chain-IsSafe, move_continuous-IsSafe,
  move_idle-IsSafe, set_feed-IsSafe,
}

module _ (feed : Bool) where
  with_chain-IsSafe :
      (p : Plan) (onload : Option Bool) (d : Driver)
      → IsSafe feed d
      → Leaving (IsSafe feed) (with_chain p onload d)
  with_chain-IsSafe p none d h = h
  with_chain-IsSafe p (some seen) d h = h

  begin_chain-IsSafe :
      (p : Plan) (onload : Option Bool) (d : Driver)
      → IsSafe feed d
      → Leaving (IsSafe feed) (begin_chain p onload d)
  begin_chain-IsSafe p onload d h =
      if_elim (Leaving (IsSafe feed)) p.feed (λ _. with_chain-IsSafe p onload d h) (λ _. h)

  launched-IsSafe :
      (p : Plan) (onload : Option Bool) (m : Try Driver)
      → Always (IsSafe feed) m
      → Leaving (IsSafe feed) (launched p onload m)
  launched-IsSafe p onload (failed d) h = h
  launched-IsSafe p onload (passed d) h = begin_chain-IsSafe p onload d h

  launch-IsSafe :
      (k : Kinematics) (p : Plan) (d : Driver) → IsSafe feed d → Always (IsSafe feed) (launch k p d)
  launch-IsSafe k p d h =
      if_elim (Always (IsSafe feed)) p.continuous
        (λ _. move_continuous-IsSafe feed p.downstream d h)
        (λ _. fire_move-IsSafe feed k _ p.downstream d h)

  tail_of-IsSafe :
      (k : Kinematics) (p : Plan) (again : List Poll) (c : Chain)
      → IsSafe feed c.driver
      → Looping (IsSafe feed) (tail_of k p again c)
  tail_of-IsSafe k p again c h =
      if_elim (Looping (IsSafe feed)) (p.pass_through && is_true c.arrived)
        (λ _.
          next_poll-IsSafe feed _ _
            (in_chain-IsSafe feed (record c { arrived = some false }) _
              (fire_move-IsSafe feed k p.reapproach_cap true c.driver h))
            (λ t x. reapproach_loop-IsSafe feed p again t x))
        (λ _. h)

  then_tail-IsSafe :
      (k : Kinematics) (p : Plan) (again : List Poll) (m : Option (Try Chain))
      → Looping (IsSafe feed) m
      → Looping (IsSafe feed) (then_tail k p again m)
  then_tail-IsSafe k p again none h = tt
  then_tail-IsSafe k p again (some (failed c)) h = h
  then_tail-IsSafe k p again (some (passed c)) h = tail_of-IsSafe k p again c h

  handed_over-IsSafe :
      (p : Plan) (m : Option (Try Chain))
      → p.feed ≡ feed
      → Looping (IsSafe feed) m
      → Looping (IsSafe feed) (handed_over p m)
  handed_over-IsSafe p none e h = tt
  handed_over-IsSafe p (some (failed c)) e h = h
  handed_over-IsSafe p (some (passed c)) e h =
      if_elim (λ (x : Chain). IsSafe feed x.driver)
        (p.feed && not (is_true c.entered) && p.stop_on_staging)
        (λ y. record { sure = h.sure; watched = λ off. absurd (ground arith) }) (λ _. h)

  guarded_move-IsSafe :
      (k : Kinematics) (p : Plan) (onload : Option Bool) (polls again : List Poll) (d : Driver)
      → p.feed ≡ feed
      → IsSafe feed d
      → Looping (IsSafe feed) (guarded_move k p onload polls again d)
  unfolding guarded_move
  guarded_move-IsSafe k p onload polls again d e h = handed_over-IsSafe p _ e (
      then_tail-IsSafe k p again _ (
        next_poll-IsSafe feed _ _ (launched-IsSafe p onload _ (launch-IsSafe k p d h))
          (λ c x. poll_loop-IsSafe feed p polls c x)))

-- The `finally` brings the feed under a watch, whatever the move had left.
state_of-IsSafe : (feed : Bool) (m : Try Driver) → Always (IsSafe feed) m → IsSafe feed (state_of m)
state_of-IsSafe feed (failed d) h = h
state_of-IsSafe feed (passed d) h = h

kept :
    (feed empty : Bool) → (feed && empty) ≡ false → (feed ≡ false → empty ≡ false) → empty ≡ false
kept true empty e h = e
kept false empty e h = h refl

finish_feed-IsSafe :
    (p : Plan) (d : Driver) → IsSafe p.feed d → Always (IsSafe false) (finish_feed p d)
finish_feed-IsSafe p d h =
    if_elim (Always (IsSafe false)) (p.feed && is_empty d.feed_phases)
      (λ _. set_feed-IsSafe false d h.sure)
      (λ e. record {
        sure = h.sure;
        watched = λ _ on. kept p.feed (is_empty d.feed_phases) e (λ off. h.watched off on);
      })

finally-IsSafe :
    (p : Plan) (m : Try Chain) → Leaving (IsSafe p.feed) m → Leaving (IsSafe false) (finally_ p m)
finally-IsSafe p (failed c) h = state_of-IsSafe false _ (
    finish_feed-IsSafe p _
      (state_of-IsSafe p.feed (move_idle c.driver) (move_idle-IsSafe p.feed c.driver h)))
finally-IsSafe p (passed c) h =
    in_chain-IsSafe false c (finish_feed p c.driver) (finish_feed-IsSafe p c.driver h)

ended_with-IsSafe :
    (p : Plan) (m : Option (Try Chain))
    → Looping (IsSafe p.feed) m
    → Looping (IsSafe false) (ended_with p m)
ended_with-IsSafe p none h = tt
ended_with-IsSafe p (some r) h = finally-IsSafe p r h

abbrev Started : (Driver → Type 0) → Try Driver → Type 0
Started P (failed d) = ⊥
Started P (passed d) = P d

abbrev feed_start : Bool → Driver → Try Driver
feed_start feed d = if feed then set_feed true (record d { feed_phases = [] }) else passed d

feed_start-IsSafe :
    (feed : Bool) (d : Driver) → IsSafe false d → Started (IsSafe feed) (feed_start feed d)
unfolding set_feed
feed_start-IsSafe true d h =
    rw (h.sure (length d.log)) (record { sure = h.sure; watched = λ off. absurd (ground arith) })
feed_start-IsSafe false d h = h

after_feed-IsSafe :
    (k : Kinematics) (p : Plan) (onload : Option Bool) (polls again : List Poll) (m : Try Driver)
    → Started (IsSafe p.feed) m
    → Looping (IsSafe false) (after_feed k p onload polls again m)
after_feed-IsSafe k p onload polls again (failed d) h = elim h [ ]
after_feed-IsSafe k p onload polls again (passed d) h =
    ended_with-IsSafe p _ (guarded_move-IsSafe p.feed k p onload polls again d refl h)

-- When the device confirms every write, and the feed, if it runs, is under a watch before the move: a
-- sensor-stopped move leaves the feed running under a watch only, whether it ends as planned or with an exception, after a read that raises or at the
-- deadline, with a feed of its own or with a watch that it has inherited.
pub transition_move-IsSafe :
    (k : Kinematics) (p : Plan) (onload : Option Bool) (polls again : List Poll) (d : Driver)
    → IsSafe false d
    → Looping (IsSafe false) (transition_move k p onload polls again d)
unfolding transition_move set_feed
transition_move-IsSafe k p onload polls again d h =
    if_elim (Looping (IsSafe false)) (is_refused p) (λ _. h)
      (λ _.
        after_feed-IsSafe k p onload polls again (feed_start p.feed d)
          (feed_start-IsSafe p.feed d h))
