-- ===== src/LegacyTrain/Feed.antt =====
-- The feed under the manoeuvres of the legacy line (src/finishing_line/process/legacy_train.py:
-- `feed_suspend`, `feed_resume`, `idle`).
use mathlib.Core.Option
use finishing_line.Common.{
  Bool, List, Option, [], false, if_elim, is_empty, length, none, some, true, ℕ, ◌≡◌,
}
use finishing_line.LegacyDriver.{Driver, Kinematics, Try, failed, feed_stop, passed, set_feed}
use finishing_line.LegacyDriver.Maneuver.{Chain, Plan, Poll}
use finishing_line.LegacyDriver.Secure.{transition_move-IsSafe}
use finishing_line.LegacyDriver.Watch.{
  Always, Always-bind, IsSafe, Looping, move_idle-IsSafe, set_feed-IsSafe,
}
use finishing_line.LegacyTrain.{
  LegacyTrain, feed_resume, feed_suspend, in_recorded, in_train, recorded, run_move, stop_all,
}

abbrev pub Trained : (Driver → Type 0) → Try LegacyTrain → Type 0
Trained P (failed t) = P t.driver
Trained P (passed t) = P t.driver

in_train-IsSafe :
    (t : LegacyTrain) (m : Try Driver)
    → Always (IsSafe false) m
    → Trained (IsSafe false) (in_train t m)
in_train-IsSafe t (failed d) h = h
in_train-IsSafe t (passed d) h = h

set_feed-lit :
    (d : Driver)
    → IsSafe false d
    → is_empty d.feed_phases ≡ false
    → Always (IsSafe false) (set_feed true d)
unfolding set_feed
set_feed-lit d h live = rw (h.sure (length d.log)) (record { sure = h.sure; watched = λ _ _. live })

-- Suspending the feed, resuming it and stopping the line keep it so that the feed runs under a watch
-- only, when the device confirms the writes: a feed whose watch is gone is not lit again.
pub feed-IsSafe :
    (t : LegacyTrain)
    → IsSafe false t.driver
    → Trained (IsSafe false) (feed_suspend t).0
      × Trained (IsSafe false) (feed_resume t)
      × Trained (IsSafe false) (stop_all t)
unfolding feed_suspend feed_resume stop_all feed_stop
feed-IsSafe t h = (
  if_elim (λ (r : Try LegacyTrain × Bool). Trained (IsSafe false) r.0)
      (is_empty t.driver.feed_phases) (λ _. h)
      (λ _. in_train-IsSafe t _ (set_feed-IsSafe false t.driver h.sure)),
  if_elim (Trained (IsSafe false)) (is_empty t.driver.feed_phases) (λ _. h)
      (λ live. in_train-IsSafe t _ (set_feed-lit t.driver h live)),
  in_train-IsSafe t _ (
      Always-bind (IsSafe false) _ _
        (set_feed-IsSafe false (record (t.driver) { feed_phases = [] }) h.sure)
        (move_idle-IsSafe false)),
)

abbrev pub Training : (Driver → Type 0) → Option (Try LegacyTrain) → Type 0
Training P none = Unit {0}
Training P (some r) = Trained P r

recorded-IsSafe :
    (k : Kinematics) (seconds : ℕ) (m : Option Bool) (t : LegacyTrain)
    → IsSafe false t.driver
    → IsSafe false (recorded k seconds m t).driver
recorded-IsSafe k seconds none t h = h
recorded-IsSafe k seconds (some true) t h = h
recorded-IsSafe k seconds (some false) t h = h

in_recorded-IsSafe :
    (k : Kinematics) (seconds : ℕ) (t : LegacyTrain) (m : Option (Try Chain))
    → Looping (IsSafe false) m
    → Training (IsSafe false) (Option.map (in_recorded k seconds t) m)
in_recorded-IsSafe k seconds t none h = tt
in_recorded-IsSafe k seconds t (some (failed c)) h = h
in_recorded-IsSafe k seconds t (some (passed c)) h = recorded-IsSafe k seconds c.arrived _ h

-- An entry, a retreat or a return of the legacy line leaves the feed running under a watch only, when
-- the device confirms the writes.
pub run_move-IsSafe :
    (k : Kinematics) (p : Plan) (polls again : List Poll) (seconds : ℕ) (t : LegacyTrain)
    → IsSafe false t.driver
    → Training (IsSafe false) (run_move k p polls again seconds t)
unfolding run_move
run_move-IsSafe k p polls again seconds t h =
    in_recorded-IsSafe k seconds t _ (transition_move-IsSafe k p none polls again t.driver h)
