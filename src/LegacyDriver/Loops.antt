-- ===== src/LegacyDriver/Loops.antt =====
-- The feed in the loops of a sensor-stopped move
-- (src/finishing_line/devices/legacy_clearcore.py: `transition_move`).
use finishing_line.Common.{
  Bool, List, Option, [], false, if_elim, is_empty, none, not, some, true, ◌&&◌, ◌∷◌,
}
use finishing_line.LegacyDriver.{
  Edge, Try, edge_seen, failed, feed_tick, move_idle, passed, set_feed,
}
use finishing_line.LegacyDriver.Maneuver.{
  Chain, Plan, Poll, bind, cut_chain, is_false, junction_step, looped, next_poll, park,
  park_if_done, poll_loop, poll_pass, reapproach_loop, reapproach_pass, seen_again, staging_step,
  staging_with, wz_step,
}
use finishing_line.LegacyDriver.Watch.{
  IsSafe, Leaving, Looping, feed_tick-IsSafe, in_chain-IsSafe, move_idle-IsSafe, set_feed-IsSafe,
}

module _ (feed : Bool) where
  pub bind-IsSafe :
      (m : Try Chain) (f : Chain → Try Chain)
      → Leaving (IsSafe feed) m
      → ((c : Chain) → IsSafe feed c.driver → Leaving (IsSafe feed) (f c))
      → Leaving (IsSafe feed) (bind m f)
  bind-IsSafe (failed c) f h k = h
  bind-IsSafe (passed c) f h k = k c h

  park-IsSafe : (c : Chain) → IsSafe feed c.driver → Leaving (IsSafe feed) (park c)
  park-IsSafe c h =
      in_chain-IsSafe feed (record c { arrived = some true }) (move_idle c.driver)
        (move_idle-IsSafe feed c.driver h)

  park_if_done-IsSafe :
      (rest : List Edge) (c : Chain)
      → IsSafe feed c.driver
      → Leaving (IsSafe feed) (park_if_done rest c)
  park_if_done-IsSafe [] c h = park-IsSafe c h
  park_if_done-IsSafe (x ∷ xs) c h = h

  wz_step-IsSafe :
      (seen : Option Bool) (phases : List Edge) (c : Chain)
      → IsSafe feed c.driver
      → Leaving (IsSafe feed) (wz_step seen phases c)
  wz_step-IsSafe seen [] c h = h
  wz_step-IsSafe none (e ∷ rest) c h = h
  wz_step-IsSafe (some seen) (e ∷ rest) c h =
      if_elim (Leaving (IsSafe feed)) (edge_seen e seen)
        (λ _. park_if_done-IsSafe rest (record c { wz_phases = rest }) h) (λ _. h)

  staging_with-IsSafe :
      (m : Option Bool) (c : Chain)
      → IsSafe feed c.driver
      → Leaving (IsSafe feed) (staging_with m c)
  staging_with-IsSafe none c h = h
  staging_with-IsSafe (some true) c h = park-IsSafe c h
  staging_with-IsSafe (some false) c h = h

  staging_step-IsSafe :
      (stop : Bool) (m : Option Bool) (c : Chain)
      → IsSafe feed c.driver
      → Leaving (IsSafe feed) (staging_step stop m c)
  staging_step-IsSafe stop m c h =
      if_elim (Leaving (IsSafe feed)) (stop && is_false c.arrived) (λ _. staging_with-IsSafe m c h)
        (λ _. h)

  cut_chain-IsSafe :
      (rest : List Edge) (c : Chain)
      → IsSafe feed c.driver
      → Leaving (IsSafe feed) (cut_chain rest c)
  cut_chain-IsSafe [] c h =
      in_chain-IsSafe feed (record c { entered = some true }) (set_feed false c.driver)
        (set_feed-IsSafe feed c.driver h.sure)
  cut_chain-IsSafe (x ∷ xs) c h = h

  junction_step-IsSafe :
      (seen : Option Bool) (phases : List Edge) (c : Chain)
      → IsSafe feed c.driver
      → Leaving (IsSafe feed) (junction_step seen phases c)
  junction_step-IsSafe seen [] c h =
      in_chain-IsSafe feed c (feed_tick seen c.driver) (feed_tick-IsSafe feed seen c.driver h)
  junction_step-IsSafe none (e ∷ rest) c h = h
  junction_step-IsSafe (some seen) (e ∷ rest) c h =
      if_elim (Leaving (IsSafe feed)) (edge_seen e seen)
        (λ _. cut_chain-IsSafe rest (record c { chain_phases = rest }) h) (λ _. h)

  poll_pass-IsSafe :
      (p : Plan) (o : Poll) (c : Chain)
      → IsSafe feed c.driver
      → Leaving (IsSafe feed) (poll_pass p o c)
  unfolding poll_pass
  poll_pass-IsSafe p o c h =
      bind-IsSafe _ _
        (bind-IsSafe _ _ (wz_step-IsSafe o.work_zero c.wz_phases c h)
          (λ t k. staging_step-IsSafe p.stop_on_staging o.at_staging t k))
        (λ t k. junction_step-IsSafe o.at_onload t.chain_phases t k)

  looped-IsSafe :
      (m : Option Bool) (c : Chain) (rest : Option (Try Chain))
      → IsSafe feed c.driver
      → Looping (IsSafe feed) rest
      → Looping (IsSafe feed) (looped m c rest)
  looped-IsSafe none c rest h k = h
  looped-IsSafe (some true) c rest h k = h
  looped-IsSafe (some false) c rest h k = k

  pub next_poll-IsSafe :
      (m : Try Chain) (f : Chain → Option (Try Chain))
      → Leaving (IsSafe feed) m
      → ((c : Chain) → IsSafe feed c.driver → Looping (IsSafe feed) (f c))
      → Looping (IsSafe feed) (next_poll m f)
  next_poll-IsSafe (failed c) f h k = h
  next_poll-IsSafe (passed c) f h k = k c h

  pub poll_loop-IsSafe :
      (p : Plan) (polls : List Poll) (c : Chain)
      → IsSafe feed c.driver
      → Looping (IsSafe feed) (poll_loop p polls c)
  unfolding poll_loop
  poll_loop-IsSafe p [] c h = tt
  poll_loop-IsSafe p (o ∷ more) c h =
      let ih = poll_loop-IsSafe p more in
      if_elim (Looping (IsSafe feed)) o.late (λ _. h)
        (λ _.
          next_poll-IsSafe _ _ (poll_pass-IsSafe p o c h)
            (λ t k. looped-IsSafe o.ready t _ k (ih t k)))

  seen_again-IsSafe :
      (m : Option Bool) (c : Chain) → IsSafe feed c.driver → Leaving (IsSafe feed) (seen_again m c)
  seen_again-IsSafe none c h = h
  seen_again-IsSafe (some true) c h = park-IsSafe c h
  seen_again-IsSafe (some false) c h = h

  reapproach_pass-IsSafe :
      (p : Plan) (o : Poll) (c : Chain)
      → IsSafe feed c.driver
      → Leaving (IsSafe feed) (reapproach_pass p o c)
  unfolding reapproach_pass
  reapproach_pass-IsSafe p o c h = bind-IsSafe _ _ (seen_again-IsSafe o.work_zero c h) (λ t k.
      if_elim (Leaving (IsSafe feed)) (not p.feed && not (is_empty t.driver.feed_phases))
        (λ _. in_chain-IsSafe feed t _ (feed_tick-IsSafe feed o.at_onload t.driver k)) (λ _. k))

  pub reapproach_loop-IsSafe :
      (p : Plan) (polls : List Poll) (c : Chain)
      → IsSafe feed c.driver
      → Looping (IsSafe feed) (reapproach_loop p polls c)
  unfolding reapproach_loop
  reapproach_loop-IsSafe p [] c h = tt
  reapproach_loop-IsSafe p (o ∷ more) c h =
      let ih = reapproach_loop-IsSafe p more in
      if_elim (Looping (IsSafe feed)) o.late (λ _. h)
        (λ _.
          next_poll-IsSafe _ _ (reapproach_pass-IsSafe p o c h)
            (λ t k. looped-IsSafe o.ready t _ k (ih t k)))
