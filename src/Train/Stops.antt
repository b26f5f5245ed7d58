-- ===== src/Train/Stops.antt =====
-- How the mover of the train (src/finishing_line/process/train.py) leaves the feed and the belts.
use finishing_line.Common.{
  if_elim, subst, sym, false, Bool, List, Option, [], arith, is_some, none, refl, some, true, ◌++◌,
  ◌∷◌, ◌≡◌, ◌∙◌,
}
use finishing_line.Model.{Direction, Move, Station, Zone, has_move}
use finishing_line.Train.{
  BeltCall, Presence, Stop, Targets, advance, any_target, answered, belt_idle, branches, closing,
  manoeuvre, move_zone_until, run_calls, set_feed_conveyor, try_finally, wait_pattern,
  wait_zone_ready, zone_targets,
}

-- What is live: the feed, and a motion of each belt.
pub record Live : Type 0 where
  pub feed : Bool
  pub z1 : Bool
  pub z2 : Bool

abbrev pub at_rest : Live
at_rest = record { feed = false; z1 = false; z2 = false }

abbrev pub with_zone : Zone → Bool → Live → Live
with_zone Zone.z1 live b = record b { z1 = live }
with_zone Zone.z2 live b = record b { z2 = live }

-- What is live after some calls.
abbrev pub after : List BeltCall → Live → Live
after [] b = b
after (set_feed_conveyor on ∷ calls) b = after calls (record b { feed = on })
after (move_zone_until zone direction stop ∷ calls) b = after calls (with_zone zone true b)
after (belt_idle zone ∷ calls) b = after calls (with_zone zone false b)
after (c ∷ calls) b = after calls b

after-append : (xs ys : List BeltCall) (b : Live) → after (xs ++ ys) b ≡ after ys (after xs b)
after-append [] ys b = refl
after-append (set_feed_conveyor on ∷ xs) ys b = after-append xs ys (record b { feed = on })
after-append (move_zone_until zone direction stop ∷ xs) ys b =
    after-append xs ys (with_zone zone true b)
after-append (belt_idle zone ∷ xs) ys b = after-append xs ys (with_zone zone false b)
after-append (wait_zone_ready zone ∷ xs) ys b = after-append xs ys b
after-append (wait_pattern present absent ∷ xs) ys b = after-append xs ys b

-- Only what the shift needs is live.
pub record IsWithin (feeding : Bool) (targets : Targets) (b : Live) : Type 0 where
  pub feed : b.feed ≡ true → feeding ≡ true
  pub z1 : b.z1 ≡ true → is_some targets.for_z1 ≡ true
  pub z2 : b.z2 ≡ true → is_some targets.for_z2 ≡ true

-- Calls of a block that make nothing live but the zones with a stop.
abbrev IsPlain : Targets → BeltCall → Type 0
IsPlain targets (set_feed_conveyor on) = ⊥
IsPlain targets (move_zone_until Zone.z1 direction stop) = is_some targets.for_z1 ≡ true
IsPlain targets (move_zone_until Zone.z2 direction stop) = is_some targets.for_z2 ≡ true
IsPlain targets c = Unit {0}

abbrev ArePlain : Targets → List BeltCall → Type 0
ArePlain targets [] = Unit {0}
ArePlain targets (c ∷ calls) = IsPlain targets c × ArePlain targets calls

one-IsWithin :
    (feeding : Bool) (targets : Targets) (c : BeltCall) (b : Live)
    → IsPlain targets c
    → IsWithin feeding targets b
    → IsWithin feeding targets (after (c ∷ []) b)
one-IsWithin feeding targets (set_feed_conveyor on) b h w = elim h [ ]
one-IsWithin feeding targets (move_zone_until Zone.z1 direction stop) b h w = record {
  feed = w.feed;
  z1 = λ e. h;
  z2 = w.z2;
}
one-IsWithin feeding targets (move_zone_until Zone.z2 direction stop) b h w = record {
  feed = w.feed;
  z1 = w.z1;
  z2 = λ e. h;
}
one-IsWithin feeding targets (belt_idle Zone.z1) b h w = record {
  feed = w.feed;
  z1 = λ e. absurd (ground arith);
  z2 = w.z2;
}
one-IsWithin feeding targets (belt_idle Zone.z2) b h w = record {
  feed = w.feed;
  z1 = w.z1;
  z2 = λ e. absurd (ground arith);
}
one-IsWithin feeding targets (wait_zone_ready zone) b h w = w
one-IsWithin feeding targets (wait_pattern present absent) b h w = w

-- However far a block comes.
run_calls-IsWithin :
    (feeding : Bool) (targets : Targets) (returns : BeltCall → Bool) (calls : List BeltCall)
    (b : Live)
    → ArePlain targets calls
    → IsWithin feeding targets b
    → IsWithin feeding targets (after (run_calls returns calls).0 b)
unfolding run_calls
run_calls-IsWithin feeding targets returns [] b h w = w
run_calls-IsWithin feeding targets returns (c ∷ calls) b (plain, h) w =
    let first = one-IsWithin feeding targets c b plain w in
    let (made, ended) = run_calls returns calls in
    if_elim (λ (r : List BeltCall × Bool). IsWithin feeding targets (after r.0 b)) (returns c)
      (λ _.
        subst (IsWithin feeding targets) (sym (after-append (c ∷ []) made b))
          (run_calls-IsWithin feeding targets returns calls (after (c ∷ []) b) h first))
      (λ _. first)

manoeuvre-ArePlain :
    (direction : Direction) (moves : List Move) (z1 z2 : Option Stop)
    → let targets : Targets = record { for_z1 = z1; for_z2 = z2 } in
      ArePlain targets (manoeuvre direction moves targets)
manoeuvre-ArePlain direction moves none none = (tt, tt)
manoeuvre-ArePlain direction moves none (some stop) = (refl, (tt, (tt, tt)))
manoeuvre-ArePlain direction moves (some stop) none = (refl, (tt, (tt, tt)))
manoeuvre-ArePlain direction moves (some stop) (some next) = (refl, (refl, (tt, (tt, (tt, tt)))))

-- The calls of the `finally`, when they return.
closing-at_rest :
    (returns : BeltCall → Bool) (feeding : Bool) (z1 z2 : Option Stop) (b : Live)
    → returns (set_feed_conveyor false) ≡ true
    → ((zone : Zone) → returns (belt_idle zone) ≡ true)
    → let targets : Targets = record { for_z1 = z1; for_z2 = z2 } in
      IsWithin feeding targets b → after (run_calls returns (closing feeding targets)).0 b ≡ at_rest
unfolding run_calls
closing-at_rest returns false none none b feed_off idle w =
    ground (arith, feed_off, idle Zone.z1, idle Zone.z2, w.feed, w.z1, w.z2)
closing-at_rest returns false none (some next) b feed_off idle w =
    ground (arith, feed_off, idle Zone.z1, idle Zone.z2, w.feed, w.z1, w.z2)
closing-at_rest returns false (some stop) none b feed_off idle w =
    ground (arith, feed_off, idle Zone.z1, idle Zone.z2, w.feed, w.z1, w.z2)
closing-at_rest returns false (some stop) (some next) b feed_off idle w =
    ground (arith, feed_off, idle Zone.z1, idle Zone.z2, w.feed, w.z1, w.z2)
closing-at_rest returns true none none b feed_off idle w =
    ground (arith, feed_off, idle Zone.z1, idle Zone.z2, w.feed, w.z1, w.z2)
closing-at_rest returns true none (some next) b feed_off idle w =
    ground (arith, feed_off, idle Zone.z1, idle Zone.z2, w.feed, w.z1, w.z2)
closing-at_rest returns true (some stop) none b feed_off idle w =
    ground (arith, feed_off, idle Zone.z1, idle Zone.z2, w.feed, w.z1, w.z2)
closing-at_rest returns true (some stop) (some next) b feed_off idle w =
    ground (arith, feed_off, idle Zone.z1, idle Zone.z2, w.feed, w.z1, w.z2)

block-at_rest :
    (returns : BeltCall → Bool) (direction : Direction) (moves : List Move) (feeding : Bool)
    (z1 z2 : Option Stop) (b : Live)
    → returns (set_feed_conveyor false) ≡ true
    → ((zone : Zone) → returns (belt_idle zone) ≡ true)
    → let targets : Targets = record { for_z1 = z1; for_z2 = z2 } in
      IsWithin feeding targets b
      → after
          ((run_calls returns (manoeuvre direction moves targets)).0
            ++ (run_calls returns (closing feeding targets)).0)
          b
        ≡ at_rest
block-at_rest returns direction moves feeding z1 z2 b feed_off idle w =
    let targets : Targets = record { for_z1 = z1; for_z2 = z2 } in
    let block = (run_calls returns (manoeuvre direction moves targets)).0 in
    after-append block (run_calls returns (closing feeding targets)).0 b
    ∙ closing-at_rest returns feeding z1 z2 (after block b) feed_off idle (
        run_calls-IsWithin feeding targets returns (manoeuvre direction moves targets) b
          (manoeuvre-ArePlain direction moves z1 z2) w)

begun-at_rest :
    (some_target feeding fed : Bool) (block close : List BeltCall × Bool)
    → (feeding ≡ true → fed ≡ true)
    → ((b : Live)
        → b.z1 ≡ false
        → b.z2 ≡ false
        → (b.feed ≡ true → feeding ≡ true)
        → after (block.0 ++ close.0) b ≡ at_rest)
    → after (branches some_target feeding fed (try_finally block close)).0 at_rest ≡ at_rest
begun-at_rest false feeding fed (made, ended) (closed, shut) f h = refl
begun-at_rest true false fed (made, ended) (closed, shut) f h = h at_rest refl refl (λ e. e)
begun-at_rest true true true (made, ended) (closed, shut) f h =
    h (record at_rest { feed = true }) refl refl (λ e. refl)
begun-at_rest true true false (made, ended) (closed, shut) f h = absurd (ground (arith, f refl))

-- When switching the feed on, which only moves that take a part in do, switching it off and idling a
-- belt return, then whatever else raises, and however far the shift has come: after the calls of
-- `advance` the feed is off and no belt has a motion that was not idled.
pub advance-idles :
    (returns : BeltCall → Bool) (polls : List (Option Presence)) (direction : Direction)
    (moves : List Move)
    → returns (set_feed_conveyor false) ≡ true
    → ((zone : Zone) → returns (belt_idle zone) ≡ true)
    → (has_move Station.inq Station.f1 moves ≡ true → returns (set_feed_conveyor true) ≡ true)
    → after (advance returns polls direction moves).0 at_rest ≡ at_rest
unfolding advance
advance-idles returns polls direction [] feed_off idle feeds = refl
advance-idles returns polls direction (m ∷ ms) feed_off idle feeds =
    let moves = m ∷ ms in
    let targets = zone_targets moves direction in
    let feeding = has_move Station.inq Station.f1 moves in
    begun-at_rest (any_target targets) feeding (returns (set_feed_conveyor true))
      (run_calls (answered returns polls) (manoeuvre direction moves targets))
      (run_calls (answered returns polls) (closing feeding targets)) feeds
      (λ b z1 z2 feed.
        block-at_rest (answered returns polls) direction moves feeding targets.for_z1 targets.for_z2
          b feed_off idle
          (record {
            feed = feed;
            z1 = λ e. absurd (ground arith);
            z2 = λ e. absurd (ground arith);
          }))
