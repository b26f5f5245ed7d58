-- ===== src/Train/Handoff.antt =====
-- What the mover of the train (src/finishing_line/process/train.py) waits for.
use finishing_line.Interlocks.Exact.{is_station-exact}
use finishing_line.Common.{
  Option, Bool-cases, inl, inr, none, some, false, true, ◌⊎◌, Bool, List, [], arith, is_some, refl,
  ◌++◌, ◌||◌, ◌∷◌, ◌≡◌,
}
use finishing_line.Discipline.{planned}
use finishing_line.Discipline.Shift.{fed}
use finishing_line.Model.{Beat, Direction, Move, Station, Zone, has_move, is_station}
use finishing_line.Schedule.{transitions}
use finishing_line.Train.{
  Presence, all_present, any_present, any_station, answered, is_watched, matches, wait_for,
  BeltCall, Targets, advance, any_target, branches, closing, destinations, downstream_targets,
  manoeuvre, move_zone_until, per_zone, run_calls, set_feed_conveyor, source_only, try_finally,
  upstream_targets, wait_zone_ready, zone_targets,
}

-- Whether a move uses the belt of a zone.
abbrev pub uses : Zone → Move → Bool
uses Zone.z1 (src, dst) = is_station src Station.f1 || is_station dst Station.f1
uses Zone.z2 (src, dst) =
    is_station src Station.o || is_station dst Station.o || is_station src Station.f2

abbrev pub any_uses : Zone → List Move → Bool
any_uses zone [] = false
any_uses zone (m ∷ moves) = uses zone m || any_uses zone moves

-- For the moves of a beat, whichever of its sources hold parts, a zone gets a stop target exactly
-- when one of the moves uses its belt.
pub zone_targets-exact :
    (beat : Beat) (f1 at_o f2 feed : Bool)
    → let moves = planned beat f1 at_o f2 feed in
      let targets = zone_targets moves (transitions beat).direction in
      (is_some targets.for_z1 ≡ any_uses Zone.z1 moves)
      × (is_some targets.for_z2 ≡ any_uses Zone.z2 moves)
unfolding zone_targets downstream_targets upstream_targets transitions has_move
zone_targets-exact Beat.p1 f1 at_o f2 feed = ground arith
zone_targets-exact Beat.p2 f1 at_o f2 feed = ground arith
zone_targets-exact Beat.p3 f1 at_o f2 feed = ground arith
zone_targets-exact Beat.p4 f1 at_o f2 feed = ground arith

abbrev pub AllReturn : (BeltCall → Bool) → List BeltCall → Type 0
AllReturn returns [] = Unit {0}
AllReturn returns (c ∷ calls) = (returns c ≡ true) × AllReturn returns calls

run_calls-all :
    (returns : BeltCall → Bool) (calls : List BeltCall)
    → AllReturn returns calls
    → run_calls returns calls ≡ (calls, true)
unfolding run_calls
run_calls-all returns [] h = refl
run_calls-all returns (c ∷ calls) (e, h) = rw e (rw (run_calls-all returns calls h) refl)

run_calls-AllReturn :
    (returns : BeltCall → Bool) (calls : List BeltCall)
    → (run_calls returns calls).1 ≡ true
    → AllReturn returns calls
unfolding run_calls
run_calls-AllReturn returns [] h = tt
run_calls-AllReturn returns (c ∷ calls) h =
    (ground arith, run_calls-AllReturn returns calls (ground arith))

AllReturn-last :
    (returns : BeltCall → Bool) (calls : List BeltCall) (c : BeltCall)
    → AllReturn returns (calls ++ c ∷ [])
    → returns c ≡ true
AllReturn-last returns [] c (e, h) = e
AllReturn-last returns (d ∷ calls) c (e, h) = AllReturn-last returns calls c h

branches-ended :
    (some_target feeding fed : Bool) (block close : List BeltCall × Bool)
    → (branches some_target feeding fed (try_finally block close)).1 ≡ true
    → block.1 ≡ true
branches-ended false feeding fed (made, ended) (closed, shut) h = absurd (ground arith)
branches-ended true false fed (made, ended) (closed, shut) h = ground arith
branches-ended true true true (made, ended) (closed, shut) h = ground arith
branches-ended true true false (made, ended) (closed, shut) h = absurd (ground arith)

abbrev armed : Direction → Targets → List BeltCall
armed direction targets =
    per_zone (λ zone stop. move_zone_until zone direction stop) targets
    ++ per_zone (λ zone stop. wait_zone_ready zone) targets

-- A poll that saw a line.
abbrev pub Polled : Presence → List (Option Presence) → Type 0
Polled shows [] = ⊥
Polled shows (poll ∷ polls) = (poll ≡ some shows) ⊎ Polled shows polls

wait_for-Polled :
    (present absent : List Station) (polls : List (Option Presence))
    → wait_for present absent polls ≡ true
    → (shows : Presence) × Polled shows polls × (matches present absent shows ≡ true)
unfolding wait_for
wait_for-Polled present absent [] h = absurd (ground arith)
wait_for-Polled present absent (none ∷ polls) h = absurd (ground arith)
wait_for-Polled present absent (some shows ∷ polls) h =
    elim (Bool-cases (matches present absent shows)) [
      | inl fits ↦ (shows, inl refl, fits)
      | inr differs ↦
          let (seen, polled, fits) = wait_for-Polled present absent polls (ground arith) in
          (seen, inr polled, fits)
    ]

destinations-present :
    (shows : Presence) (moves : List Move) (src dst : Station)
    → all_present shows (destinations moves) ≡ true
    → has_move src dst moves ≡ true
    → is_station dst Station.out ≡ false
    → shows dst ≡ true
unfolding destinations all_present has_move
destinations-present shows [] src dst h m on_line = absurd (ground arith)
destinations-present shows ((a, b) ∷ moves) src dst h m on_line =
    ground (arith, destinations-present shows moves src dst, (is_station-exact b dst).0)

-- A station is a destination of the moves.
abbrev pub is_dest : Station → List Move → Bool
is_dest station [] = false
is_dest station ((src, dst) ∷ moves) = is_station dst station || is_dest station moves

destinations-any :
    (station : Station) (moves : List Move)
    → is_dest station moves ≡ false
    → any_station station (destinations moves) ≡ false
unfolding destinations
destinations-any station [] h = refl
destinations-any station ((a, b) ∷ moves) h = ground (
  arith,
  destinations-any station moves,
  (is_station-exact station b).0,
  (is_station-exact b station).1,
)

source_only-absent :
    (shows : Presence) (dests : List Station) (moves : List Move) (src dst : Station)
    → any_present shows (source_only dests moves) ≡ false
    → has_move src dst moves ≡ true
    → is_watched src ≡ true
    → any_station src dests ≡ false
    → shows src ≡ false
unfolding source_only any_present has_move
source_only-absent shows dests [] src dst h m w d = absurd (ground arith)
source_only-absent shows dests ((a, b) ∷ moves) src dst h m w d =
    ground (arith, source_only-absent shows dests moves src dst, (is_station-exact a src).0)

-- A poll shows that the moves are done: a part at every destination on the line, and none at F1, O or
-- F2 where a move leaves and none arrives.
pub record IsArrived (moves : List Move) (shows : Presence) : Type 0 where
  pub there :
      (src dst : Station)
      → has_move src dst moves ≡ true
      → is_station dst Station.out ≡ false
      → shows dst ≡ true
  pub gone :
      (src dst : Station)
      → has_move src dst moves ≡ true
      → is_watched src ≡ true
      → is_dest src moves ≡ false
      → shows src ≡ false

matches-IsArrived :
    (shows : Presence) (moves : List Move)
    → matches (destinations moves) (source_only (destinations moves) moves) shows ≡ true
    → IsArrived moves shows
matches-IsArrived shows moves h = record {
  there = λ src dst m on_line. destinations-present shows moves src dst (ground arith) m on_line;
  gone = λ src dst m w none_arrives.
      source_only-absent shows (destinations moves) moves src dst (ground arith) m w
        (destinations-any src moves none_arrives);
}

-- When `advance` returns for some moves, one of its polls showed that they are done: a part at every
-- destination on the line, and none at F1, O or F2 where a move leaves and none arrives.
pub advance-confirms :
    (returns : BeltCall → Bool) (polls : List (Option Presence)) (direction : Direction) (m : Move)
    (ms : List Move)
    → (advance returns polls direction (m ∷ ms)).1 ≡ true
    → (shows : Presence) × Polled shows polls × IsArrived (m ∷ ms) shows
unfolding advance
advance-confirms returns polls direction m ms h =
    let moves = m ∷ ms in
    let targets = zone_targets moves direction in
    let feeding = has_move Station.inq Station.f1 moves in
    let answers = answered returns polls in
    let ended =
      branches-ended (any_target targets) feeding (returns (set_feed_conveyor true))
        (run_calls answers (manoeuvre direction moves targets))
        (run_calls answers (closing feeding targets)) h in
    let waited =
      AllReturn-last answers (armed direction targets) _
        (run_calls-AllReturn answers (manoeuvre direction moves targets) ended) in
    let (shows, polled, fits) =
      wait_for-Polled (destinations moves) (source_only (destinations moves) moves) polls waited in
    (shows, polled, matches-IsArrived shows moves fits)
