-- ===== src/Interlocks/Exact.antt =====
-- The guards of src/finishing_line/core/guards.py, each against what it is to check.
use finishing_line.Common.{
  List, Option, [], arith, false, inl, inr, is_some, none, not, refl, some, true, ◌&&◌, ◌↔◌, ◌∷◌,
  ◌≡◌, ◌⊎◌, ◌≤◌, Bool, Bool-cases, if◌then◌else◌,
}
use finishing_line.Config.{ProcessConfig}
use finishing_line.Guards.{
  departure_blocked, leave_blocked, occupancy_mismatch, shift, spray_blocked,
  spray_station_not_ready, walk_blocked,
}
use finishing_line.Model.{
  active_flash_seconds, FanState, LineState, Move, PartState, SensorSnapshot, ShutterState, Station,
  StationSet, get, has_move, is_station, part_at, set,
}
use finishing_line.Timers.{may_leave_fan, flash_complete}

-- The sensor at a station and the record agree.
abbrev pub Agrees : LineState → SensorSnapshot → Station → Type 0
Agrees s sensors station = is_some (get s.occupancy station) ≡ get sensors.occupied station

-- `occupancy_mismatch` gives no reason exactly when sensors and record agree at F1, O and F2.
pub occupancy_mismatch-exact :
    (s : LineState) (sensors : SensorSnapshot)
    → (occupancy_mismatch s sensors ≡ none)
      ↔ (Agrees s sensors Station.f1 × Agrees s sensors Station.o × Agrees s sensors Station.f2)
unfolding occupancy_mismatch
occupancy_mismatch-exact s sensors = (λ h. ground arith, λ h. ground arith)

-- A part may leave a fan without a coat, or when the flash of its last coat is long enough: the first
-- flash with one coat, the second with more.
abbrev pub HasFlashed : ProcessConfig → PartState → Type 0
HasFlashed cfg p =
    (p.coats_applied ≡ 0)
    ⊎ ((p.coats_applied ≡ 1) × (cfg.flash_seconds ≤ p.flash_1_s))
    ⊎ ((2 ≤ p.coats_applied) × (cfg.flash_seconds ≤ p.flash_2_s))

may_leave_fan-HasFlashed :
    (cfg : ProcessConfig) (p : PartState) → (may_leave_fan p cfg ≡ true) ↔ HasFlashed cfg p
unfolding may_leave_fan flash_complete active_flash_seconds
may_leave_fan-HasFlashed cfg p = (λ h. ground arith, λ h. ground arith)

-- What the departure guard is to check of the moves, one after the other: the place that a move goes
-- to is free once the moves before it and its own departure are done, and a part that leaves a fan
-- has flashed.
abbrev pub MayMove : LineState → ProcessConfig → Station → Type 0
MayMove s cfg source =
    (p : PartState)
    → part_at s source ≡ some p
    → (source ≡ Station.f1) ⊎ (source ≡ Station.f2)
    → HasFlashed cfg p

-- Whether a part is at a station of the line after some moves, the last one first: the last move that
-- has to do with the station decides, and what the sensors showed if there is none.
abbrev pub is_taken : StationSet → List Move → Station → Bool
is_taken seen [] station = get seen station
is_taken seen ((source, dest) ∷ earlier) station =
    if is_station dest station
    then true
    else if is_station source station
    then false
    else is_taken seen earlier station

-- The destination is off the line, or the move itself vacates it, or nothing is there.
abbrev pub IsFree : StationSet → List Move → Station → Station → Type 0
IsFree seen earlier source dest =
    (dest ≡ Station.out) ⊎ (source ≡ dest) ⊎ (is_taken seen earlier dest ≡ false)

abbrev pub Walks : LineState → ProcessConfig → StationSet → List Move → List Move → Type 0
Walks s cfg seen earlier [] = Unit {0}
Walks s cfg seen earlier ((source, dest) ∷ moves) =
    IsFree seen earlier source dest
    × MayMove s cfg source
    × Walks s cfg seen ((source, dest) ∷ earlier) moves

leave_blocked-exact :
    (source : Station) (m : Option PartState) (cfg : ProcessConfig)
    → (leave_blocked source m cfg ≡ none) ↔ (
        (p : PartState)
        → m ≡ some p
        → (source ≡ Station.f1) ⊎ (source ≡ Station.f2)
        → HasFlashed cfg p)
unfolding leave_blocked
leave_blocked-exact source none cfg = (λ h p e f. absurd (ground arith), λ h. refl)
leave_blocked-exact Station.f1 (some p) cfg =
    let flash = may_leave_fan-HasFlashed cfg p in
    (
      λ h q e f. (may_leave_fan-HasFlashed cfg q).0 (ground arith),
      λ h. let may = flash.1 (h p refl (inl refl)) in rw may refl,
    )
leave_blocked-exact Station.f2 (some p) cfg =
    let flash = may_leave_fan-HasFlashed cfg p in
    (
      λ h q e f. (may_leave_fan-HasFlashed cfg q).0 (ground arith),
      λ h. let may = flash.1 (h p refl (inr refl)) in rw may refl,
    )
leave_blocked-exact Station.inq (some p) cfg = (λ h q e f. absurd (ground arith), λ h. refl)
leave_blocked-exact Station.o (some p) cfg = (λ h q e f. absurd (ground arith), λ h. refl)
leave_blocked-exact Station.out (some p) cfg = (λ h q e f. absurd (ground arith), λ h. refl)

pub is_station-exact : (a b : Station) → (is_station a b ≡ true) ↔ (a ≡ b)
is_station-exact Station.inq b = (λ h. ground arith, λ h. ground arith)
is_station-exact Station.f1 b = (λ h. ground arith, λ h. ground arith)
is_station-exact Station.o b = (λ h. ground arith, λ h. ground arith)
is_station-exact Station.f2 b = (λ h. ground arith, λ h. ground arith)
is_station-exact Station.out b = (λ h. ground arith, λ h. ground arith)

get-set :
    (source station : Station) (v : Bool) (t : StationSet)
    → get (set source v t) station ≡ (if is_station source station then v else get t station)
get-set Station.inq station v t = ground arith
get-set Station.f1 station v t = ground arith
get-set Station.o station v t = ground arith
get-set Station.f2 station v t = ground arith
get-set Station.out station v t = ground arith

-- The guard's set of taken stations, and what the earlier moves tell.
abbrev Tracks : StationSet → List Move → StationSet → Type 0
Tracks seen earlier occupied =
    (station : Station)
    → is_station station Station.out ≡ false
    → get occupied station ≡ is_taken seen earlier station

shift-Tracks :
    (seen : StationSet) (earlier : List Move) (occupied : StationSet) (source dest : Station)
    → Tracks seen earlier occupied
    → Tracks seen ((source, dest) ∷ earlier) (shift occupied source dest)
shift-Tracks seen earlier occupied source dest h station on_line = ground (
  arith,
  h station,
  get-set source station false occupied,
  get-set dest station true (set source false occupied),
)

is_taken-IsFree :
    (source dest : Station) (seen : StationSet) (earlier : List Move) (occupied : StationSet)
    → is_station dest Station.out ≡ false
    → get occupied dest ≡ is_taken seen earlier dest
    → (get (set source false occupied) dest ≡ false) ↔ IsFree seen earlier source dest
is_taken-IsFree source dest seen earlier occupied on_line tracked =
    let left = get-set source dest false occupied in
    (
      λ k. elim (Bool-cases (is_station source dest)) [
        | inl own ↦ inr (inl ((is_station-exact source dest).0 own))
        | inr other ↦ inr (inr (ground (arith, left)))
      ],
      λ k. elim k [
        | inl off ↦ absurd (ground (arith, (is_station-exact dest Station.out).1 off))
        | inr (inl own) ↦ ground (arith, left, (is_station-exact source dest).1 own)
        | inr (inr free) ↦ ground (arith, left)
      ],
    )

IsFree-exact :
    (seen : StationSet) (earlier : List Move) (occupied : StationSet) (source dest : Station)
    → Tracks seen earlier occupied
    → ((not (is_station dest Station.out) && get (set source false occupied) dest) ≡ false)
      ↔ IsFree seen earlier source dest
IsFree-exact seen earlier occupied source Station.out h = (λ k. inl refl, λ k. refl)
IsFree-exact seen earlier occupied source Station.inq h =
    is_taken-IsFree source Station.inq seen earlier occupied refl (h Station.inq refl)
IsFree-exact seen earlier occupied source Station.f1 h =
    is_taken-IsFree source Station.f1 seen earlier occupied refl (h Station.f1 refl)
IsFree-exact seen earlier occupied source Station.o h =
    is_taken-IsFree source Station.o seen earlier occupied refl (h Station.o refl)
IsFree-exact seen earlier occupied source Station.f2 h =
    is_taken-IsFree source Station.f2 seen earlier occupied refl (h Station.f2 refl)

walk_blocked-exact :
    (s : LineState) (cfg : ProcessConfig) (seen : StationSet) (earlier : List Move)
    (occupied : StationSet) (moves : List Move)
    → Tracks seen earlier occupied
    → (walk_blocked s cfg occupied moves ≡ none) ↔ Walks s cfg seen earlier moves
unfolding walk_blocked
walk_blocked-exact s cfg seen earlier occupied [] t = (λ h. tt, λ h. refl)
walk_blocked-exact s cfg seen earlier occupied ((source, dest) ∷ moves) t =
    let free = IsFree-exact seen earlier occupied source dest t in
    let leave = leave_blocked-exact source (part_at s source) cfg in
    let rest =
      walk_blocked-exact s cfg seen ((source, dest) ∷ earlier) (shift occupied source dest) moves
        (shift-Tracks seen earlier occupied source dest t) in
    (
      λ h. (free.0 (ground arith), leave.0 (ground arith), rest.0 (ground arith)),
      λ (f, l, w). let a = free.1 f in let b = leave.1 l in let c = rest.1 w in rw a (rw b c),
    )

-- What is to hold before parts may leave their stations.
pub record MayDepart (s : LineState) (sensors : SensorSnapshot) (cfg : ProcessConfig)
    (moves : List Move) : Type 0 where
  pub clear : sensors.robot_clear ≡ true
  pub gun_off : sensors.gun_on ≡ false
  pub fed : has_move Station.inq Station.f1 moves ≡ true → sensors.in_eye ≡ true
  pub room : has_move Station.f2 Station.out moves ≡ true → sensors.out_eye ≡ false
  pub walks : Walks s cfg sensors.occupied [] moves

-- `departure_blocked` gives no reason exactly when the robot is clear, the gun is off, a part waits
-- at the head of the queue if the moves take one in, the outfeed is free if they put one out, every
-- move's place is free when its turn comes, and every part that leaves a fan may leave it.
pub departure_blocked-exact :
    (s : LineState) (sensors : SensorSnapshot) (cfg : ProcessConfig) (moves : List Move)
    → (departure_blocked s sensors cfg moves ≡ none) ↔ MayDepart s sensors cfg moves
unfolding departure_blocked
departure_blocked-exact s sensors cfg moves =
    let walk =
      walk_blocked-exact s cfg sensors.occupied [] sensors.occupied moves (λ d on_line. refl) in
    (
      λ h. record {
        clear = ground arith;
        gun_off = ground arith;
        fed = λ e. ground arith;
        room = λ e. ground arith;
        walks = walk.0 (ground arith);
      },
      λ d. ground (arith, d.clear, d.gun_off, d.fed, d.room, walk.1 d.walks),
    )

-- `spray_blocked` gives no reason only when the shutter is closed, a part is seen and recorded at O,
-- and no wet part stands at F1 in the stream of its fan.
pub spray_blocked-safe :
    (s : LineState) (sensors : SensorSnapshot) (cfg : ProcessConfig)
    → spray_blocked s sensors cfg ≡ none
    → (sensors.shutter ≡ ShutterState.closed)
      × (sensors.occupied.at_o ≡ true)
      × (is_some (part_at s Station.o) ≡ true)
      × ((p : PartState)
          → part_at s Station.f1 ≡ some p
          → p.is_wet ≡ true
          → sensors.f1_fan ≡ FanState.off)
unfolding spray_blocked spray_station_not_ready
spray_blocked-safe s sensors cfg h =
    (ground arith, ground arith, ground arith, λ p e w. ground arith)
