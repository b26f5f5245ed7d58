-- ===== src/Discipline/Recovery.antt =====
-- The flash discipline and the re-entry after a fault (src/finishing_line/core/machine.py: `resume`).
use finishing_line.Common.{
  Bool, List, [], arith, false, if_elim, if◌then◌else◌, inl, inr, is_empty, none, not, refl, subst,
  true, ◌&&◌, ◌∙◌, ◌∷◌, ◌≡◌,
}
use finishing_line.Config.{ProcessConfig}
use finishing_line.Discipline.{Holds, IsDisciplinedIn}
use finishing_line.Discipline.Phases.{Holds-shifted}
use finishing_line.Machine.{
  apply_move, apply_moves, is_faulted, is_moving, is_post_move, reenter_at,
}
use finishing_line.Model.{LineState, Move, Phase, Station, occupancy_eq}

Done-robot_work :
    (phase : Phase) (cfg : ProcessConfig) (s : LineState)
    → IsDisciplinedIn phase cfg s
    → is_post_move phase ≡ false
    → (is_moving phase && not (is_empty s.in_flight)) ≡ false
    → Holds Phase.robot_work cfg s.beat s.occupancy s.parts s.in_queue []
Done-robot_work Phase.robot_work cfg s d early idle = record {
  keyed = d.keyed;
  slots = d.slots;
  held = d.held;
  queued = d.queued;
  stage = (refl, d.stage.1);
}
Done-robot_work Phase.await_guards cfg s d early idle = record {
  keyed = d.keyed;
  slots = d.slots;
  held = d.held;
  queued = d.queued;
  stage = (refl, inr d.stage.1);
}
Done-robot_work Phase.shutter_open cfg s d early idle = record {
  keyed = d.keyed;
  slots = d.slots;
  held = d.held;
  queued = d.queued;
  stage = (refl, inr d.stage.1);
}
Done-robot_work Phase.moving cfg s d early idle = record {
  keyed = d.keyed;
  slots = d.slots;
  held = d.held;
  queued = d.queued;
  stage = (refl, inr d.stage.1);
}
Done-robot_work Phase.shutter_close cfg s d early idle = absurd (ground arith)
Done-robot_work Phase.set_fans cfg s d early idle = absurd (ground arith)
Done-robot_work Phase.faulted cfg s d early idle = absurd d.stage

post_move :
    (phase : Phase) (cfg : ProcessConfig) (s : LineState)
    → IsDisciplinedIn phase cfg s
    → is_post_move phase ≡ true
    → Holds Phase.shutter_close cfg s.beat s.occupancy s.parts s.in_queue []
post_move Phase.shutter_close cfg s d late = record {
  keyed = d.keyed;
  slots = d.slots;
  held = d.held;
  queued = d.queued;
  stage = (refl, d.stage.1);
}
post_move Phase.set_fans cfg s d late = record {
  keyed = d.keyed;
  slots = d.slots;
  held = d.held;
  queued = d.queued;
  stage = (refl, d.stage.1);
}
post_move Phase.robot_work cfg s d late = absurd (ground arith)
post_move Phase.await_guards cfg s d late = absurd (ground arith)
post_move Phase.shutter_open cfg s d late = absurd (ground arith)
post_move Phase.moving cfg s d late = absurd (ground arith)
post_move Phase.faulted cfg s d late = absurd (ground arith)

apply_move-beat : (s : LineState) (src dst : Station) → (apply_move s src dst).beat ≡ s.beat
unfolding apply_move
apply_move-beat s src dst = ground arith

apply_moves-beat : (s : LineState) (moves : List Move) → (apply_moves s moves).beat ≡ s.beat
unfolding apply_moves
apply_moves-beat s [] = refl
apply_moves-beat s ((src, dst) ∷ moves) =
    apply_moves-beat (apply_move s src dst) moves ∙ apply_move-beat s src dst

-- The train's arrival, from the record of the moves under way.
pub arrived :
    (cfg : ProcessConfig) (s : LineState)
    → IsDisciplinedIn Phase.moving cfg s
    → is_empty s.in_flight ≡ false
    → let u = apply_moves (record s { fault = none }) s.in_flight in
      Holds Phase.shutter_close cfg s.beat u.occupancy u.parts u.in_queue []
arrived cfg s d under_way = elim d.stage.0 [
  | inl e ↦ absurd (ground arith)
  | inr (feed, e, feeds, go) ↦
      let t = record s { fault = none } in
      let u = apply_moves t s.in_flight in
      subst (λ b. Holds Phase.shutter_close cfg b u.occupancy u.parts u.in_queue [])
        (apply_moves-beat t s.in_flight) (Holds-shifted cfg t feed d e feeds go)
]

-- The state to go on from is disciplined in the phase to go on with.
abbrev pub Reenters : ProcessConfig → Phase × LineState → Type 0
Reenters cfg (target, u) =
    (is_faulted target ≡ false) × Holds target cfg u.beat u.occupancy u.parts u.in_queue []

moving_of :
    (phase : Phase) (cfg : ProcessConfig) (s : LineState)
    → is_moving phase ≡ true
    → IsDisciplinedIn phase cfg s
    → IsDisciplinedIn Phase.moving cfg s
moving_of Phase.moving cfg s e d = d
moving_of _ cfg s e d = absurd (ground arith)

-- The moves were not under way: the beat's guards are checked once more.
guards_of :
    (cfg : ProcessConfig) (s : LineState)
    → IsDisciplinedIn Phase.moving cfg s
    → Holds Phase.await_guards cfg s.beat s.occupancy s.parts s.in_queue []
guards_of cfg s d = record {
  keyed = d.keyed;
  slots = d.slots;
  held = d.held;
  queued = d.queued;
  stage = (refl, d.stage.1);
}

both : (a b : Bool) → (a && not b) ≡ true → (a ≡ true) × (b ≡ false)
both a b h = ground arith

guards_of_work :
    (cfg : ProcessConfig) (s : LineState)
    → IsDisciplinedIn Phase.moving cfg s
    → Holds Phase.robot_work cfg s.beat s.occupancy s.parts s.in_queue []
guards_of_work cfg s d = record {
  keyed = d.keyed;
  slots = d.slots;
  held = d.held;
  queued = d.queued;
  stage = (refl, inr d.stage.1);
}

module _ (phase : Phase) (cfg : ProcessConfig) (s : LineState)
    (d : IsDisciplinedIn phase cfg s) where
  pub reenter_at-believed : Reenters cfg (reenter_at phase s s.occupancy s.beat)
  unfolding reenter_at
  reenter_at-believed =
      if_elim (Reenters cfg) (is_post_move phase) (λ late. (refl, post_move phase cfg s d late))
        λ early.
          if_elim (Reenters cfg) (is_moving phase && not (is_empty s.in_flight))
            (λ under_way.
              let (still, some_left) = both (is_moving phase) (is_empty s.in_flight) under_way in
              let dm = moving_of phase cfg s still d in
              let projected = apply_moves (record s { fault = none }) s.in_flight in
              if_elim (Reenters cfg) (occupancy_eq s.occupancy projected.occupancy)
                {x = (Phase.shutter_close, record projected { beat = s.beat })}
                {y = if occupancy_eq s.occupancy s.occupancy
                  then (Phase.await_guards, s)
                  else (Phase.robot_work, s)}
                (λ _. (refl, arrived cfg s dm some_left))
                λ _.
                  if_elim (Reenters cfg) (occupancy_eq s.occupancy s.occupancy)
                    {x = (Phase.await_guards, s)} {y = (Phase.robot_work, s)}
                    (λ _. (refl, guards_of cfg s dm)) λ _. (refl, guards_of_work cfg s dm))
            λ idle. (refl, Done-robot_work phase cfg s d early idle)
