-- ===== src/Discipline/Staged.antt =====
-- The flash discipline and a batch of new parts (src/finishing_line/process/controller.py:
-- `declare_batch`).
use text.Mathlib.TextEquality.{eq_iff}
use finishing_line.Common.{
  Bool, Dict, List, Option, String, [], arith, contains, false, has, inl, inr, is_some, lookup,
  none, refl, some, subst, sym, true, ◌++◌, ◌||◌, ◌∷◌, ◌≡◌,
}
use finishing_line.Config.{ProcessConfig}
use finishing_line.Controller.{merge, staged}
use finishing_line.Discipline.{
  Feeds, Held, IsDisciplinedIn, IsDone, IsStart, MayGo, New, Outside, Queued, Stage,
}
use finishing_line.Discipline.Batches.{Declared, IsBatch, lookup-merge, merge-IsKeyed, merge-New}
use finishing_line.Intents.{ids}
use finishing_line.Model.{Beat, LineState, Move, Occupancy, PartState, Phase, part_of}
use finishing_line.Schedule.{next_beat}

contains-append :
    (j : String) (xs ys : List String) → contains j (xs ++ ys) ≡ (contains j xs || contains j ys)
contains-append j [] ys = refl
contains-append j (x ∷ xs) ys = ground (arith, contains-append j xs ys)

Feeds-append :
    (feed : Bool) (queue ids : List String) → Feeds feed queue → Feeds feed (queue ++ ids)
Feeds-append true [] ids f = absurd f
Feeds-append true (i ∷ queue) ids f = tt
Feeds-append false queue ids f = tt

-- What the discipline says of a phase depends on the parts at the stations only.
module _ (cfg : ProcessConfig) (beat : Beat) (t : Occupancy) (old new : Dict PartState)
    (queue more : List String) (in_flight : List Move)
    (e1 : part_of t.at_f1 new ≡ part_of t.at_f1 old) (eo : part_of t.at_o new ≡ part_of t.at_o old)
    (e2 : part_of t.at_f2 new ≡ part_of t.at_f2 old)
    (longer : (feed : Bool) → Feeds feed queue → Feeds feed more) where
  start_carried : (b : Beat) → IsStart cfg b t old → IsStart cfg b t new
  start_carried b h = rw e1 (rw eo (rw e2 h))

  done_carried : IsDone cfg beat t old → IsDone cfg beat t new
  done_carried h = rw e1 (rw eo (rw e2 h))

  may_go_carried : MayGo cfg beat t old → MayGo cfg beat t new
  may_go_carried h = rw e1 (rw e2 h)

  Stage-carried :
      (phase : Phase)
      → Stage phase cfg beat t old queue in_flight
      → Stage phase cfg beat t new more in_flight
  Stage-carried Phase.robot_work (e, inl h) = (e, inl (start_carried beat h))
  Stage-carried Phase.robot_work (e, inr h) = (e, inr (done_carried h))
  Stage-carried Phase.await_guards (e, h) = (e, done_carried h)
  Stage-carried Phase.shutter_open (e, h) = (e, done_carried h)
  Stage-carried Phase.moving (inl e, h) = (inl e, done_carried h)
  Stage-carried Phase.moving (inr (feed, e, f, g), h) =
      (inr (feed, e, longer feed f, may_go_carried g), done_carried h)
  Stage-carried Phase.shutter_close (e, h) = (e, start_carried (next_beat beat) h)
  Stage-carried Phase.set_fans (e, h) = (e, start_carried (next_beat beat) h)
  Stage-carried Phase.faulted h = h

module _ (s : LineState) (ids : List String) (new : Dict PartState)
    (d : Declared s ids [] new) where
  -- A part in the table is not in the batch.
  known-not_new : (j : String) → has j s.parts ≡ true → contains j ids ≡ false
  known-not_new j h = ground (arith, d.free j)

  known-kept : (j : String) → has j s.parts ≡ true → lookup j (merge s.parts new) ≡ lookup j s.parts
  unfolding lookup
  known-kept j h = lookup-merge new s.parts j (d.others j (known-not_new j h))

  Held-kept :
      (m : Option String) → Held s.parts m → part_of m (merge s.parts new) ≡ part_of m s.parts
  unfolding part_of
  Held-kept none h = refl
  Held-kept (some j) h = ground (arith, known-kept j h)

  Held-Held : (m : Option String) → Held s.parts m → Held (merge s.parts new) m
  Held-Held none h = tt
  Held-Held (some j) h = ground (arith, known-kept j h)

  queue-Outside :
      (m : Option String) → Held s.parts m → Outside m s.in_queue → Outside m (s.in_queue ++ ids)
  queue-Outside none h o = tt
  queue-Outside (some j) h o = ground (arith, contains-append j s.in_queue ids, known-not_new j h)

  New-has : (m : Option PartState) → New m → is_some m ≡ true
  New-has (some p) h = refl
  New-has none h = absurd h

  batch-Queued :
      (more : List String)
      → ((j : String) → contains j more ≡ true → contains j ids ≡ true)
      → IsBatch more
      → Queued (merge s.parts new) more
  batch-Queued [] within b = tt
  batch-Queued (i ∷ more) within (named, once, b) = (
    named,
    once,
    merge-New new s.parts i (d.fresh tt) (inl (d.made i (within i (ground (arith, eq_iff i i))))),
    batch-Queued more (λ j h. within j (ground arith)) b,
  )

  both-Queued :
      (queue : List String)
      → IsBatch ids
      → Queued s.parts queue
      → Queued (merge s.parts new) (queue ++ ids)
  both-Queued [] b q = batch-Queued ids (λ j h. h) b
  both-Queued (i ∷ queue) b (named, once, fresh, q) =
      let here = New-has (lookup i s.parts) fresh in
      (
        named,
        ground (arith, contains-append i queue ids, known-not_new i here),
        subst New (sym (known-kept i here)) fresh,
        both-Queued queue b q,
      )

  pub staged-IsDisciplinedIn :
      (phase : Phase) (cfg : ProcessConfig)
      → IsBatch ids
      → IsDisciplinedIn phase cfg s
      → IsDisciplinedIn phase cfg (staged s new ids)
  unfolding staged
  staged-IsDisciplinedIn phase cfg b h = record {
    keyed = merge-IsKeyed new s.parts (d.fresh tt) h.keyed;
    slots = record {
      none_in = h.slots.none_in;
      none_out = h.slots.none_out;
      id_f1 = h.slots.id_f1;
      id_o = h.slots.id_o;
      id_f2 = h.slots.id_f2;
      f1_o = h.slots.f1_o;
      f1_f2 = h.slots.f1_f2;
      o_f2 = h.slots.o_f2;
      f1_queue = queue-Outside s.occupancy.at_f1 h.held.0 h.slots.f1_queue;
      o_queue = queue-Outside s.occupancy.at_o h.held.1 h.slots.o_queue;
      f2_queue = queue-Outside s.occupancy.at_f2 h.held.2 h.slots.f2_queue;
    };
    held = (
      Held-Held s.occupancy.at_f1 h.held.0,
      Held-Held s.occupancy.at_o h.held.1,
      Held-Held s.occupancy.at_f2 h.held.2,
    );
    queued = both-Queued s.in_queue b h.queued;
    stage =
        Stage-carried cfg s.beat s.occupancy s.parts (merge s.parts new) s.in_queue
          (s.in_queue ++ ids) s.in_flight (Held-kept s.occupancy.at_f1 h.held.0)
          (Held-kept s.occupancy.at_o h.held.1) (Held-kept s.occupancy.at_f2 h.held.2)
          (λ feed. Feeds-append feed s.in_queue ids) phase h.stage;
  }
