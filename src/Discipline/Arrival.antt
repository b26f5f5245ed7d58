-- ===== src/Discipline/Arrival.antt =====
-- The flash discipline when the train has moved one station (src/finishing_line/core/machine.py:
-- `_apply_moves`).
use finishing_line.Common.{
  Bool, Dict, List, Option, String, [], arith, eq_iff, false, lookup, lookup-remove, none, refl,
  some, true, ◌∷◌, ◌≡◌,
}
use finishing_line.Config.{ProcessConfig}
use finishing_line.Discipline.{
  AllHeld, Apart, Held, IsDone, IsStart, MayGo, MayLeave, NonEmpty, Once, Outside, Queued, Raw,
  Ready, Slots,
}
use finishing_line.Discipline.Shift.{fed, gone, left, shifted_occupancy, shifted_parts, takes_in}
use finishing_line.Flash.{IsKeyed}
use finishing_line.Model.{Beat, Occupancy, PartState, part_of}
use finishing_line.Schedule.{next_beat}
use finishing_line.Timers.{may_leave_fan}

pub Apart-sym : (m k : Option String) → Apart m k → Apart k m
Apart-sym none none h = tt
Apart-sym none (some j) h = tt
Apart-sym (some i) none h = tt
Apart-sym (some i) (some j) h = ground (arith, eq_iff i j, eq_iff j i)

Outside-head :
    (m : Option String) (i : String) (queue : List String)
    → Outside m (i ∷ queue)
    → Apart m (some i) × Outside m queue
Outside-head none i queue h = (tt, tt)
Outside-head (some j) i queue h = ground arith

lookup-gone :
    (m : Option String) (j : String) (parts : Dict PartState)
    → Apart m (some j)
    → lookup j (gone m parts) ≡ lookup j parts
lookup-gone none j parts h = refl
lookup-gone (some i) j parts h = ground (arith, lookup-remove i j parts)

part_of-gone :
    (k m : Option String) (parts : Dict PartState)
    → Apart k m
    → part_of k (gone m parts) ≡ part_of k parts
unfolding part_of
part_of-gone none m parts h = refl
part_of-gone (some j) m parts h = ground (arith, lookup-gone m j parts (Apart-sym (some j) m h))

Queued-gone :
    (m : Option String) (parts : Dict PartState) (queue : List String)
    → Outside m queue
    → Queued parts queue
    → Queued (gone m parts) queue
Queued-gone m parts [] w h = tt
Queued-gone m parts (i ∷ queue) w h =
    let (apart, outside) = Outside-head m i queue w in
    (h.0, h.1, rw (lookup-gone m i parts apart) (h.2), Queued-gone m parts queue outside h.3)

Held-gone :
    (k m : Option String) (parts : Dict PartState)
    → Apart k m
    → Held parts k
    → Held (gone m parts) k
Held-gone none m parts w h = tt
Held-gone (some j) m parts w h = rw (lookup-gone m j parts (Apart-sym (some j) m w)) h

IsKeyed-gone : (m : Option String) (parts : Dict PartState) → IsKeyed parts → IsKeyed (gone m parts)
IsKeyed-gone none parts k j p e = k j p e
IsKeyed-gone (some i) parts k j p e = ground (arith, lookup-remove i j parts, k j p)

-- What enters F1 is a part with no coat, and no id of the line.
module _ (feed : Bool) (queue : List String) (parts : Dict PartState) (h : Queued parts queue) where
  fed-Raw : Raw (part_of (fed feed queue) parts)
  unfolding part_of
  fed-Raw = ground arith

  fed-NonEmpty : NonEmpty (fed feed queue)
  fed-NonEmpty = ground arith

  fed-Outside : Outside (fed feed queue) (left feed queue)
  fed-Outside = ground arith

  fed-Held : Held parts (fed feed queue)
  fed-Held = ground arith

  left-Queued : Queued parts (left feed queue)
  left-Queued = ground arith

fed-Apart :
    (feed : Bool) (queue : List String) (m : Option String)
    → Outside m queue
    → Apart m (fed feed queue)
fed-Apart false queue none h = tt
fed-Apart false queue (some i) h = tt
fed-Apart true [] none h = tt
fed-Apart true [] (some i) h = tt
fed-Apart true (j ∷ queue) m h = (Outside-head m j queue h).0

left-Outside :
    (feed : Bool) (queue : List String) (m : Option String)
    → Outside m queue
    → Outside m (left feed queue)
left-Outside false queue m h = h
left-Outside true [] m h = h
left-Outside true (j ∷ queue) m h = (Outside-head m j queue h).1

module _ (t : Occupancy) (queue : List String) (parts : Dict PartState) (feed : Bool)
    (w : Slots t queue) (h : Queued parts queue) where
  Slots-entering :
      Slots
        (record {
          at_in = none;
          at_f1 = fed feed queue;
          at_o = t.at_f1;
          at_f2 = t.at_o;
          at_out = none;
        })
        (left feed queue)
  Slots-entering = record {
    none_in = refl;
    none_out = refl;
    id_f1 = fed-NonEmpty feed queue parts h;
    id_o = w.id_f1;
    id_f2 = w.id_o;
    f1_o = Apart-sym t.at_f1 _ (fed-Apart feed queue t.at_f1 w.f1_queue);
    f1_f2 = Apart-sym t.at_o _ (fed-Apart feed queue t.at_o w.o_queue);
    o_f2 = w.f1_o;
    f1_queue = fed-Outside feed queue parts h;
    o_queue = left-Outside feed queue t.at_f1 w.f1_queue;
    f2_queue = left-Outside feed queue t.at_o w.o_queue;
  }

  pub Slots-shifted :
      (beat : Beat)
      → Slots (shifted_occupancy beat t (fed feed queue)) (left (takes_in beat feed) queue)
  Slots-shifted Beat.p1 = record {
    none_in = refl;
    none_out = refl;
    id_f1 = tt;
    id_o = w.id_f1;
    id_f2 = w.id_o;
    f1_o = tt;
    f1_f2 = tt;
    o_f2 = w.f1_o;
    f1_queue = tt;
    o_queue = w.f1_queue;
    f2_queue = w.o_queue;
  }
  Slots-shifted Beat.p2 = record {
    none_in = refl;
    none_out = refl;
    id_f1 = w.id_o;
    id_o = w.id_f2;
    id_f2 = tt;
    f1_o = w.o_f2;
    f1_f2 = ground arith;
    o_f2 = ground arith;
    f1_queue = w.o_queue;
    o_queue = w.f2_queue;
    f2_queue = tt;
  }
  Slots-shifted Beat.p3 = Slots-entering
  Slots-shifted Beat.p4 = Slots-entering

module _ (t : Occupancy) (queue : List String) (parts : Dict PartState) (feed : Bool)
    (w : Slots t queue) (h : Queued parts queue) (held : AllHeld parts t) where
  pub Held-shifted :
      (beat : Beat)
      → AllHeld (shifted_parts beat t parts) (shifted_occupancy beat t (fed feed queue))
  Held-shifted Beat.p1 = (
    tt,
    Held-gone t.at_f1 t.at_f2 parts w.f1_f2 held.0,
    Held-gone t.at_o t.at_f2 parts w.o_f2 held.1,
  )
  Held-shifted Beat.p2 = (held.1, held.2, tt)
  Held-shifted Beat.p3 = (fed-Held feed queue parts h, held.0, held.1)
  Held-shifted Beat.p4 = (
    Held-gone (fed feed queue) t.at_f2 parts
        (Apart-sym t.at_f2 _ (fed-Apart feed queue t.at_f2 w.f2_queue))
        (fed-Held feed queue parts h),
    Held-gone t.at_f1 t.at_f2 parts w.f1_f2 held.0,
    Held-gone t.at_o t.at_f2 parts w.o_f2 held.1,
  )

-- A part that has one coat and may leave its fan is ready for the second.
Ready-leaving : (cfg : ProcessConfig) (m : Option PartState) → Once m → MayLeave cfg m → Ready cfg m
unfolding may_leave_fan
Ready-leaving cfg none h g = tt
Ready-leaving cfg (some p) h g = ground arith

module _ (cfg : ProcessConfig) (t : Occupancy) (queue : List String) (parts : Dict PartState)
    (feed : Bool) (w : Slots t queue) (h : Queued parts queue) where
  pub Queued-shifted :
      (beat : Beat) → Queued (shifted_parts beat t parts) (left (takes_in beat feed) queue)
  Queued-shifted Beat.p1 = Queued-gone t.at_f2 parts queue w.f2_queue h
  Queued-shifted Beat.p2 = h
  Queued-shifted Beat.p3 = left-Queued feed queue parts h
  Queued-shifted Beat.p4 =
      Queued-gone t.at_f2 parts (left feed queue) (left-Outside feed queue t.at_f2 w.f2_queue)
        (left-Queued feed queue parts h)

  pub IsKeyed-shifted : (beat : Beat) → IsKeyed parts → IsKeyed (shifted_parts beat t parts)
  IsKeyed-shifted Beat.p1 k = IsKeyed-gone t.at_f2 parts k
  IsKeyed-shifted Beat.p2 k = k
  IsKeyed-shifted Beat.p3 k = k
  IsKeyed-shifted Beat.p4 k = IsKeyed-gone t.at_f2 parts k

  pub IsStart-shifted :
      (beat : Beat)
      → IsDone cfg beat t parts
      → MayGo cfg beat t parts
      → IsStart cfg
          (next_beat beat)
          (shifted_occupancy beat t (fed feed queue))
          (shifted_parts beat t parts)
  unfolding next_beat may_leave_fan
  IsStart-shifted Beat.p1 (v, d) g = (
    refl,
    (
      rw (part_of-gone t.at_f1 t.at_f2 parts w.f1_f2) (d.0),
      rw (part_of-gone t.at_o t.at_f2 parts w.o_f2) (d.1),
    ),
  )
  IsStart-shifted Beat.p2 (v, d) g =
      (refl, (d.0, Ready-leaving cfg (part_of t.at_f2 parts) d.1 g.1))
  IsStart-shifted Beat.p3 (v, d) g =
      (tt, (fed-Raw feed queue parts h, Ready-leaving cfg (part_of t.at_f1 parts) d.0 g.0, d.1))
  IsStart-shifted Beat.p4 (v, d) g = (
    tt,
    (
      rw
          (part_of-gone (fed feed queue) t.at_f2 parts
            (Apart-sym t.at_f2 _ (fed-Apart feed queue t.at_f2 w.f2_queue)))
          (fed-Raw feed queue parts h),
      rw (part_of-gone t.at_f1 t.at_f2 parts w.f1_f2) (d.0),
      rw (part_of-gone t.at_o t.at_f2 parts w.o_f2) (d.1),
    ),
  )
