-- ===== src/Controller/Commands.antt =====
-- The operator's commands (src/finishing_line/process/controller.py).
use finishing_line.Common.{
  Bool, Dict, List, Option, String, [], contains, false, has, inl, lookup, none, refl, some, true,
  ℕ, ◌++◌, ◌∷◌, ◌≡◌,
}
use finishing_line.Controller.{
  Controller, declare_batch, declare_loop, is_boundary, loop_pass, staged, with_batch,
}
use finishing_line.Discipline.{New}
use finishing_line.Discipline.Batches.{WhenMade, declare_loop-Declared, lookup-merge, merge-New}
use finishing_line.Executor.{heartbeat}
use finishing_line.Intents.{ids}
use finishing_line.Model.{PartState, Product}
use finishing_line.Supervisor.{Readings, idle_tick}

-- The two ways in which a batch can end: refused, and taken.
abbrev pub Took : Controller → List String → Controller × Bool → Type 0
Took c ids (d, false) = d.sup ≡ c.sup
Took c ids (d, true) =
    (d.sup.state.in_queue ≡ c.sup.state.in_queue ++ ids)
    × ((id : String)
        → contains id ids ≡ true
        → (has id c.sup.state.parts ≡ false)
          × (contains id c.sup.state.in_queue ≡ false)
          × New (lookup id d.sup.state.parts))
    × ((id : String)
        → contains id ids ≡ false
        → lookup id d.sup.state.parts ≡ lookup id c.sup.state.parts)

with_batch-Took :
    (c : Controller) (ids : List String) (r : ℕ × Option (Dict PartState))
    → WhenMade c.sup.state ids [] r
    → Took c ids (with_batch c ids r)
unfolding staged lookup
with_batch-Took c ids (declared, none) w = refl
with_batch-Took c ids (declared, some new) w = (
  refl,
  λ id h. (
    (w.free id h).0,
    (w.free id h).1,
    merge-New new c.sup.state.parts id (w.fresh tt) (inl (w.made id h)),
  ),
  λ id h. lookup-merge new c.sup.state.parts id (w.others id h),
)

-- A batch with an id that the line knows is refused, and the line stays as it was. Otherwise it is
-- taken: the queue ends with the batch, in its order, each of its ids stands in the table for a part
-- without a coat, and the other entries of the table are as they were.
pub declare_batch-Took :
    (c : Controller) (product : Product) (ids : List String)
    → Took c ids (declare_batch product ids c)
unfolding declare_batch
declare_batch-Took c product ids =
    with_batch-Took c ids (declare_loop c.sup.state product c.declared [] ids)
      (declare_loop-Declared c.sup.state product c.declared ids [])

-- A paused controller at a beat's boundary changes only the line's flash time and fans: no intent
-- reaches the executor, and the devices get the heartbeat alone.
pub paused-holds :
    (c : Controller) (now : Readings) (dt : ℕ)
    → c.enabled ≡ false
    → is_boundary c.sup.state.phase ≡ true
    → (d : Controller) × (loop_pass c now dt ≡ some (d, heartbeat ∷ []))
      × (d.sup.executor ≡ c.sup.executor)
      × (d.sup.state.phase ≡ c.sup.state.phase)
      × (d.sup.state.pending ≡ c.sup.state.pending)
      × (d.sup.state.occupancy ≡ c.sup.state.occupancy)
unfolding loop_pass idle_tick
paused-holds c now dt off boundary = (
  record c { sup = (idle_tick c.sup now.cc dt).0 },
  rw off (rw boundary refl),
  refl,
  refl,
  refl,
  refl,
)
