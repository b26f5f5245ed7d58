-- ===== src/Controller/Batches.antt =====
-- Which batches `declare_batch` takes, and what its counter of arrivals does
-- (src/finishing_line/process/controller.py).
use finishing_line.Common.{
  Bool, Bool-cases, Dict, List, Option, String, [], ap, arith, contains, false, has, inl, inr,
  insert, is_some, length, none, refl, some, sym, true, ℕ, ◌++◌, ◌+◌, ◌||◌, ◌↔◌, ◌∙◌, ◌∷◌, ◌≡◌,
}
use finishing_line.Controller.{Controller, declare_batch, declare_loop, declare_part, with_batch}
use finishing_line.Intents.{ids}
use finishing_line.Model.{LineState, PartState, Product}

abbrev pub is_known : LineState → String → Bool
is_known s id = has id s.parts || contains id s.in_queue

-- The line knows none of the ids.
abbrev pub AllUnknown : LineState → List String → Type 0
AllUnknown s [] = Unit {0}
AllUnknown s (id ∷ ids) = (is_known s id ≡ false) × AllUnknown s ids

module _ (s : LineState) (product : Product) where
  declare_loop-accepts :
      (ids : List String) (declared : ℕ) (new_parts : Dict PartState)
      → AllUnknown s ids
      → ((declare_loop s product declared new_parts ids).0 ≡ declared + length ids)
        × (is_some (declare_loop s product declared new_parts ids).1 ≡ true)
  unfolding declare_loop
  declare_loop-accepts [] declared new_parts u = (omega arith, refl)
  declare_loop-accepts (id ∷ ids) declared new_parts (unknown, u) =
      let (count, made) =
        declare_loop-accepts ids (declared + 1)
          (insert id (declare_part product declared id) new_parts) u in
      rw unknown (count ∙ omega arith, made)

  -- A known id stops the loop: the ids before it have been counted.
  declare_loop-stops :
      (ids more : List String) (known : String) (declared : ℕ) (new_parts : Dict PartState)
      → AllUnknown s ids
      → is_known s known ≡ true
      → declare_loop s product declared new_parts (ids ++ known ∷ more)
        ≡ (declared + length ids, none)
  unfolding declare_loop
  declare_loop-stops [] more known declared new_parts u k =
      rw k (ap (λ (m : ℕ). (m, none)) (omega arith))
  declare_loop-stops (id ∷ ids) more known declared new_parts (unknown, u) k = rw unknown (
      declare_loop-stops ids more known (declared + 1)
        (insert id (declare_part product declared id) new_parts) u k
      ∙ ap (λ (m : ℕ). (m, none)) (omega arith))

  declare_loop-unknown :
      (ids : List String) (declared : ℕ) (new_parts : Dict PartState)
      → is_some (declare_loop s product declared new_parts ids).1 ≡ true
      → AllUnknown s ids
  unfolding declare_loop
  declare_loop-unknown [] declared new_parts h = tt
  declare_loop-unknown (id ∷ ids) declared new_parts h = elim (Bool-cases (is_known s id)) [
    | inl e ↦ absurd (ground arith)
    | inr e ↦ (
      e,
      declare_loop-unknown ids (declared + 1)
          (insert id (declare_part product declared id) new_parts) (ground arith),
    )
  ]

with_batch-taken :
    (c : Controller) (ids : List String) (r : ℕ × Option (Dict PartState))
    → ((with_batch c ids r).1 ≡ is_some r.1) × ((with_batch c ids r).0.declared ≡ r.0)
with_batch-taken c ids (declared, none) = (refl, refl)
with_batch-taken c ids (declared, some new) = (refl, refl)

-- `declare_batch` takes a batch exactly when the line knows none of its ids, be they repeated in the
-- batch or not.
pub declare_batch-exact :
    (c : Controller) (product : Product) (ids : List String)
    → ((declare_batch product ids c).1 ≡ true) ↔ AllUnknown c.sup.state ids
unfolding declare_batch
declare_batch-exact c product ids =
    let r = declare_loop c.sup.state product c.declared [] ids in
    let taken = (with_batch-taken c ids r).0 in
    (
      λ h. declare_loop-unknown c.sup.state product ids c.declared [] (sym taken ∙ h),
      λ u. taken ∙ (declare_loop-accepts c.sup.state product ids c.declared [] u).1,
    )

-- The counter of arrivals grows by the batch's length when the batch is taken. When a batch is
-- refused at a known id, the counter has grown by the number of ids that stand before that one.
pub declare_batch-counts :
    (c : Controller) (product : Product) (ids more : List String) (known : String)
    → AllUnknown c.sup.state ids
    → is_known c.sup.state known ≡ true
    → ((declare_batch product ids c).0.declared ≡ c.declared + length ids)
      × ((declare_batch product (ids ++ known ∷ more) c).1 ≡ false)
      × ((declare_batch product (ids ++ known ∷ more) c).0.declared ≡ c.declared + length ids)
unfolding declare_batch
declare_batch-counts c product ids more known u k =
    let stopped = declare_loop-stops c.sup.state product ids more known c.declared [] u k in
    let r = declare_loop c.sup.state product c.declared [] (ids ++ known ∷ more) in
    let refused = with_batch-taken c (ids ++ known ∷ more) r in
    (
      (with_batch-taken c ids (declare_loop c.sup.state product c.declared [] ids)).1
          ∙ (declare_loop-accepts c.sup.state product ids c.declared [] u).0,
      refused.0 ∙ ap (λ (x : ℕ × Option (Dict PartState)). is_some x.1) stopped,
      refused.1 ∙ ap (λ (x : ℕ × Option (Dict PartState)). x.0) stopped,
    )
