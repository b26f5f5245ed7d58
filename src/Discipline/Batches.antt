-- ===== src/Discipline/Batches.antt =====
-- What `declare_batch` (src/finishing_line/process/controller.py) adds to the table and the queue.
use text.Mathlib.TextEquality.{eq_iff}
use finishing_line.Common.{
  Bool-cases, Dict, List, Option, String, [], arith, contains, false, has, if_elim, inl, inr,
  insert, lookup, lookup-insert, none, refl, some, true, ℕ, ◌+◌, ◌===◌, ◌||◌, ◌∷◌, ◌≡◌, ◌⊎◌,
}
use finishing_line.Controller.{declare_loop, declare_part, merge}
use finishing_line.Discipline.{New}
use finishing_line.Flash.{IsKeyed}
use finishing_line.Intents.{ids}
use finishing_line.Model.{LineState, PartState, Product}

-- The entries that a batch makes.
abbrev pub AllFresh : Dict PartState → Type 0
AllFresh [] = Unit {0}
AllFresh ((k, p) ∷ parts) = (p.part_id ≡ k) × (p.coats_applied ≡ 0) × AllFresh parts

-- Ids that are not empty, each once.
abbrev pub IsBatch : List String → Type 0
IsBatch [] = Unit {0}
IsBatch (i ∷ ids) = ((i === "") ≡ false) × (contains i ids ≡ false) × IsBatch ids

pub insert-AllFresh :
    (k : String) (p : PartState) (parts : Dict PartState)
    → p.part_id ≡ k
    → p.coats_applied ≡ 0
    → AllFresh parts
    → AllFresh (insert k p parts)
unfolding insert
insert-AllFresh k p [] e z f = (e, z, tt)
insert-AllFresh k p ((j, q) ∷ parts) e z (ej, zj, f) =
    if_elim AllFresh (j === k) (λ _. (e, z, f)) λ _. (ej, zj, insert-AllFresh k p parts e z f)

pub insert-IsKeyed :
    (k : String) (p : PartState) (parts : Dict PartState)
    → p.part_id ≡ k
    → IsKeyed parts
    → IsKeyed (insert k p parts)
insert-IsKeyed k p parts e keyed j q found =
    ground (arith, eq_iff k j, keyed j q, lookup-insert k j p parts)

pub has-insert :
    (k j : String) (p : PartState) (parts : Dict PartState)
    → has j (insert k p parts) ≡ (k === j || has j parts)
has-insert k j p parts = ground (arith, lookup-insert k j p parts)

pub merge-IsKeyed :
    (new_parts parts : Dict PartState)
    → AllFresh new_parts
    → IsKeyed parts
    → IsKeyed (merge parts new_parts)
unfolding merge
merge-IsKeyed [] parts f keyed = keyed
merge-IsKeyed ((k, p) ∷ new_parts) parts (e, z, f) keyed =
    merge-IsKeyed new_parts (insert k p parts) f (insert-IsKeyed k p parts e keyed)

-- An id that the batch does not have keeps its entry.
pub lookup-merge :
    (new_parts parts : Dict PartState) (j : String)
    → has j new_parts ≡ false
    → lookup j (merge parts new_parts) ≡ lookup j parts
unfolding merge lookup
lookup-merge [] parts j h = refl
lookup-merge ((k, p) ∷ new_parts) parts j h =
    ground (arith, lookup-merge new_parts (insert k p parts) j, lookup-insert k j p parts)

-- An id that the batch has stands for a part without a coat.
New-insert :
    (k j : String) (p : PartState) (parts : Dict PartState)
    → p.coats_applied ≡ 0
    → (k === j) ≡ true ⊎ New (lookup j parts)
    → New (lookup j (insert k p parts))
New-insert k j p parts z (inl e) = rw (lookup-insert k j p parts) (rw e z)
New-insert k j p parts z (inr h) =
    rw (lookup-insert k j p parts) (if_elim New (k === j) (λ _. z) (λ _. h))

pub merge-New :
    (new_parts parts : Dict PartState) (j : String)
    → AllFresh new_parts
    → (has j new_parts ≡ true) ⊎ New (lookup j parts)
    → New (lookup j (merge parts new_parts))
unfolding merge lookup
merge-New [] parts j f (inl h) = absurd (ground arith)
merge-New [] parts j f (inr h) = h
merge-New ((k, p) ∷ new_parts) parts j (e, z, f) (inr h) =
    merge-New new_parts (insert k p parts) j f (inr (New-insert k j p parts z (inr h)))
merge-New ((k, p) ∷ new_parts) parts j (e, z, f) (inl h) = elim (Bool-cases (k === j)) [
  | inl same ↦
      merge-New new_parts (insert k p parts) j f (inr (New-insert k j p parts z (inl same)))
  | inr other ↦ merge-New new_parts (insert k p parts) j f (inl (ground arith))
]

-- What the loop has made of a batch that it did not refuse.
pub record Declared (s : LineState) (ids : List String) (old new : Dict PartState) : Type 0 where
  pub fresh : AllFresh old → AllFresh new
  pub kept : (j : String) → has j old ≡ true → has j new ≡ true
  pub made : (j : String) → contains j ids ≡ true → has j new ≡ true
  pub others : (j : String) → contains j ids ≡ false → has j new ≡ has j old
  pub free :
      (j : String)
      → contains j ids ≡ true
      → (has j s.parts ≡ false) × (contains j s.in_queue ≡ false)

abbrev pub WhenMade :
    LineState → List String → Dict PartState → ℕ × Option (Dict PartState) → Type 0
WhenMade s ids old (declared, none) = Unit {0}
WhenMade s ids old (declared, some new) = Declared s ids old new

module _ (s : LineState) (product : Product) where
  one_more :
      (declared : ℕ) (id : String) (ids : List String) (old : Dict PartState)
      (r : ℕ × Option (Dict PartState))
      → (has id s.parts || contains id s.in_queue) ≡ false
      → WhenMade s ids (insert id (declare_part product declared id) old) r
      → WhenMade s (id ∷ ids) old r
  one_more declared id ids old (d, none) free h = tt
  one_more declared id ids old (d, some new) free h =
      let p = declare_part product declared id in
      record {
        fresh = λ f. h.fresh (insert-AllFresh id p old refl refl f);
        kept = λ j e. ground (arith, h.kept j, has-insert id j p old);
        made = λ j e.
            ground (arith, h.kept j, h.made j, has-insert id j p old, eq_iff j id, eq_iff id j);
        others = λ j e. ground (arith, h.others j, has-insert id j p old, eq_iff j id, eq_iff id j);
        free = λ j e. ground (arith, h.free j, eq_iff j id);
      }

  pub declare_loop-Declared :
      (declared : ℕ) (ids : List String) (old : Dict PartState)
      → WhenMade s ids old (declare_loop s product declared old ids)
  unfolding declare_loop
  declare_loop-Declared declared [] old = record {
    fresh = λ f. f;
    kept = λ j e. e;
    made = λ j e. absurd (ground arith);
    others = λ j e. refl;
    free = λ j e. absurd (ground arith);
  }
  declare_loop-Declared declared (id ∷ ids) old =
      if_elim (WhenMade s (id ∷ ids) old) (has id s.parts || contains id s.in_queue) (λ _. tt)
        λ free.
          let old' = insert id (declare_part product declared id) old in
          one_more declared id ids old (declare_loop s product (declared + 1) old' ids) free
            (declare_loop-Declared (declared + 1) ids old')
