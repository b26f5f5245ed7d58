-- ===== src/Pairing/Order.antt =====
-- What a pairing policy makes of a queue (src/finishing_line/core/pairing.py).
use mathlib.Core.Option
use finishing_line.Common.{
  List, Option, [], ap, arith, if_elim, if◌then◌else◌, length, length-append, none, refl, some, suc,
  true, zero, ℕ, ◌%◌, ◌++◌, ◌+◌, ◌/◌, ◌==◌, ◌∙◌, ◌∷◌, ◌≡◌,
}
use finishing_line.Model.{PartRole, PartState, Product}
use finishing_line.Pairing.{
  Pair, assign_from, assign_roles, of_product, pair_any, pair_blocks, pair_same, same_product,
}

-- The parts of the pairs, in order.
abbrev pub members : List Pair → List PartState
members [] = []
members ((lead, none) ∷ pairs) = lead ∷ members pairs
members ((lead, some trail) ∷ pairs) = lead ∷ trail ∷ members pairs

abbrev pub AllSame : List Pair → Type 0
AllSame [] = Unit {0}
AllSame ((lead, none) ∷ pairs) = AllSame pairs
AllSame ((lead, some trail) ∷ pairs) = (trail.product ≡ lead.product) × AllSame pairs

same_product-eq : (a b : Product) → same_product a b ≡ true → a ≡ b
same_product-eq a b h = ground arith

-- `SameProduct` keeps the queue's order and drops no part, and both parts of a pair are of one
-- product.
pub pair_same-keeps :
    (queue : List PartState) → (members (pair_same queue) ≡ queue) × AllSame (pair_same queue)
unfolding pair_same
pair_same-keeps [] = (refl, tt)
pair_same-keeps (lead ∷ []) = (refl, tt)
pair_same-keeps (lead ∷ next ∷ queue) =
    if_elim (λ pairs. (members pairs ≡ lead ∷ next ∷ queue) × AllSame pairs)
      (same_product next.product lead.product)
      (λ same.
        let (order, alike) = pair_same-keeps queue in
        (rw order refl, (same_product-eq next.product lead.product same, alike)))
      λ other. let (order, alike) = pair_same-keeps (next ∷ queue) in (rw order refl, alike)

-- `AnyProduct` keeps the queue's order and drops no part, and leaves at most one part alone, the
-- last of an odd queue.
pub pair_any-keeps :
    (queue : List PartState)
    → (members (pair_any queue) ≡ queue) × (length (pair_any queue) ≡ (length queue + 1) / 2)
unfolding pair_any
pair_any-keeps [] = (refl, refl)
pair_any-keeps (lead ∷ []) = (refl, refl)
pair_any-keeps (lead ∷ next ∷ queue) =
    let (order, count) = pair_any-keeps queue in (rw order refl, omega (arith, count))

members-append : (xs ys : List Pair) → members (xs ++ ys) ≡ members xs ++ members ys
members-append [] ys = refl
members-append ((lead, none) ∷ xs) ys = ap (λ ps. lead ∷ ps) (members-append xs ys)
members-append ((lead, some trail) ∷ xs) ys = ap (λ ps. lead ∷ trail ∷ ps) (members-append xs ys)

AllSame-append : (xs ys : List Pair) → AllSame xs → AllSame ys → AllSame (xs ++ ys)
AllSame-append [] ys h k = k
AllSame-append ((lead, none) ∷ xs) ys h k = AllSame-append xs ys h k
AllSame-append ((lead, some trail) ∷ xs) ys (e, h) k = (e, AllSame-append xs ys h k)

blocks-length :
    (queue : List PartState)
    → length (of_product Product.cube queue ++ of_product Product.browser queue) ≡ length queue
unfolding of_product
blocks-length [] = refl
blocks-length (p ∷ queue) = ground (
  arith,
  blocks-length queue,
  length-append (of_product Product.cube queue) (of_product Product.browser queue),
  length-append (of_product Product.cube queue) (p ∷ of_product Product.browser queue),
)

-- `BrowsersInDedicatedBlocks` pairs all cubes before all browsers, each in the queue's order, drops
-- no part, and pairs no two products.
pub pair_blocks-keeps :
    (queue : List PartState)
    → (members (pair_blocks queue)
        ≡ of_product Product.cube queue ++ of_product Product.browser queue)
      × AllSame (pair_blocks queue)
      × (length (members (pair_blocks queue)) ≡ length queue)
unfolding pair_blocks
pair_blocks-keeps queue =
    let cubes = pair_same-keeps (of_product Product.cube queue) in
    let browsers = pair_same-keeps (of_product Product.browser queue) in
    let order =
      members-append (pair_same (of_product Product.cube queue))
        (pair_same (of_product Product.browser queue)) in
    let all_parts : members (
          pair_same (of_product Product.cube queue) ++ pair_same (of_product Product.browser queue))
        ≡ of_product Product.cube queue ++ of_product Product.browser queue =
      rw order (rw cubes.0 (rw browsers.0 refl)) in
    (
      all_parts,
      AllSame-append (pair_same (of_product Product.cube queue))
          (pair_same (of_product Product.browser queue)) cubes.1 browsers.1,
      rw all_parts (blocks-length queue),
    )

-- The entry at a place of a list.
abbrev pub nth {ℓ} : {A : Type ℓ} → ℕ → List A → Option A
nth k [] = none
nth zero (x ∷ xs) = some x
nth (suc k) (x ∷ xs) = nth k xs

abbrev pub numbered : ℕ → PartState → PartState
numbered k p = record p {
  role = if k % 2 == 0 then PartRole.lead else PartRole.trail;
  pair_index = k / 2;
}

assign_from-nth :
    (queue : List PartState) (i k : ℕ)
    → nth k (assign_from i queue) ≡ Option.map (numbered (i + k)) (nth k queue)
unfolding assign_from
assign_from-nth [] i k = refl
assign_from-nth (p ∷ queue) i zero = ap (λ m. some (numbered m p)) (omega arith)
assign_from-nth (p ∷ queue) i (suc k) =
    assign_from-nth queue (suc i) k ∙ ap (λ m. Option.map (numbered m) (nth k queue)) (omega arith)

-- `assign_roles` numbers the pairs by arrival: the part at place `k` gets pair `k / 2`, is a lead at
-- an even place and a trail at an odd one, and is otherwise the part that was there.
pub assign_roles-nth :
    (queue : List PartState) (k : ℕ)
    → nth k (assign_roles queue) ≡ Option.map (numbered k) (nth k queue)
unfolding assign_roles
assign_roles-nth queue k =
    assign_from-nth queue 0 k ∙ ap (λ m. Option.map (numbered m) (nth k queue)) (omega arith)
