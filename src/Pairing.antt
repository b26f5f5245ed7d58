-- ===== src/Pairing.antt =====
-- src/finishing_line/core/pairing.py: how a queue of parts becomes pairs of a lead and a trail.
pub mod Order
use finishing_line.Common.{
  Bool, List, Option, String, [], false, if◌then◌else◌, none, some, suc, true, ℕ, ◌%◌, ◌++◌, ◌/◌,
  ◌===◌, ◌==◌, ◌∷◌,
}
use finishing_line.Model.{PartRole, PartState, Product}

abbrev pub same_product : Product → Product → Bool
same_product Product.cube Product.cube = true
same_product Product.browser Product.browser = true
same_product _ _ = false

-- The loop of `assign_roles`: the parts from index `i` on.
unfoldable pub assign_from : ℕ → List PartState → List PartState
assign_from i [] = []
assign_from i (p ∷ queue) =
    record p { role = if i % 2 == 0 then PartRole.lead else PartRole.trail; pair_index = i / 2 }
    ∷ assign_from (suc i) queue

unfoldable pub assign_roles : List PartState → List PartState
unfolding assign_from
assign_roles queue = assign_from 0 queue

abbrev pub Pair : Type 0
Pair = PartState × Option PartState

-- `SameProduct.pair`
unfoldable pub pair_same : List PartState → List Pair
pair_same [] = []
pair_same (lead ∷ []) = (lead, none) ∷ []
pair_same (lead ∷ next ∷ queue) =
    let together = (lead, some next) ∷ pair_same queue in
    let alone = (lead, none) ∷ pair_same (next ∷ queue) in
    if same_product next.product lead.product then together else alone

-- `AnyProduct.pair`
unfoldable pub pair_any : List PartState → List Pair
pair_any [] = []
pair_any (lead ∷ []) = (lead, none) ∷ []
pair_any (lead ∷ next ∷ queue) = (lead, some next) ∷ pair_any queue

unfoldable pub of_product : Product → List PartState → List PartState
of_product product [] = []
of_product product (p ∷ queue) =
    let rest = of_product product queue in if same_product p.product product then p ∷ rest else rest

-- `BrowsersInDedicatedBlocks.pair`
unfoldable pub pair_blocks : List PartState → List Pair
unfolding pair_same of_product
pair_blocks queue =
    pair_same (of_product Product.cube queue) ++ pair_same (of_product Product.browser queue)

pub data Policy : Type 0 where
  same_product_only any_product browsers_in_dedicated_blocks : Policy

-- `none` is the ValueError of a name that no policy has.
unfoldable pub from_name : String → Option Policy
from_name name =
    if name === "same_product"
    then some same_product_only
    else if name === "any"
    then some any_product
    else if name === "browsers_in_dedicated_blocks"
    then some browsers_in_dedicated_blocks
    else none

unfoldable pub pair : Policy → List PartState → List Pair
unfolding pair_same pair_any pair_blocks
pair same_product_only queue = pair_same queue
pair any_product queue = pair_any queue
pair browsers_in_dedicated_blocks queue = pair_blocks queue
