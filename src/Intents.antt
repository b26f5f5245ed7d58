-- ===== src/Intents.antt =====
-- src/finishing_line/core/intents.py: what the core asks for. The module's counter `_ids` is
-- passed along: the intent made at `n` has the id "i{n}", and the next one is made at `n + 1`.
use finishing_line.Common.{List, String, [], map, suc, ℕ, ◌∷◌}
use finishing_line.Model.{Direction, FanState, Move, Reason, ShutterState, Station}

pub data Action : Type 0 where
  sand_part : (part_id : String) → Action
  spray_part : (part_id : String) (coat : ℕ) → Action
  clean_gun : (part_id : String) → Action
  move_to_safe_pose : Action
  set_shutter : ShutterState → Action
  advance_train : Direction → List Move → Action
  set_fan : Station → FanState → Action
  halt_zones : Reason → Action

pub record Intent : Type 0 where
  pub intent_id : ℕ
  pub action : Action

-- Intents made one after the other, from the counter's value on.
abbrev pub stamp : ℕ → List Action → List Intent
stamp n [] = []
stamp n (a ∷ actions) = record { intent_id = n; action = a } ∷ stamp (suc n) actions

abbrev pub ids : List Intent → List ℕ
ids = map (λ i. i.intent_id)
