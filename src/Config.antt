-- ===== src/Config.antt =====
-- src/finishing_line/config/loader.py: the process parameters, which the schedule is run by.
use finishing_line.Common.{Bool, Dict, List, String, [], if◌then◌else◌, ℕ, ◌*◌, ◌+◌, ◌===◌, ◌∷◌}

pub record ProcessConfig : Type 0 where
  pub flash_seconds : ℕ
  pub coats : ℕ
  pub spray_burst_pause_s : ℕ
  pub transfer_s : ℕ
  pub robot_coat1_s : ℕ
  pub robot_coat2_s : ℕ
  pub clean_gun_enabled : Bool
  pub clean_gun_duration_s : ℕ
  pub provenance : Dict String

unfoldable pub nominal_period_s : ProcessConfig → ℕ
nominal_period_s cfg =
    let beat = cfg.flash_seconds + cfg.transfer_s in beat * 3 + (beat + cfg.spray_burst_pause_s)

-- The keys of a provenance table whose value is not "measured".
unfoldable pub unmeasured_of : Dict String → List String
unmeasured_of [] = []
unmeasured_of ((k, v) ∷ d) = if v === "measured" then unmeasured_of d else k ∷ unmeasured_of d

unfoldable pub unmeasured : ProcessConfig → List String
unfolding unmeasured_of
unmeasured cfg = unmeasured_of cfg.provenance
