-- ===== src/Tests/Legacy.antt =====
-- The legacy line, with a part or two on it.
use finishing_line.Common.{Dict, [], false, lookup, none, refl, some, true, ℕ, ◌∷◌, ◌≡◌}
use finishing_line.Legacy.{Answers, Cause, Eyes, FanKind, LegacyPhase, Sequencer, Setup, went}
use finishing_line.Legacy.Alone.{alone, alone-unflashed}
use finishing_line.Legacy.Coats.{IsHelpful}
use finishing_line.Legacy.Count.{tally}
use finishing_line.Legacy.Invariant.{legacy_step-IsPlaced}
use finishing_line.Legacy.Known.{IsQuiet, legacy_step-faulted}
use finishing_line.Legacy.Places.{IsPlaced}
use finishing_line.Legacy.Robot.{step_robot}
use finishing_line.Legacy.Step.{legacy_step}
use finishing_line.Legacy.Still.{Ends}
use finishing_line.Legacy.Tally.{step_transition-tally}
use finishing_line.Legacy.Transition.{step_transition}
use finishing_line.LegacyControl.{
  LegacyControl, legacy_pass, legacy_restore, legacy_save, new_sequencer,
}
use finishing_line.LegacyControl.Rules.{IsStopped, Passes, legacy_pass-IsStopped}
use finishing_line.LegacyControl.Saved.{IsRestored, legacy_restore-legacy_save}
use finishing_line.Model.{Beat, PartRole, PartState, Product}
use finishing_line.Tests.Line.{config}

abbrev setup : Setup
setup = record {
  cfg = config;
  f1_mode = record { kind = FanKind.robot_do; do_pin = some 4 };
  f2_mode = record { kind = FanKind.always_on; do_pin = none };
  has_fan_do = true;
  continuous = true;
  mm_per_s = 53;
  four_digits = λ (n : ℕ). "0001";
}

abbrev eyes : Eyes
eyes = record {
  server_state = 1;
  work_at_zero = true;
  offload = false;
  onload = false;
  staging = false;
}

abbrev answers : Answers
answers = record {
  now = 100;
  now_before_spray = 110;
  now_after_spray = 120;
  feed_polled = true;
  suspended = some true;
  resumed = true;
  eyes = some eyes;
  eyes_after = some eyes;
  intake = some true;
  arrival = some true;
  staging = some (record { is_staged = true; nudged = false; nudge_s = 0 });
  shuffled = true;
  sanded = true;
  sprayed = true;
  posed = true;
  cleaned = true;
  fan_driven = true;
}

-- One part with a coat, which has flashed for half of the time.
abbrev damp : PartState
damp = record {
  part_id = "a";
  product = Product.cube;
  role = PartRole.lead;
  pair_index = 0;
  coats_applied = 1;
  flash_1_s = 30;
  flash_2_s = 0;
  is_wet = true;
}

abbrev parts : Dict PartState
parts = ("a", damp) ∷ ("b", record damp { part_id = "b"; role = PartRole.trail }) ∷ []

-- In P2, `a` at F2 and `b` at O.
abbrev two_parts : Sequencer
two_parts = record (new_sequencer setup Product.cube 90) {
  parts = parts;
  beat = Beat.p2;
  phase = LegacyPhase.transition;
  occ = record { at_in = none; at_f1 = none; at_o = some "b"; at_f2 = some "a"; at_out = none };
}

step_transition-tally_example :
    Ends
      (λ (t : Sequencer). tally "a" t ≡ tally "a" two_parts)
      (step_transition setup answers two_parts)
step_transition-tally_example = step_transition-tally setup answers two_parts "a" refl refl

legacy_step-IsPlaced_example : Ends IsPlaced (legacy_step setup answers two_parts)
legacy_step-IsPlaced_example = legacy_step-IsPlaced setup answers two_parts refl

helpful : IsHelpful answers true
helpful = record { suspends = refl; resumes = refl; sands = refl; sprays = refl; poses = refl }

alone-unflashed_example :
    (t : Sequencer) × (r : Sequencer) × (step_transition setup answers (alone "a" two_parts)
      ≡ went t)
    × (step_robot setup answers t ≡ went r)
    × (lookup "a" r.parts ≡ some (record damp { coats_applied = 2; is_wet = true }))
unfolding lookup
alone-unflashed_example =
    alone-unflashed setup answers answers eyes true two_parts "a" damp refl refl helpful refl refl

abbrev broken_down : Sequencer
broken_down = record two_parts { phase = LegacyPhase.faulted; fault = some Cause.retreat_lost }

legacy_step-faulted_example :
    (t : Sequencer) × (legacy_step setup answers broken_down ≡ some (t, some Cause.retreat_lost))
    × IsQuiet broken_down t
unfolding lookup new_sequencer
legacy_step-faulted_example = legacy_step-faulted setup answers broken_down refl refl

abbrev halting : LegacyControl
halting = record {
  seq = two_parts;
  enabled = true;
  halt_reason = some "operator halt";
  blocked = none;
  last_save = 0;
  feed_paused = false;
}

legacy_pass-IsStopped_example :
    Passes (IsStopped [] "operator halt") (legacy_pass setup answers 5 101 halting)
unfolding lookup new_sequencer
legacy_pass-IsStopped_example =
    legacy_pass-IsStopped setup answers 5 101 halting "operator halt" refl refl

legacy_restore-legacy_save_example :
    (t : Sequencer) × (legacy_restore
        (legacy_save two_parts)
        (new_sequencer setup Product.browser 200)
      ≡ some t)
    × IsRestored two_parts (new_sequencer setup Product.browser 200) t
legacy_restore-legacy_save_example =
    legacy_restore-legacy_save two_parts (new_sequencer setup Product.browser 200)
      (refl, (refl, tt))
