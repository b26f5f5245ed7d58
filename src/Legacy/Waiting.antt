-- ===== src/Legacy/Waiting.antt =====
-- The waits and the staging on the legacy line, and the places of the parts
-- (src/finishing_line/process/legacy_sequencer.py: `_step_flash`, `_step_stage`).
use finishing_line.Common.{Bool, List, Option, String, [], if_elim, none, not, refl, some, ◌∷◌}
use finishing_line.Legacy.{fault_with, mint, say, take_next}
use finishing_line.Legacy.Robot.{
  Tried, after_clean, broke, clean_with, dash_for, departure_block, gate_then, gated, held,
  read_and_gate, resume_if, step_flash, step_gate,
}
use finishing_line.Legacy.Staging.{at_junction, entry_role, staged_with, step_stage}
use finishing_line.Legacy.Still.{
  Ends, IsStill, IsStill-refl, Leaves, Tries, Tries-bind, attempt-IsStill, resume_if-IsStill,
}
use finishing_line.Legacy.Types.{Answers, Call, Cause, Eyes, Sequencer, Setup, Staged}
use finishing_line.Model.{PartRole}

gated-IsStill :
    (u : Setup) (s t : Sequencer) (m : Option (Option Cause))
    → IsStill s t
    → Ends (IsStill s) (gated u t m)
gated-IsStill u s t none h = tt
gated-IsStill u s t (some (some why)) h = h
gated-IsStill u s t (some none) h = record { same_beat = h.same_beat; same_occ = h.same_occ }

read_and_gate-IsStill :
    (u : Setup) (s t : Sequencer) (m : Option Eyes)
    → IsStill s t
    → Ends (IsStill s) (read_and_gate u m t)
read_and_gate-IsStill u s t none h = tt
read_and_gate-IsStill u s t (some e) h =
    let seen = record t { sensors = some e } in
    gated-IsStill u s seen (departure_block u seen)
      (record { same_beat = h.same_beat; same_occ = h.same_occ })

step_gate-IsStill :
    (u : Setup) (a : Answers) (s t : Sequencer) → IsStill s t → Ends (IsStill s) (step_gate u a t)
unfolding step_gate
step_gate-IsStill u a s t h =
    read_and_gate-IsStill u s (say Call.read_eyes t) a.eyes
      (record { same_beat = h.same_beat; same_occ = h.same_occ })

gate_then-IsStill :
    (u : Setup) (a : Answers) (s : Sequencer) (m : Option Sequencer)
    → Leaves (IsStill s) m
    → Ends (IsStill s) (gate_then u a m)
gate_then-IsStill u a s none h = tt
gate_then-IsStill u a s (some t) h = step_gate-IsStill u a s t h

after_clean-IsStill :
    (u : Setup) (a : Answers) (feed : Bool) (s : Sequencer) (r : Tried)
    → Tries (IsStill s) r
    → Ends (IsStill s) (after_clean u a feed r)
unfolding fault_with
after_clean-IsStill u a feed s (broke t) h = record {
  same_beat = h.same_beat;
  same_occ = h.same_occ;
}
after_clean-IsStill u a feed s (held t) h =
    gate_then-IsStill u a s (resume_if a feed t) (resume_if-IsStill a feed s t h)

clean_with-IsStill :
    (u : Setup) (a : Answers) (m : Option Bool) (s t : Sequencer)
    → IsStill s t
    → Ends (IsStill s) (clean_with u a m t)
clean_with-IsStill u a none s t h = tt
clean_with-IsStill u a (some feed) s t h = after_clean-IsStill u a feed s _ (
    Tries-bind s _ _
      (attempt-IsStill s _ (Call.clean_tip (dash_for t.occ.at_o)) a.cleaned
        (record { same_beat = h.same_beat; same_occ = h.same_occ }))
      (λ r k. attempt-IsStill s r Call.safe_pose a.posed k))

pub step_flash-IsStill :
    (u : Setup) (a : Answers) (s : Sequencer) → Ends (IsStill s) (step_flash u a s)
unfolding step_flash
step_flash-IsStill u a s =
    if_elim (Ends (IsStill s)) s.pending_clean
      (λ _. clean_with-IsStill u a a.suspended s _ (record { same_beat = refl; same_occ = refl }))
      (λ _. step_gate-IsStill u a s s (IsStill-refl s))

pub take_next-IsStill :
    (u : Setup) (role : PartRole) (queue : List String) (s t : Sequencer)
    → IsStill s t
    → IsStill s (take_next u role queue t).1
unfolding mint
take_next-IsStill u role [] s t h = record { same_beat = h.same_beat; same_occ = h.same_occ }
take_next-IsStill u role (x ∷ xs) s t h = record { same_beat = h.same_beat; same_occ = h.same_occ }

staged_with-IsStill :
    (u : Setup) (m : Option Staged) (s t : Sequencer)
    → IsStill s t
    → Ends (IsStill s) (staged_with u m t)
unfolding staged_with fault_with
staged_with-IsStill u none s t h = record { same_beat = h.same_beat; same_occ = h.same_occ }
staged_with-IsStill u (some r) s t h =
    if_elim (Ends (IsStill s)) r.is_staged
      (λ _.
        let k = take_next-IsStill u (entry_role t.beat) t.queue s t h in
        record { same_beat = k.same_beat; same_occ = k.same_occ })
      (λ _.
        if_elim (Ends (IsStill s)) (not u.continuous)
          (λ _. record { same_beat = h.same_beat; same_occ = h.same_occ })
          (λ _.
            if_elim (Ends (IsStill s)) r.nudged
              (λ _. record { same_beat = h.same_beat; same_occ = h.same_occ })
              (λ _. record { same_beat = h.same_beat; same_occ = h.same_occ })))

at_junction-IsStill :
    (u : Setup) (a : Answers) (m : Option Eyes) (s t : Sequencer)
    → IsStill s t
    → Ends (IsStill s) (at_junction u a m t)
unfolding fault_with
at_junction-IsStill u a none s t h = record { same_beat = h.same_beat; same_occ = h.same_occ }
at_junction-IsStill u a (some e) s t h =
    if_elim (Ends (IsStill s)) e.onload
      (λ _.
        staged_with-IsStill u a.staging s _
          (record { same_beat = h.same_beat; same_occ = h.same_occ }))
      (λ _.
        if_elim (Ends (IsStill s)) u.continuous
          (λ _. record { same_beat = h.same_beat; same_occ = h.same_occ })
          (λ _. record { same_beat = h.same_beat; same_occ = h.same_occ }))

pub step_stage-IsStill :
    (u : Setup) (a : Answers) (s : Sequencer) → Ends (IsStill s) (step_stage u a s)
unfolding step_stage
step_stage-IsStill u a s =
    at_junction-IsStill u a a.eyes s (say Call.read_eyes s)
      (record { same_beat = refl; same_occ = refl })
