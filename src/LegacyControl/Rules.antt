-- ===== src/LegacyControl/Rules.antt =====
-- When the legacy line runs (src/finishing_line/process/legacy_controller.py: `_loop`).
use finishing_line.ClearCore.Handshake.{written}
use finishing_line.Common.{
  Bool, List, Option, String, ap, false, if_elim, ltb, none, refl, some, subst, sym, true, ℕ, ◌-◌,
  ◌||◌, ◌∙◌, ◌∷◌, ◌≡◌,
}
use finishing_line.Legacy.{Answers, Call, Cause, LegacyPhase, Sequencer, Setup, fault_with}
use finishing_line.Legacy.Known.{Banked, IsQuiet, bank-IsQuiet, has_parts}
use finishing_line.LegacyControl.{
  LegacyControl, LegacySnapshot, legacy_pass, legacy_save, pause_with, run_or_rest, save_at,
  take_halt, take_reason, with_bank,
}

-- What holds of the controller after a pass, which does not raise.
abbrev pub Passes :
    (LegacyControl → Type 0) → Option (LegacyControl × Option LegacySnapshot) → Type 0
Passes P none = ⊥
Passes P (some (c, written)) = P c

-- The loop has stopped the line: it is not enabled, it is faulted, and after the belts' stop it has
-- made no call but the feed's suspension.
pub record IsStopped (calls : List Call) (reason : String) (c : LegacyControl) : Type 0 where
  pub not_enabled : c.enabled ≡ false
  pub is_down : c.seq.phase ≡ LegacyPhase.faulted
  pub says : c.seq.fault ≡ some (Cause.halted_for reason)
  pub last_calls : c.seq.calls ≡ Call.suspend_feed ∷ Call.stop_belts ∷ calls

save_at-IsStopped :
    (calls : List Call) (reason : String) (every now : ℕ) (c : LegacyControl)
    → IsStopped calls reason c
    → Passes (IsStopped calls reason) (save_at every now (some c))
unfolding legacy_save
save_at-IsStopped calls reason every now c h =
    if_elim (Passes (IsStopped calls reason)) (c.seq.dirty || ltb every (now - c.last_save))
      (λ _. record {
        not_enabled = h.not_enabled;
        is_down = h.is_down;
        says = h.says;
        last_calls = h.last_calls;
      })
      (λ _. h)

with_bank-IsStopped :
    (calls : List Call) (reason : String) (every now : ℕ) (c : LegacyControl) (m : Option Sequencer)
    → IsStopped calls reason c
    → Banked (IsQuiet c.seq) m
    → Passes (IsStopped calls reason) (save_at every now (with_bank c m))
with_bank-IsStopped calls reason every now c none h k = k
with_bank-IsStopped calls reason every now c (some s) h k =
    save_at-IsStopped calls reason every now (record c { seq = s })
      (record {
        not_enabled = h.not_enabled;
        is_down = k.same_phase ∙ h.is_down;
        says = k.same_fault ∙ h.says;
        last_calls = k.same_calls ∙ h.last_calls;
      })

pause_with-IsStopped :
    (calls : List Call) (reason : String) (c : LegacyControl) (m : Option Bool)
    → c.enabled ≡ false
    → c.seq.phase ≡ LegacyPhase.faulted
    → c.seq.fault ≡ some (Cause.halted_for reason)
    → c.seq.calls ≡ Call.stop_belts ∷ calls
    → IsStopped calls reason (pause_with c m)
pause_with-IsStopped calls reason c none e p f l = record {
  not_enabled = e;
  is_down = p;
  says = f;
  last_calls = ap (λ (x : List Call). Call.suspend_feed ∷ x) l;
}
pause_with-IsStopped calls reason c (some b) e p f l = record {
  not_enabled = e;
  is_down = p;
  says = f;
  last_calls = ap (λ (x : List Call). Call.suspend_feed ∷ x) l;
}

pause_with-known :
    (c : LegacyControl) (m : Option Bool)
    → has_parts c.seq ≡ true
    → has_parts (pause_with c m).seq ≡ true
pause_with-known c none h = h
pause_with-known c (some b) h = h

take_reason-stops :
    (u : Setup) (a : Answers) (every now : ℕ) (c : LegacyControl) (reason : String)
    → has_parts c.seq ≡ true
    → Passes
        (IsStopped c.seq.calls reason)
        (save_at every now (run_or_rest u a (take_reason c (some reason))))
unfolding run_or_rest fault_with
take_reason-stops u a every now c reason known =
    let t = take_reason c (some reason) in
    with_bank-IsStopped c.seq.calls reason every now (pause_with t a.suspended) _
      (pause_with-IsStopped c.seq.calls reason t a.suspended refl refl refl refl)
      (bank-IsQuiet u a.now (pause_with t a.suspended).seq (pause_with-known t a.suspended known))

-- A halt that was asked for takes effect in the next pass of the loop, whatever the line was doing, if
-- the parts at the fan stations are in the table: the pass does not raise, the line is faulted for that
-- reason and not enabled, and the pass has made no device call but the stop of the belts and then the
-- suspension of the feed.
pub legacy_pass-IsStopped :
    (u : Setup) (a : Answers) (every now : ℕ) (c : LegacyControl) (reason : String)
    → c.halt_reason ≡ some reason
    → has_parts c.seq ≡ true
    → Passes (IsStopped c.seq.calls reason) (legacy_pass u a every now c)
unfolding legacy_pass take_halt
legacy_pass-IsStopped u a every now c reason h known =
    subst
      (λ (m : Option String).
        Passes (IsStopped c.seq.calls reason)
          (save_at every now (run_or_rest u a (take_reason c m))))
      (sym h) (take_reason-stops u a every now c reason known)
