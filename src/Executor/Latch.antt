-- ===== src/Executor/Latch.antt =====
-- The worker's order and its fault latch (src/finishing_line/process/executor.py).
use finishing_line.Common.{
  Option, Option-cases, inl, inr, String, is_some, if_elim, Bool, List, [], ap, arith, false,
  length, none, refl, some, suc, true, zero, ℕ, ◌++◌, ◌||◌, ◌∙◌, ◌∷◌, ◌≡◌,
}
use finishing_line.Executor.{
  Command, Devices, make_calls, carry_out, settled, execute, set_fan, set_shutter, wait_shutter,
  advance, sand, clean_gun, spray, safe_pose, Executor, finish, finish_of, halt, set_zone_idle,
  submit, submit_one, take, take_from,
}
use finishing_line.Intents.{Action, Intent}
use finishing_line.Machine.{or_given}
use finishing_line.Model.{FanState, Reason, Zone}

-- A worker with nothing running and no fault.
abbrev pub healthy : List Intent → List ℕ → Executor
healthy queue done = record { queue = queue; running = none; done = done; fault = none }

-- Whether an intent is the halt, which does not queue.
abbrev pub is_halt : Action → Bool
is_halt (Action.halt_zones reason) = true
is_halt _ = false

abbrev pub any_halt : List Intent → Bool
any_halt [] = false
any_halt (i ∷ intents) = is_halt i.action || any_halt intents

append_nil {ℓ} : {A : Type ℓ} (xs : List A) → xs ++ [] ≡ xs
append_nil [] = refl
append_nil (x ∷ xs) = ap (λ ys. x ∷ ys) (append_nil xs)

append_one :
    (xs : List Intent) (i : Intent) (ys : List Intent) → (xs ++ i ∷ []) ++ ys ≡ xs ++ i ∷ ys
append_one [] i ys = refl
append_one (x ∷ xs) i ys = ap (λ zs. x ∷ zs) (append_one xs i ys)

submit_one-queues :
    (i : Intent) (action : Action) (x : Executor)
    → is_halt action ≡ false
    → submit_one i action x ≡ (record x { queue = x.queue ++ i ∷ [] }, [])
unfolding submit_one
submit_one-queues i action x h = ground arith

-- What is submitted is queued behind what is there, in its order, unless it holds a halt.
pub submit-queues :
    (intents : List Intent) (x : Executor)
    → any_halt intents ≡ false
    → submit intents x ≡ (record x { queue = x.queue ++ intents }, [])
unfolding submit
submit-queues [] x h = rw (append_nil x.queue) refl
submit-queues (i ∷ intents) x h =
    let first = submit_one-queues i i.action x (ground arith) in
    let rest = submit-queues intents (record x { queue = x.queue ++ i ∷ [] }) (ground arith) in
    rw first (rw rest (rw (append_one x.queue i intents) refl))

-- The worker comes round `k` times: it takes an intent, if it may, and executes it.
abbrev pub work : Devices → ℕ → Executor → Executor × List Command
work raises zero x = (x, [])
work raises (suc k) x =
    let (y, commands) = finish raises (take x) in
    let (z, more) = work raises k y in (z, commands ++ more)

-- The ids, as they are reported one by one.
abbrev pub reported : List Intent → List ℕ → List ℕ
reported [] done = done
reported (i ∷ queue) done = reported queue (i.intent_id ∷ done)

-- What the devices are to be told of an intent, and of a queue of them in its order.
abbrev pub told : Action → List Command
told (Action.set_fan station FanState.on) = set_fan station true ∷ []
told (Action.set_fan station FanState.off) = set_fan station false ∷ []
told (Action.set_shutter target) = set_shutter target ∷ wait_shutter target ∷ []
told (Action.advance_train direction moves) = advance direction moves ∷ []
told (Action.sand_part part_id) = sand part_id ∷ []
told (Action.clean_gun part_id) = clean_gun part_id ∷ []
told (Action.spray_part part_id coat) = spray part_id coat ∷ []
told Action.move_to_safe_pose = safe_pose ∷ []
told (Action.halt_zones reason) = []

abbrev pub told_all : List Intent → List Command
told_all [] = []
told_all (i ∷ queue) = told i.action ++ told_all queue

-- The devices return from every call.
abbrev pub Returns : Devices → Type 0
Returns raises = (c : Command) → raises c ≡ none

pub make_calls-Returns :
    (raises : Devices) (commands : List Command)
    → Returns raises
    → make_calls raises commands ≡ (commands, none)
unfolding make_calls
make_calls-Returns raises [] h = refl
make_calls-Returns raises (c ∷ commands) h = rw (h c, make_calls-Returns raises commands h) refl

execute-told : (action : Action) → is_halt action ≡ false → execute action ≡ some (told action)
unfolding execute
execute-told (Action.set_fan station FanState.on) h = refl
execute-told (Action.set_fan station FanState.off) h = refl
execute-told (Action.set_shutter target) h = refl
execute-told (Action.advance_train direction moves) h = refl
execute-told (Action.sand_part part_id) h = refl
execute-told (Action.clean_gun part_id) h = refl
execute-told (Action.spray_part part_id coat) h = refl
execute-told Action.move_to_safe_pose h = refl
execute-told (Action.halt_zones reason) h = absurd (ground arith)

round :
    (raises : Devices) (i : Intent) (queue : List Intent) (done : List ℕ)
    → Returns raises
    → is_halt i.action ≡ false
    → finish raises (take (healthy (i ∷ queue) done))
      ≡ (healthy queue (i.intent_id ∷ done), told i.action)
unfolding take take_from finish finish_of
round raises i queue done h plain =
    rw (execute-told i.action plain, make_calls-Returns raises (told i.action) h) refl

-- When every device call returns, a healthy executor works off a queue of intents, none of them a
-- halt, in its order: after one round of the worker for each the queue is empty, the devices were
-- told what the intents ask for, in the queue's order, and each intent is reported as done, the last
-- one first.
pub work-drains :
    (raises : Devices) (queue : List Intent) (done : List ℕ)
    → Returns raises
    → any_halt queue ≡ false
    → work raises (length queue) (healthy queue done)
      ≡ (healthy [] (reported queue done), told_all queue)
work-drains raises [] done h plain = refl
work-drains raises (i ∷ queue) done h plain =
    let rest = work-drains raises queue (i.intent_id ∷ done) h (ground arith) in
    rw (round raises i queue done h (ground arith), rest) refl

-- The round of a poisoned worker: what was running when the latch was set ends, and nothing starts.
take_from-poisoned :
    (why : Reason) (queue : List Intent) (x : Executor)
    → x.fault ≡ some why
    → ((take_from queue x).fault ≡ some why)
      × ((take_from queue x).running ≡ x.running)
      × ((take_from queue x).done ≡ x.done)
unfolding take_from
take_from-poisoned why [] x h = (h, refl, refl)
take_from-poisoned why (i ∷ queue) x h = rw h (refl, refl, refl)

take-poisoned :
    (why : Reason) (x : Executor)
    → x.fault ≡ some why
    → ((take x).fault ≡ some why) × ((take x).running ≡ x.running) × ((take x).done ≡ x.done)
unfolding take
take-poisoned why x h =
    if_elim (λ (y : Executor). (y.fault ≡ some why) × (y.running ≡ x.running) × (y.done ≡ x.done))
      (is_some x.running) (λ _. (h, refl, refl)) (λ _. take_from-poisoned why x.queue x h)

settled-poisoned :
    (why : Reason) (i : Intent) (made : List Command) (error : Option String) (x : Executor)
    → x.fault ≡ some why
    → ((settled i (made, error) x).0.fault ≡ some why)
      × ((settled i (made, error) x).0.running ≡ none)
unfolding halt
settled-poisoned why i made none x h = (h, refl)
settled-poisoned why i made (some error) x h = (rw h refl, refl)

finish_of-poisoned :
    (why : Reason) (m : Option Intent) (raises : Devices) (x : Executor)
    → x.fault ≡ some why
    → x.running ≡ m
    → ((finish_of m raises x).0.fault ≡ some why) × ((finish_of m raises x).0.running ≡ none)
unfolding finish_of
finish_of-poisoned why none raises x h e = (h, e)
finish_of-poisoned why (some i) raises x h e =
    settled-poisoned why i (carry_out raises (execute i.action)).0
      (carry_out raises (execute i.action)).1 x h

finish-idle : (raises : Devices) (x : Executor) → x.running ≡ none → finish raises x ≡ (x, [])
unfolding finish finish_of
finish-idle raises x h = rw h refl

-- What a poisoned worker has come to when nothing runs any more.
abbrev IsSpent : Reason → Executor → Executor × List Command → Type 0
IsSpent why x w = (w.0.fault ≡ some why) × (w.0.running ≡ none) × (w.0.done ≡ x.done) × (w.1 ≡ [])

work-IsSpent :
    (why : Reason) (raises : Devices) (k : ℕ) (x : Executor)
    → x.fault ≡ some why
    → x.running ≡ none
    → IsSpent why x (work raises k x)
work-IsSpent why raises zero x h e = (h, e, refl, refl)
work-IsSpent why raises (suc k) x h e =
    let (h', e', same) = take-poisoned why x h in
    let (fault, over, done, silent) = work-IsSpent why raises k (take x) h' (e' ∙ e) in
    rw (finish-idle raises (take x) (e' ∙ e)) (fault, over, done ∙ same, silent)

take-busy : (i : Intent) (x : Executor) → x.running ≡ some i → take x ≡ x
unfolding take
take-busy i x e = rw e refl

-- An executor whose latch is set, from its worker's next round on and however often it comes round:
-- the latch keeps its reason, nothing runs, and the devices are told, and the intents are reported,
-- what ends the one intent that was running when the latch was set, if there was one. Nothing that is
-- queued is started or reported.
pub work-IsPoisoned :
    (why : Reason) (raises : Devices) (k : ℕ) (x : Executor)
    → x.fault ≡ some why
    → let w = work raises (suc k) x in
      (w.0.fault ≡ some why)
      × (w.0.running ≡ none)
      × (w.0.done ≡ (finish raises x).0.done)
      × (w.1 ≡ (finish raises x).1)
unfolding finish
work-IsPoisoned why raises k x h = elim (Option-cases x.running) [
  | inl e ↦ rw (finish-idle raises x e) (work-IsSpent why raises (suc k) x h e)
  | inr (i, e) ↦
      let (h', e') = finish_of-poisoned why x.running raises x h refl in
      let (fault, over, done, silent) = work-IsSpent why raises k (finish raises x).0 h' e' in
      rw (take-busy i x e)
        (fault, over, done, ap (λ m. (finish raises x).1 ++ m) silent ∙ append_nil _)
]

-- A halt empties the queue, keeps the first reason, and idles both zones; a device call that raises
-- does the same, with its error as the reason.
pub halt-latches :
    (why : Reason) (x : Executor)
    → ((halt why x).0.queue ≡ [])
      × ((halt why x).0.fault ≡ some (or_given x.fault why))
      × ((halt why (halt why x).0).0 ≡ (halt why x).0)
      × ((halt why x).1 ≡ set_zone_idle Zone.z1 ∷ set_zone_idle Zone.z2 ∷ [])
unfolding halt
halt-latches why x = (refl, refl, refl, refl)
