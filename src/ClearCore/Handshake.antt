-- ===== src/ClearCore/Handshake.antt =====
-- A request of the client and a pass of the firmware
-- (src/finishing_line/devices/clearcore.py: `move_zone_until`;
-- src/finishing_line/sim/fake_clearcore.py: `_tick`).
use finishing_line.ClearCore.{
  Client, Try, edge_code, failed, next_count, poll_until, request_until, send,
}
use finishing_line.Common.{
  Bool, List, Option, [], ap, false, if◌then◌else◌, length, none, not, refl, some, true, ℕ, ◌++◌,
  ◌==◌, ◌∙◌, ◌∷◌, ◌≡◌,
}
use finishing_line.Firmware.{Table, Timing, ZoneBlock, level, poke, reached}
use finishing_line.Firmware.Edges.{Look, StateIs, has_stop, passes_over}
use finishing_line.LegacyDriver.{Write, passed}
use finishing_line.Model.{Zone}
use finishing_line.Registers.{mode_sensor_stop, state_moving, state_ready, zone_regs}
use finishing_line.Train.{SensorTarget}
use finishing_line.ClearCore.Arming.{IsAsked, eye_of, passes_over-IsAtRest, taken-StateIs}

-- What a write does to the registers that a motor reads; the coils have the direction.
abbrev pub written : Write → Table → Table
written (Write.reg a v) holding = poke a v holding
written (Write.coil a on) holding = holding

-- The writes of a client, the last one first, and after each of them the passes of the firmware's loop
-- that come before the next one.
unfoldable pub over_passes :
    Zone
    → Timing
    → List Write
    → List (List Look)
    → Table
    → Option (ZoneBlock × Table)
    → Table × Option (ZoneBlock × Table)
unfolding passes_over
over_passes zone timing (w ∷ earlier) (looks ∷ gaps) holding m =
    let (before, reached) = over_passes zone timing earlier gaps holding m in
    (written w before, passes_over zone timing (written w before) looks reached)
over_passes zone timing log gaps holding m = (holding, m)

-- What a client has written, whether its last command returned or raised.
abbrev pub log_of : Try Client → List Write
log_of (passed c) = c.log
log_of (failed c) = c.log

-- The writes of a move to a sensor's edge, before the poll for its ack.
abbrev pub until_writes : Zone → Bool → SensorTarget → Bool → ℕ → List Write
until_writes zone downstream sensor falling id =
    Write.reg (zone_regs zone).reqid id
    ∷ Write.reg (zone_regs zone).mode mode_sensor_stop
    ∷ Write.reg (zone_regs zone).target (edge_code sensor falling)
    ∷ Write.coil (zone_regs zone).direction downstream
    ∷ []

send-sure :
    (w : Write) (c : Client)
    → ((n : ℕ) → c.answers n ≡ true)
    → send w c ≡ passed (record c { log = w ∷ c.log })
send-sure w c h = rw (h (length c.log)) refl

-- What a move to a sensor's edge writes when every write succeeds, before it polls for the ack: the
-- request comes last, under the next id.
pub request_until-writes :
    (zone : Zone) (downstream : Bool) (sensor : SensorTarget) (falling : Bool)
    (polls : List (Option Bool)) (c : Client)
    → ((n : ℕ) → c.answers n ≡ true)
    → request_until zone downstream sensor falling polls c
      ≡ poll_until polls (record c {
        request_id = next_count c.request_id;
        log = until_writes zone downstream sensor falling (next_count c.request_id) ++ c.log;
      })
unfolding request_until
request_until-writes zone downstream sensor falling polls c h =
    let w1 = Write.coil (zone_regs zone).direction downstream in
    let w2 = Write.reg (zone_regs zone).target (edge_code sensor falling) in
    let w3 = Write.reg (zone_regs zone).mode mode_sensor_stop in
    let w4 = Write.reg (zone_regs zone).reqid (next_count c.request_id) in
    let c1 = record c { log = w1 ∷ c.log } in
    let c2 = record c { log = w2 ∷ c1.log } in
    let c3 = record c { log = w3 ∷ c2.log } in
    let c4 = record c3 { request_id = next_count c.request_id } in
    rw (send-sure w1 c h, send-sure w2 c1 h, send-sure w3 c2 h, send-sure w4 c4 h) refl

poll_until-log : (polls : List (Option Bool)) (c : Client) → log_of (poll_until polls c) ≡ c.log
unfolding poll_until
poll_until-log [] c = refl
poll_until-log (none ∷ polls) c = refl
poll_until-log (some true ∷ polls) c = refl
poll_until-log (some false ∷ polls) c = poll_until-log polls c

request_until-log :
    (zone : Zone) (downstream : Bool) (sensor : SensorTarget) (falling : Bool)
    (polls : List (Option Bool)) (c : Client)
    → ((n : ℕ) → c.answers n ≡ true)
    → c.log ≡ []
    → log_of (request_until zone downstream sensor falling polls c)
      ≡ until_writes zone downstream sensor falling (next_count c.request_id)
request_until-log zone downstream sensor falling polls c sure no_log =
    let writes = until_writes zone downstream sensor falling (next_count c.request_id) in
    ap log_of (request_until-writes zone downstream sensor falling polls c sure)
    ∙ poll_until-log polls
        (record c { request_id = next_count c.request_id; log = writes ++ c.log })
    ∙ ap (λ log. writes ++ log) no_log

-- The registers after the writes, and before the last of them.
poke-IsAsked :
    (zone : Zone) (sensor : SensorTarget) (falling : Bool) (id : ℕ) (holding : Table)
    → IsAsked zone sensor falling id (
        poke (zone_regs zone).reqid id (
          poke
            (zone_regs zone).mode
            mode_sensor_stop
            (poke (zone_regs zone).target (edge_code sensor falling) holding)))
poke-IsAsked Zone.z1 sensor falling id holding = record { mode = refl; target = refl; reqid = refl }
poke-IsAsked Zone.z2 sensor falling id holding = record { mode = refl; target = refl; reqid = refl }

unasked :
    (zone : Zone) (v w : ℕ) (holding : Table)
    → (poke (zone_regs zone).target v holding (zone_regs zone).reqid
        ≡ holding (zone_regs zone).reqid)
      × (poke
            (zone_regs zone).mode
            w
            (poke (zone_regs zone).target v holding)
            (zone_regs zone).reqid
          ≡ holding (zone_regs zone).reqid)
unasked Zone.z1 v w holding = (refl, refl)
unasked Zone.z2 v w holding = (refl, refl)

-- The contract of a move to a sensor's edge, over the writes of `request_until` and the passes of the
-- firmware's loop, any number of which come between two writes. If every write succeeds, the id is not
-- the last one that the firmware saw, no motion to an edge is under way, and the watchdog has not
-- tripped at the first pass after the last write: then, whatever mode the zone was in, it is moving
-- until the sensor has shown the edge that was asked for since that pass, or the watchdog trips, and
-- ready from then on. A level that is there from the start does not stop it.
pub until-StateIs :
    (zone : Zone) (timing : Timing) (downstream : Bool) (sensor : SensorTarget) (falling : Bool)
    (polls : List (Option Bool)) (c : Client) (holding : Table) (z : ZoneBlock) (inputs : Table)
    (gap_1 gap_2 gap_3 : List Look) (look : Look) (looks : List Look)
    → ((n : ℕ) → c.answers n ≡ true)
    → c.log ≡ []
    → holding (zone_regs zone).reqid ≡ z.last_reqid
    → z.edge_watch ≡ none
    → (next_count c.request_id == z.last_reqid) ≡ false
    → look.tripped ≡ false
    → StateIs zone
        (if has_stop (eye_of sensor) (not falling) (level look.discrete (eye_of sensor)) looks
          then state_ready
          else state_moving)
        (over_passes zone timing
          (log_of (request_until zone downstream sensor falling polls c))
          ((look ∷ looks) ∷ gap_3 ∷ gap_2 ∷ gap_1 ∷ [])
          holding
          (some (z, inputs))).1
unfolding over_passes
until-StateIs zone timing downstream sensor falling polls c holding z inputs gap_1 gap_2 gap_3 look
      looks sure no_log same_id over is_new live =
    let code = edge_code sensor falling in
    let h2 = poke (zone_regs zone).target code holding in
    let h3 = poke (zone_regs zone).mode mode_sensor_stop h2 in
    let (same_2, same_3) = unasked zone code mode_sensor_stop holding in
    let m1 = passes_over zone timing holding gap_1 (some (z, inputs)) in
    let m2 = passes_over zone timing h2 gap_2 m1 in
    let m3 = passes_over zone timing h3 gap_3 m2 in
    let rest_1 =
      passes_over-IsAtRest zone timing holding gap_1 z.last_reqid (some (z, inputs)) same_id
        (over, refl) in
    let rest_2 =
      passes_over-IsAtRest zone timing h2 gap_2 z.last_reqid m1 (same_2 ∙ same_id) rest_1 in
    let rest_3 =
      passes_over-IsAtRest zone timing h3 gap_3 z.last_reqid m2 (same_3 ∙ same_id) rest_2 in
    rw (request_until-log zone downstream sensor falling polls c sure no_log) (
      taken-StateIs zone timing sensor falling (next_count c.request_id) z.last_reqid
        (poke (zone_regs zone).reqid (next_count c.request_id) h3) look looks m3
        (poke-IsAsked zone sensor falling (next_count c.request_id) holding) live is_new rest_3)
