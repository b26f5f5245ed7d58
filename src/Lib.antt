-- ===== src/Lib.antt =====
-- Verification library of the finishing line controller.
--
-- The line is a train of stations IN, F1, O, F2 and OUT. Parts go through it in pairs of a lead and a
-- trail, in four beats P1 to P4: the robot works at O, fans at F1 and F2 dry the coats, and the belts
-- shift the parts between the beats. A pure state machine decides; around it a supervisor reads the
-- devices, feeds the machine, and hands its intents to an executor, whose one worker drives the
-- devices; a controller runs the supervisor in a loop and takes the operator's commands.
--
-- Where what is modelled, of the code under src/finishing_line:
--   Model, Model/Types     core/model.py, and Phase of core/schedule.py
--   Schedule, Flow         core/schedule.py: the tables, and the flow of parts that they make
--   Timers, Flash          core/timers.py: the functions, and what they do to the table of parts
--   Guards                 core/guards.py
--   Intents                core/intents.py
--   Machine and children   core/machine.py: Results (Inputs, StepResult, _enter_fault, _emit), Moves
--                          (_live_moves, _apply_moves), Phases (_robot_work to _set_fans, _dispatch),
--                          Steps (step), Recovery (resume)
--   Pairing                core/pairing.py
--   Config                 config/loader.py: ProcessConfig
--   Executor               process/executor.py
--   Train                  process/train.py
--   Registers              devices/registers.py: the addresses
--   ClearCore              devices/clearcore.py; Arming, Handshake: its requests over the firmware's
--                          passes
--   Firmware               sim/fake_clearcore.py, the reference for the ClearCore's firmware: the loop;
--                          Types and Zones: state and motors; Protocol: its Modbus requests
--   Physics                sim/physics.py: the parts on the simulated belts; its children have theorems
--   Legacy and children    process/legacy_sequencer.py: Types and Legacy (state, bank, flash block,
--                          mint), Intake (_step_idle), Robot (_step_robot, _step_flash), Staging
--                          (_step_stage), Transition (_step_transition), Step, Commands; the other
--                          children have theorems
--   LegacyControl          process/legacy_controller.py
--   LegacyTrain            process/legacy_train.py
--   LegacyDriver           devices/legacy_clearcore.py: commands; Maneuver and Transition
--                          (transition_move), Nudge (stage_next)
--   Supervisor             process/supervisor.py
--   Controller             process/controller.py
--   Persistence, Texts     process/persistence.py
--   Interlocks, Faults, Recovery, Discipline   theorems on the machine
--   Outcome                reasoning about results of a step
--   Tests                  concrete runs and inputs
-- The paths in the files' comments are from the root of the repository.
--
-- How the code is rendered:
--   - Seconds are whole units of a clock, as small as one likes, so sums are exact and a cycle's time
--     is not negative; floating point is not modelled.
--   - An intent's id "i<n>" is the number n, and the module's counter is passed along (`next_id`).
--   - A dictionary is an association list in insertion order; one over the stations is a record with
--     an entry for each, and a station that is not a key has no entry.
--   - The beats are an enumeration. The code takes any text as a beat; of other texts nothing is said.
--   - The reasons for blocks and faults are data instead of texts.
--   - Where the code raises KeyError or ValueError, the model returns none or a flag.
--   - What the devices read is an argument of a cycle, and what they are told is part of its result.
--   - `loop_pass` is a pass of the loop that returns, `Controller.Raising` one that a device call ends by
--     raising, which ends the loop's thread. The worker's calls may raise too (`Devices`), and the
--     train's (`returns`, and what the polls see).
--   - The executor's worker is cut into steps (`take`, `finish`), and a run is a sequence of passes of
--     the loop, commands and steps of the worker (`Discipline.Runs.Happens`). The controller's lock
--     makes a pass or a command one event; a step of the worker, which in the code can also fall
--     within a pass, falls between two of them here.
--   - The old line's sequencer is a function of the answers of its devices and its clock (`Answers`);
--     the calls that it makes are logged in its state (`calls`), the last one first. A step that raises
--     is none.
--   - The drivers log their writes; whether a write is confirmed is a function of its number
--     (`answers`). Polling loops go over the list of what their polls see. The legacy driver's loops
--     are none when the list ends before the loop does; for the loops of `_poll_until` the list is
--     that of the polls before the deadline.
--   - The firmware's tables are functions from addresses. The time at which a motion by a distance
--     ends is a quotient, whose parts are kept (`Deadline`). Lengths are whole units.
--   - The time of the simulated parts is in whole units, and `Clock` lists what a pass reads of it.
--   - No loop needs fuel: the recursions are on lists, and one pass of the loop is one step.
--
-- Not modelled: the HTTP service, the robot driver, the sanding, spraying and cleaning programs, the
-- simulators of the old line and of the robot, scripts and firmware; the saving of the state at the end
-- of a pass; sockets, threads and sleeping; the
-- reading of configuration files; the display snapshots; the seconds that a staging's nudge takes.
pub mod Common
pub mod Model
pub mod Config
pub mod Schedule
pub mod Timers
pub mod Guards
pub mod Intents
pub mod Machine
pub mod Flash
pub mod Discipline
pub mod Outcome
pub mod Interlocks
pub mod Faults
pub mod Recovery
pub mod Pairing
pub mod Physics
pub mod Flow
pub mod Executor
pub mod Train
pub mod Supervisor
pub mod Controller
pub mod Texts
pub mod Persistence
pub mod Registers
pub mod Firmware
pub mod ClearCore
pub mod Legacy
pub mod LegacyControl
pub mod LegacyDriver
pub mod LegacyTrain
pub mod Tests
