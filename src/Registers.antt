-- ===== src/Registers.antt =====
-- src/finishing_line/devices/registers.py: the Modbus addresses and the codes of the motion modes.
use finishing_line.Common.{ℕ, ◌+◌}
use finishing_line.Model.{Station, Zone}

-- `Status`
abbrev pub server_state : ℕ
server_state = 1

-- `Command`; the echo of a command stands 100 higher (`Echo`).
abbrev pub motion_mode_reg : ℕ
motion_mode_reg = 100

abbrev pub direction_coil : ℕ
direction_coil = 101

abbrev pub velocity_reg : ℕ
velocity_reg = 102

abbrev pub acceleration_reg : ℕ
acceleration_reg = 103

abbrev pub distance_reg : ℕ
distance_reg = 104

abbrev pub position_reg : ℕ
position_reg = 105

abbrev pub request_id_reg : ℕ
request_id_reg = 106

abbrev pub feed_conveyor_coil : ℕ
feed_conveyor_coil = 107

abbrev pub brush_on_coil : ℕ
brush_on_coil = 108

abbrev pub echo_of : ℕ → ℕ
echo_of command = command + 100

-- `New`: the shutter, the fans, the eyes and the watchdog.
abbrev pub sh_cmd : ℕ
sh_cmd = 300

abbrev pub sh_fb : ℕ
sh_fb = 400

abbrev pub fan_cmd : Station → ℕ
fan_cmd Station.f2 = 302
fan_cmd _ = 301

abbrev pub fan_fb : Station → ℕ
fan_fb Station.f2 = 402
fan_fb _ = 401

abbrev pub f1_eye_in : ℕ
f1_eye_in = 403

abbrev pub o_eye_in : ℕ
o_eye_in = 404

abbrev pub f2_eye_in : ℕ
f2_eye_in = 405

abbrev pub in_count_reg : ℕ
in_count_reg = 406

abbrev pub z2_eye_in : ℕ
z2_eye_in = 407

abbrev pub z1_eye_in : ℕ
z1_eye_in = 408

abbrev pub in_eye_in : ℕ
in_eye_in = 409

abbrev pub out_eye_in : ℕ
out_eye_in = 415

abbrev pub watchdog_reg : ℕ
watchdog_reg = 412

abbrev pub heartbeat_reg : ℕ
heartbeat_reg = 330

-- The registers of a zone's motor.
pub record ZoneRegs : Type 0 where
  pub mode : ℕ
  pub distance : ℕ
  pub reqid : ℕ
  pub direction : ℕ
  pub target : ℕ
  pub state : ℕ
  pub ack : ℕ

abbrev pub zone_regs : Zone → ZoneRegs
zone_regs Zone.z1 = record {
  mode = 310;
  distance = 311;
  reqid = 312;
  direction = 313;
  target = 314;
  state = 410;
  ack = 413;
}
zone_regs Zone.z2 = record {
  mode = 320;
  distance = 321;
  reqid = 322;
  direction = 323;
  target = 324;
  state = 411;
  ack = 414;
}

-- The motion modes of a zone.
abbrev pub mode_distance : ℕ
mode_distance = 0

abbrev pub mode_continuous : ℕ
mode_continuous = 2

abbrev pub mode_idle : ℕ
mode_idle = 3

abbrev pub mode_sensor_stop : ℕ
mode_sensor_stop = 4

-- The states of a zone.
abbrev pub state_ready : ℕ
state_ready = 1

abbrev pub state_moving : ℕ
state_moving = 2
