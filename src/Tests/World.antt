-- ===== src/Tests/World.antt =====
-- Doubles by their bits, and robots that count what they are told.
use zero_franky.Base.{
  ℕ, suc, ◌+◌, true, false, not, Option, none, some, ◌==◌, eqb, ltb, if◌then◌else◌,
}
use zero_franky.Base.Int.{pos, negsuc, eq_ℤ}
use zero_franky.Python.Errors.{Exc, runtime_error, control_exception, Result, ok, error}
use zero_franky.Python.Values.{Value, null, object, end}
use zero_franky.Python.Attributes.{FloatOps}
use zero_franky.Python.Exec.{Exec, pure, fail}
use zero_franky.Builders.Franky.{Franky}
use zero_franky.Session.Hardware.{Hardware}

-- A double is its bits, read as a number.
instance abbrev pub counting_floats : FloatOps
counting_floats = record {
  of_int = λ n. elim n [ pos k ↦ some (record { bits = k }) | negsuc k ↦ none ];
  parse = λ s. none;
  eq = λ x y. eqb x.bits y.bits;
  eq_int = λ x n. eq_ℤ (pos x.bits) n;
  lt = λ x y. ltb x.bits y.bits;
  add = λ x y. record { bits = x.bits + y.bits };
  sub = λ x y. x;
  mul = λ x y. x;
  div = λ x y. x;
  sqrt = λ x. x;
}

-- A franky whose classes take anything.
abbrev pub any_franky : Franky
any_franky = record {
  construct = λ cls args kwargs. ok (object cls end);
  reference_type = λ name. ok null;
  assign = λ v name x. ok v;
  has_isotropic = true;
}

-- The commands that the robots got, and the number of ids drawn.
pub record Log : Type 0 where
  pub commands : ℕ
  pub ids : ℕ

abbrev pub start_log : Log
start_log = record { commands = 0; ids = 0 }

abbrev command : Exec Log Value
command w = (ok null, record w { commands = suc w.commands })

-- A robot named "idle" is never in control; joining the robot named "idle" finds its motion preempted.
abbrev pub preempted : Exc
preempted = record { cls = control_exception; message = "Move command preempted!" }

abbrev pub robots : Option (Result Value) → Hardware
robots ramp = record {
  World = Log;
  franky = any_franky;
  connect = λ id host kwargs. command;
  in_control = λ id w. not (id == "idle");
  move = λ id motion asynchronous. command;
  stop = λ id. command;
  has_join_motion = true;
  join_motion = λ id timeout. if id == "idle" then fail preempted else pure null;
  poll_motion = λ id. pure null;
  recover_from_errors = λ id. pure null;
  torque_stop_motion = ramp;
  has_control_exception = true;
  current_joint_positions = λ id. pure null;
  current_joint_velocities = λ id. pure null;
  current_end_effector_pose = λ id. pure null;
  set_reference = λ motion reference. pure null;
  motion_call = λ motion name args. command;
  register_callback = λ id motion. pure null;
  load_policy = λ payload. error runtime_error "no such policy";
  fresh_id = λ w. ("session", record w { ids = suc w.ids });
  start_thread = λ id w. w;
  join_thread = λ id w. (record { ticks = 1; last_error = none; enqueues = false }, w);
  thread_alive = λ id w. true;
  lower = λ s. s;
}
