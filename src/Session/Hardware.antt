-- ===== src/Session/Hardware.antt =====
-- What the server drives and does not implement: the robots and franky, with their own state, and the
-- threads. Every operation on a robot is named by the robot's id, and may raise.
use zero_franky.Base.{ℕ, String, Bool, Option, List}
use zero_franky.Python.Errors.{Result}
use zero_franky.Python.Values.{Value}
use zero_franky.Python.Exec.{Exec}
use zero_franky.Builders.Franky.{Franky}

-- What a policy thread still does to its session while another thread waits for it: the ticks that it
-- counts, the error that it leaves, and whether it enqueues a stop.
pub record LastTicks : Type 0 where
  pub ticks : ℕ
  pub last_error : Option String
  pub enqueues : Bool

pub record Hardware : Type 1 where
  pub World : Type 0
  pub franky : Franky
  -- `franky.Robot(fci_hostname, **kwargs)`, under the id that the server gives it
  pub connect : String → Value → Value → Exec World Value
  -- `getattr(robot, "is_in_control", True)`
  pub in_control : String → World → Bool
  -- `robot.move(motion, asynchronous=…)`
  pub move : String → Value → Bool → Exec World Value
  pub stop : String → Exec World Value
  -- `robot.join_motion(timeout)`, where the robot has that method
  pub has_join_motion : Bool
  pub join_motion : String → Value → Exec World Value
  pub poll_motion : String → Exec World Value
  pub recover_from_errors : String → Exec World Value
  -- `franky.TorqueStopMotion()`, where franky has that class
  pub torque_stop_motion : Option (Result Value)
  -- whether franky has a `ControlException`
  pub has_control_exception : Bool
  -- `robot.current_joint_positions`, `robot.current_joint_velocities` and
  -- `robot.current_pose.end_effector_pose`
  pub current_joint_positions : String → Exec World Value
  pub current_joint_velocities : String → Exec World Value
  pub current_end_effector_pose : String → Exec World Value
  -- `motion.set_reference(reference)`
  pub set_reference : Value → Value → Exec World Value
  -- any other method of a running motion: `motion.name(*args)`
  pub motion_call : Value → String → List Value → Exec World Value
  -- `motion.register_callback(callback)` for the robot, if the motion has that method
  pub register_callback : String → Value → Exec World Value
  -- `load_policy(payload)`: an import or an unpickling on the server
  pub load_policy : Value → Result Value
  -- `uuid.uuid4().hex`
  pub fresh_id : World → String × World
  -- the policy thread of a session: start it, wait for it for a bounded time, and whether it lives
  pub start_thread : String → World → World
  pub join_thread : String → World → LastTicks × World
  pub thread_alive : String → World → Bool
  -- `text.lower()`
  pub lower : String → String
