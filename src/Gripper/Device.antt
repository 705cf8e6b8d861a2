-- ===== src/Gripper/Device.antt =====
-- What the gripper's manager uses of pyrobotiqgripper, of its threads and of its publisher.
use zero_franky.Python.Values.{Value, Fields}
use zero_franky.Python.Exec.{Exec}

-- Each method of pyrobotiqgripper.RobotiqGripper takes its keyword arguments in the source's order and
-- may raise; `status` returns a dict. `publish` packs a payload and sends it.
pub record Device : Type 1 where
  pub World : Type 0
  pub activate : Value → Value → Value → Exec World Value
  pub start : Value → Exec World Value
  pub reset : Exec World Value
  pub stop : Exec World Value
  pub open_gripper : Value → Value → Value → Value → Value → Exec World Value
  pub close : Value → Value → Value → Value → Value → Exec World Value
  pub move : Value → Value → Value → Value → Value → Value → Exec World Value
  pub move_mm : Value → Value → Value → Value → Value → Value → Exec World Value
  pub calibrate_mm : Value → Value → Exec World Value
  pub position : Value → Exec World Value
  pub position_mm : Value → Exec World Value
  pub status : Value → Exec World Fields
  pub object_detection : Value → Exec World Value
  pub disconnect : Exec World Value
  pub publish : Value → Exec World Value
  pub start_thread : World → World
  pub join_thread : World → World
