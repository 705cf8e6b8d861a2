-- ===== src/Gripper/Commands.antt =====
-- What a gripper's client can ask for, and what that means on the server (robotiq.py).
use zero_franky.Base.{String, Bool, true, false}
use zero_franky.Python.Errors.{Result, ok, raise, ◌>>=◌}
use zero_franky.Python.Values.{Float, Value, bool, int, float}
use zero_franky.Python.Attributes.{FloatOps}
use zero_franky.Python.Exec.{Exec}
use zero_franky.Rpc.Client.{Link}
use zero_franky.Rpc.Exchange.{relayed}
use zero_franky.Gripper.Units.{RoundOps, clamp_byte, width_m_to_position}
use zero_franky.Gripper.Device.{Device}
use zero_franky.Gripper.Manager.State as Manager
use zero_franky.Gripper.Manager.State.{GripperState}
use zero_franky.Gripper.Proxy as Proxy
use zero_franky.Gripper.Proxy.{byte}

-- What a client can ask for, with the arguments of its methods
pub data Command : Type 0 where
  activating : Bool → Bool → Bool → Command
  starting : Bool → Command
  resetting stopping : Command
  opening closing : Value → Value → Bool → Bool → Bool → Command
  moving : Value → Value → Value → Bool → Bool → Bool → Command
  moving_mm : Float → Value → Value → Bool → Bool → Bool → Command
  moving_width : Value → Value → Value → Bool → Float → Command
  calibrating : Float → Float → Command
  asking_position asking_position_mm asking_status asking_detection : Bool → Command

-- The name under which it goes to the server
unfoldable pub method_of : Command → String
method_of (activating a b c) = "gripper.activate"
method_of (starting a) = "gripper.start"
method_of resetting = "gripper.reset"
method_of stopping = "gripper.stop"
method_of (opening s f w r u) = "gripper.open"
method_of (closing s f w r u) = "gripper.close"
method_of (moving p s f w r u) = "gripper.move"
method_of (moving_mm p s f w r u) = "gripper.move_mm"
method_of (moving_width p s f w m) = "gripper.move"
method_of (calibrating a b) = "gripper.calibrate_mm"
method_of (asking_position a) = "gripper.position"
method_of (asking_position_mm a) = "gripper.position_mm"
method_of (asking_status a) = "gripper.status"
method_of (asking_detection a) = "gripper.object_detection"

module _ (D : Device) where
  abbrev pub Act : Type 0
  Act = Exec (GripperState D) Value

  -- What a command comes to: a check's error is raised before anything is sent.
  unfoldable pub promised :
      (GripperState D → GripperState D) → String → Result Act → Exec (GripperState D) Value
  promised drawn name (raise e) x = (raise e, x)
  promised drawn name (ok act) x = relayed name (act (drawn x))

module _ ⦃rounding : RoundOps⦄ ⦃ops : FloatOps⦄ where
  -- The client's method
  unfoldable pub perform : {S : Type 0} → Link S → Command → Exec S Value
  perform L (activating a b c) = Proxy.activate L a b c
  perform L (starting a) = Proxy.start L a
  perform L resetting = Proxy.reset L
  perform L stopping = Proxy.stop L
  perform L (opening s f w r u) = Proxy.open_gripper L s f w r u
  perform L (closing s f w r u) = Proxy.close L s f w r u
  perform L (moving p s f w r u) = Proxy.move_position L p s f w r u
  perform L (moving_mm p s f w r u) = Proxy.move_mm L p s f w r u
  perform L (moving_width p s f w m) = Proxy.move_width L p s f w m
  perform L (calibrating a b) = Proxy.calibrate_mm L a b
  perform L (asking_position a) = Proxy.position L a
  perform L (asking_position_mm a) = Proxy.position_mm L a
  perform L (asking_status a) = Proxy.status L a
  perform L (asking_detection a) = Proxy.object_detection L a

  -- The manager's operation that a command stands for, with its numbers as bytes, or the error of the
  -- client's checks
  module _ (D : Device) where
    unfoldable pub meaning : Command → Result (Act D)
    meaning (activating a b c) = ok (Manager.activate D (bool a) (bool b) (bool c))
    meaning (starting a) = ok (Manager.start D (bool a))
    meaning resetting = ok (Manager.reset D)
    meaning stopping = ok (Manager.stop D)
    meaning (opening speed force w r u) = do
      s ← clamp_byte speed "speed"
      f ← clamp_byte force "force"
      ok (Manager.open_gripper D (byte s) (byte f) (bool w) (bool r) (bool u))
    meaning (closing speed force w r u) = do
      s ← clamp_byte speed "speed"
      f ← clamp_byte force "force"
      ok (Manager.close D (byte s) (byte f) (bool w) (bool r) (bool u))
    meaning (moving position speed force w r u) = do
      p ← clamp_byte position "position"
      s ← clamp_byte speed "speed"
      f ← clamp_byte force "force"
      ok (Manager.move D (byte p) (byte s) (byte f) (bool w) (bool r) (bool u))
    meaning (moving_mm width_mm speed force w r u) = do
      s ← clamp_byte speed "speed"
      f ← clamp_byte force "force"
      ok (Manager.move_mm D (float width_mm) (byte s) (byte f) (bool w) (bool r) (bool u))
    meaning (moving_width width_m speed force w max_width_m) = do
      z ← width_m_to_position width_m max_width_m
      p ← clamp_byte (int z) "position"
      s ← clamp_byte speed "speed"
      f ← clamp_byte force "force"
      ok (Manager.move D (byte p) (byte s) (byte f) (bool w) (bool true) (bool false))
    meaning (calibrating a b) = ok (Manager.calibrate_mm D (float a) (float b))
    meaning (asking_position a) = ok (Manager.position D (bool a))
    meaning (asking_position_mm a) = ok (Manager.position_mm D (bool a))
    meaning (asking_status a) = ok (Manager.status D (bool a))
    meaning (asking_detection a) = ok (Manager.object_detection D (bool a))
