-- ===== src/Gripper/Manager/State.antt =====
-- The gripper's manager and its commands (GripperManager in robotiq.py).
use zero_franky.Base.{Bool, true, false, [], ◌∷◌}
use zero_franky.Python.Values.{Value, null, bool, dict, dict_of}
use zero_franky.Python.Exec.{Exec, pure, modify, ◌>>=◌, ◌>>◌, catch, finally}
use zero_franky.Gripper.Device.{Device}

-- `_lock`, whether it is held; `_publisher`, `_poll_thread`, whether there is one; `_poll_stop`
pub record Gripper : Type 0 where
  pub locked : Bool
  pub has_publisher : Bool
  pub has_poll_thread : Bool
  pub poll_stop : Bool

-- As the manager is made
abbrev pub new_gripper : Bool → Gripper
new_gripper publisher = record {
  locked = false;
  has_publisher = publisher;
  has_poll_thread = false;
  poll_stop = false;
}

module _ (D : Device) where
  open D use {World}

  abbrev pub GripperState : Type 0
  GripperState = Gripper × World

  abbrev pub on_device : {A : Type 0} → Exec World A → Exec GripperState A
  on_device m (g, w) = ((m w).0, (g, (m w).1))

  -- The payload of a broadcast, and its sending
  unfoldable pub broadcast : Exec World Value
  broadcast = do
    position ← D.position (bool true)
    status ← D.status (bool false)
    D.publish (dict_of (("position", position) ∷ ("status", dict status) ∷ []))

  -- `_publish_state`: without a publisher nothing is read, and what fails is dropped.
  unfoldable pub published : Bool → Exec GripperState Value
  unfolding broadcast
  published false = pure null
  published true = catch (on_device broadcast >> pure null) (λ e. pure null)

  unfoldable pub publish_state : Exec GripperState Value
  unfolding published
  publish_state x = published x.0.has_publisher x

  abbrev set_locked : Bool → Exec GripperState Unit
  set_locked b = modify (λ x. (record x.0 { locked = b }, x.1))

  -- `with self._lock:`, once the lock is had
  unfoldable pub with_lock : Exec GripperState Value → Exec GripperState Value
  with_lock m = set_locked true >> finally m (set_locked false)

  -- A command of the device, and the broadcast after it
  unfoldable pub commanded : Exec World Value → Exec GripperState Value
  unfolding with_lock publish_state
  commanded m = with_lock (on_device m >> publish_state)

  -- A call of the device with nothing after it
  unfoldable pub reading : Exec World Value → Exec GripperState Value
  unfolding with_lock
  reading m = with_lock (on_device m)

  unfoldable pub activate : Value → Value → Value → Exec GripperState Value
  unfolding commanded
  activate reset start refresh_status = commanded (D.activate reset start refresh_status)

  unfoldable pub start : Value → Exec GripperState Value
  unfolding commanded
  start refresh_status = commanded (D.start refresh_status)

  unfoldable pub reset : Exec GripperState Value
  unfolding reading
  reset = reading D.reset >> pure null

  unfoldable pub stop : Exec GripperState Value
  unfolding reading
  stop = reading D.stop >> pure null

  unfoldable pub open_gripper : Value → Value → Value → Value → Value → Exec GripperState Value
  unfolding commanded
  open_gripper speed force wait read_status refresh_status =
      commanded (D.open_gripper speed force wait read_status refresh_status)

  unfoldable pub close : Value → Value → Value → Value → Value → Exec GripperState Value
  unfolding commanded
  close speed force wait read_status refresh_status =
      commanded (D.close speed force wait read_status refresh_status)

  unfoldable pub move : Value → Value → Value → Value → Value → Value → Exec GripperState Value
  unfolding commanded
  move position speed force wait read_status refresh_status =
      commanded (D.move position speed force wait read_status refresh_status)

  unfoldable pub move_mm : Value → Value → Value → Value → Value → Value → Exec GripperState Value
  unfolding commanded
  move_mm width_mm speed force wait read_status refresh_status =
      commanded (D.move_mm width_mm speed force wait read_status refresh_status)

  unfoldable pub calibrate_mm : Value → Value → Exec GripperState Value
  unfolding reading
  calibrate_mm close_mm open_mm = reading (D.calibrate_mm close_mm open_mm) >> pure null

  unfoldable pub position : Value → Exec GripperState Value
  unfolding reading
  position refresh_status = reading (D.position refresh_status)

  unfoldable pub position_mm : Value → Exec GripperState Value
  unfolding reading
  position_mm refresh_status = reading (D.position_mm refresh_status)

  unfoldable pub status : Value → Exec GripperState Value
  unfolding reading
  status refresh_status = reading (D.status refresh_status >>= λ d. pure (dict d))

  unfoldable pub object_detection : Value → Exec GripperState Value
  unfolding reading
  object_detection refresh_status = reading (D.object_detection refresh_status)
