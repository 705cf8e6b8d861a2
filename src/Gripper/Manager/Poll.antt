-- ===== src/Gripper/Manager/Poll.antt =====
-- The thread that publishes the gripper's state (robotiq.py).
use zero_franky.Base.{true, false, ◌||◌, not, if◌then◌else◌}
use zero_franky.Python.Errors.{ok}
use zero_franky.Python.Values.{Float, Value, null}
use zero_franky.Python.Attributes.{FloatOps}
use zero_franky.Python.Exec.{Exec, pure, ◌>>◌}
use zero_franky.Gripper.Units.{zero_float}
use zero_franky.Gripper.Device.{Device}
use zero_franky.Gripper.Manager.State.{GripperState, publish_state, with_lock, reading}

module _ (D : Device) where
  open D use {World}

  -- `_poll_tick`: a tick that finds the lock held is skipped.
  unfoldable pub poll_tick : Exec (GripperState D) Value
  unfolding publish_state with_lock
  poll_tick (g, w) =
      let published = with_lock D (publish_state D) (g, w) in
      if g.locked then (ok null, (g, w)) else published

  -- `start_polling`
  unfoldable pub start_polling : ⦃ops : FloatOps⦄ → Float → GripperState D → GripperState D
  start_polling ⦃ops⦄ rate_hz (g, w) =
      if g.has_poll_thread
        || not g.has_publisher
        || ops.lt rate_hz zero_float
        || ops.eq rate_hz zero_float
      then (g, w)
      else (record g { poll_stop = false; has_poll_thread = true }, D.start_thread w)

  -- `stop_polling`
  unfoldable pub stop_polling : GripperState D → GripperState D
  stop_polling (g, w) =
      if g.has_poll_thread
      then (record g { poll_stop = true; has_poll_thread = false }, D.join_thread w)
      else (record g { poll_stop = true }, w)

  -- `disconnect`
  unfoldable pub disconnect : Exec (GripperState D) Value
  unfolding stop_polling reading
  disconnect x = (reading D D.disconnect >> pure null) (stop_polling x)
