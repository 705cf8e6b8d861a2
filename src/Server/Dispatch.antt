-- ===== src/Server/Dispatch.antt =====
-- The dispatch of the robot server and its answer to a request (ZmqRobotServer in zmq_server.py).
use zero_franky.Base.{String, Option, none, some, [], ◌∷◌}
use zero_franky.Base.Dict.{Dict, lookup}
use zero_franky.Python.Errors.{error, type_error, not_implemented_error}
use zero_franky.Python.Values.{Value, str, list, dict}
use zero_franky.Python.Attributes.{FloatOps}
use zero_franky.Python.Exec.{Exec, lift}
use zero_franky.Rpc.Codec.{Codec}
use zero_franky.Rpc.Outcome.{shown}
use zero_franky.Rpc.Server as Rpc
use zero_franky.Session.Hardware.{Hardware}
use zero_franky.Session.Merge.{Numpy}
use zero_franky.Manager.State.{ManagerState}
use zero_franky.Server.Handlers.{
  Handler, handle_robot_create, handle_robot_recover_from_errors, handle_robot_move,
  handle_robot_join_motion, handle_robot_poll_motion, handle_robot_stop,
  handle_robot_get_last_teleop_state, handle_robot_start_joint_tracker,
  handle_robot_start_cartesian_tracker, handle_robot_start_torque_tracker, handle_tracker_status,
  handle_tracker_stop, handle_tracker_set_joint_reference, handle_tracker_set_cartesian_reference,
  handle_tracker_set_joint_gains, handle_tracker_set_cartesian_gains,
  handle_tracker_set_joint_cartesian_gains, handle_tracker_set_posture_stiffness,
  handle_tracker_set_nullspace_gains, handle_tracker_set_torque, handle_tracker_get_torque,
}

module _ ⦃ops : FloatOps⦄ (N : Numpy) (H : Hardware) where
  -- `RPC_HANDLERS`
  unfoldable pub rpc_handlers : Dict (Handler N H)
  rpc_handlers =
      ("robot.create", handle_robot_create N H)
      ∷ ("robot.recover_from_errors", handle_robot_recover_from_errors N H)
      ∷ ("robot.move", handle_robot_move N H)
      ∷ ("robot.join_motion", handle_robot_join_motion N H)
      ∷ ("robot.poll_motion", handle_robot_poll_motion N H)
      ∷ ("robot.stop", handle_robot_stop N H)
      ∷ ("robot.get_last_teleop_state", handle_robot_get_last_teleop_state N H)
      ∷ ("robot.start_joint_tracker", handle_robot_start_joint_tracker N H)
      ∷ ("robot.start_cartesian_tracker", handle_robot_start_cartesian_tracker N H)
      ∷ ("robot.start_torque_tracker", handle_robot_start_torque_tracker N H)
      ∷ ("tracker.status", handle_tracker_status N H)
      ∷ ("tracker.stop", handle_tracker_stop N H)
      ∷ ("tracker.set_joint_reference", handle_tracker_set_joint_reference N H)
      ∷ ("tracker.set_cartesian_reference", handle_tracker_set_cartesian_reference N H)
      ∷ ("tracker.set_joint_gains", handle_tracker_set_joint_gains N H)
      ∷ ("tracker.set_cartesian_gains", handle_tracker_set_cartesian_gains N H)
      ∷ ("tracker.set_joint_cartesian_gains", handle_tracker_set_joint_cartesian_gains N H)
      ∷ ("tracker.set_posture_stiffness", handle_tracker_set_posture_stiffness N H)
      ∷ ("tracker.set_nullspace_gains", handle_tracker_set_nullspace_gains N H)
      ∷ ("tracker.set_torque", handle_tracker_set_torque N H)
      ∷ ("tracker.get_torque", handle_tracker_get_torque N H)
      ∷ []

  unfoldable pub handled : Option (Handler N H) → String → Handler N H
  handled none name p = lift (error not_implemented_error name)
  handled (some handler) name p = handler p

  -- `dispatch`: a list or a dict is no key.
  unfoldable pub dispatch : Value → Value → Exec (ManagerState H) Value
  unfolding handled rpc_handlers shown
  dispatch (str name) params = handled (lookup name rpc_handlers) name params
  dispatch (list xs) params = lift (error type_error "unhashable type: 'list'")
  dispatch (dict d) params = lift (error type_error "unhashable type: 'dict'")
  dispatch name params = lift (error not_implemented_error (shown name))

  -- `serve_once`
  unfoldable pub serve_once : (C : Codec) → C.Bytes → Exec (ManagerState H) C.Bytes
  unfolding dispatch
  serve_once C raw = Rpc.serve_once dispatch C raw
