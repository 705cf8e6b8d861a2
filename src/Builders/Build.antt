-- ===== src/Builders/Build.antt =====
-- `build_franky_motion` and its table (zmq_server_franky.py).
use zero_franky.Base.{String, ◌<>◌, Option, none, some, ◌==◌, if◌then◌else◌}
use zero_franky.Python.Errors.{
  Exc, Result, raise, error, value_error, type_error, ◌>>=◌, on_key_error,
}
use zero_franky.Python.Values.{Value, str, list, dict}
use zero_franky.Python.Attributes.{FloatOps, at_key}
use zero_franky.Builders.Franky.{Franky}
use zero_franky.Builders.Motions.{
  build_cartesian_motion, build_cartesian_waypoint_motion, build_stop_motion, build_joint_motion,
  build_joint_waypoint_motion, build_cartesian_velocity_motion,
  build_cartesian_velocity_waypoint_motion, build_joint_velocity_motion,
  build_joint_velocity_waypoint_motion,
}
use zero_franky.Builders.Impedance.{
  build_joint_impedance_motion, build_cartesian_impedance_motion, build_torque_stop_motion,
}

abbrev pub unsupported : String → Exc
unsupported name = record { cls = value_error; message = "Unsupported motion type: " <> name }

module _ (franky : Franky) ⦃ops : FloatOps⦄ where
  -- `MOTION_BUILDERS`, as the decorators fill it
  unfoldable pub motion_builder : String → Option (Value → Result Value)
  motion_builder name =
      if name == "CartesianMotion"
      then some (build_cartesian_motion franky)
      else if name == "CartesianWaypointMotion"
      then some (build_cartesian_waypoint_motion franky)
      else if name == "CartesianStopMotion"
      then some (build_stop_motion franky "CartesianStopMotion")
      else if name == "JointMotion"
      then some (build_joint_motion franky)
      else if name == "JointWaypointMotion"
      then some (build_joint_waypoint_motion franky)
      else if name == "JointStopMotion"
      then some (build_stop_motion franky "JointStopMotion")
      else if name == "CartesianVelocityMotion"
      then some (build_cartesian_velocity_motion franky)
      else if name == "CartesianVelocityWaypointMotion"
      then some (build_cartesian_velocity_waypoint_motion franky)
      else if name == "CartesianVelocityStopMotion"
      then some (build_stop_motion franky "CartesianVelocityStopMotion")
      else if name == "JointVelocityMotion"
      then some (build_joint_velocity_motion franky)
      else if name == "JointVelocityWaypointMotion"
      then some (build_joint_velocity_waypoint_motion franky)
      else if name == "JointVelocityStopMotion"
      then some (build_stop_motion franky "JointVelocityStopMotion")
      else if name == "JointImpedanceMotion"
      then some (build_joint_impedance_motion franky)
      else if name == "CartesianImpedanceMotion"
      then some (build_cartesian_impedance_motion franky)
      else if name == "TorqueStopMotion"
      then some (build_torque_stop_motion franky)
      else none

  -- The table's lookup and the builder's run stand in one `try`: a key that the payload lacks is
  -- reported like a type that the table lacks.
  unfoldable pub build_named : Value → Value → Result Value
  unfolding motion_builder
  build_named (str name) payload = elim (motion_builder name) [
    | some builder ↦ on_key_error (builder payload) (unsupported name)
    | none ↦ raise (unsupported name)
  ]
  build_named (list xs) payload = error type_error "unhashable type: 'list'"
  build_named (dict d) payload = error type_error "unhashable type: 'dict'"
  build_named _ payload = error value_error "Unsupported motion type"

  unfoldable pub build_franky_motion : Value → Result Value
  unfolding at_key build_named
  build_franky_motion payload = do type_name ← at_key payload "type"; build_named type_name payload
