-- ===== src/Protocol/Targets.antt =====
-- The encoders of targets, twists and waypoints (protocol.py).
use zero_franky.Base.{String, ◌&&◌, [], ◌∷◌, if◌then◌else◌}
use zero_franky.Python.Errors.{Result, ok, error, protocol_error, ◌>>=◌}
use zero_franky.Python.Values.{Value, null, str, dict_of}
use zero_franky.Python.Attributes.{FloatOps, float_list, attr, attr_or, has_attr, is_none}
use zero_franky.Protocol.Scalars.{
  encode_affine, encode_reference_type, encode_relative_dynamics_factor, encode_duration,
}

module _ ⦃ops : FloatOps⦄ where
  -- `[float(item) for item in value.name]`
  unfoldable pub floats_attr : Value → String → Result Value
  unfolding attr
  floats_attr value name = do v ← attr value name; float_list v

  unfoldable pub encode_twist : Value → Result Value
  unfolding floats_attr
  encode_twist value = do
    linear ← floats_attr value "linear"
    angular ← floats_attr value "angular"
    ok (dict_of (("type", str "Twist") ∷ ("linear", linear) ∷ ("angular", angular) ∷ []))

  unfoldable pub encode_twist_acceleration : Value → Result Value
  unfolding floats_attr
  encode_twist_acceleration value = do
    linear ← floats_attr value "linear"
    angular ← floats_attr value "angular"
    ok (dict_of (("linear", linear) ∷ ("angular", angular) ∷ []))

  unfoldable pub encode_cartesian_target : Value → Result Value
  unfolding attr_or is_none has_attr attr
  encode_cartesian_target value =
      if is_none (attr_or value "matrix" null)
      then if has_attr value "end_effector_pose"
        then (do
          pose ← attr value "end_effector_pose"
          affine ← encode_affine pose
          ok (dict_of (("type", str "RobotPose") ∷ ("end_effector_pose", affine) ∷ [])))
        else if has_attr value "pose"
        then (do
          pose ← attr value "pose"
          end_effector_pose ← attr pose "end_effector_pose"
          affine ← encode_affine end_effector_pose
          ok (
              dict_of (
                ("type", str "CartesianState")
                ∷ ("pose", dict_of (("end_effector_pose", affine) ∷ []))
                ∷ [])))
        else error protocol_error "Cannot encode as a cartesian target"
      else do
        affine ← encode_affine value
        ok (dict_of (("type", str "Affine") ∷ ("value", affine) ∷ []))

  unfoldable pub encode_robot_velocity : Value → Result Value
  unfolding has_attr attr
  encode_robot_velocity value =
      if has_attr value "end_effector_twist"
      then (do
        end_effector_twist ← attr value "end_effector_twist"
        twist ← encode_twist end_effector_twist
        elbow_velocity ← attr value "elbow_velocity"
        ok (
            dict_of (
              ("type", str "RobotVelocity")
              ∷ ("end_effector_twist", twist)
              ∷ ("elbow_velocity", elbow_velocity)
              ∷ [])))
      else if has_attr value "linear" && has_attr value "angular"
      then (do
        twist ← encode_twist value
        ok (dict_of (("type", str "Twist") ∷ ("value", twist) ∷ [])))
      else error protocol_error "Cannot encode as a robot velocity"

  unfoldable pub encode_joint_target : Value → Result Value
  unfolding attr_or
  encode_joint_target value = do
    position ← float_list (attr_or value "position" value)
    ok (dict_of (("type", str "JointState") ∷ ("position", position) ∷ []))

  -- `encode_duration(waypoint.name)`
  unfoldable pub duration_attr : Value → String → Result Value
  unfolding attr
  duration_attr waypoint name = do v ← attr waypoint name; encode_duration v

  unfoldable pub dynamics_attr : Value → Result Value
  unfolding attr
  dynamics_attr v = do
    factor ← attr v "relative_dynamics_factor"
    encode_relative_dynamics_factor factor

  unfoldable pub reference_type_attr : Value → Result Value
  unfolding attr
  reference_type_attr v = do
    reference_type ← attr v "reference_type"
    encode_reference_type reference_type

  unfoldable pub encode_position_waypoint : (Value → Result Value) → Value → Result Value
  unfolding attr reference_type_attr dynamics_attr duration_attr
  encode_position_waypoint target_encoder waypoint = do
    target ← attr waypoint "target"
    target' ← target_encoder target
    reference_type ← reference_type_attr waypoint
    factor ← dynamics_attr waypoint
    minimum_time ← duration_attr waypoint "minimum_time"
    hold_target_duration ← duration_attr waypoint "hold_target_duration"
    max_total_duration ← duration_attr waypoint "max_total_duration"
    ok (
        dict_of (
          ("target", target')
          ∷ ("reference_type", reference_type)
          ∷ ("relative_dynamics_factor", factor)
          ∷ ("minimum_time", minimum_time)
          ∷ ("hold_target_duration", hold_target_duration)
          ∷ ("max_total_duration", max_total_duration)
          ∷ []))

  unfoldable pub encode_velocity_waypoint : (Value → Result Value) → Value → Result Value
  unfolding attr dynamics_attr duration_attr
  encode_velocity_waypoint target_encoder waypoint = do
    target ← attr waypoint "target"
    target' ← target_encoder target
    factor ← dynamics_attr waypoint
    minimum_time ← duration_attr waypoint "minimum_time"
    hold_target_duration ← duration_attr waypoint "hold_target_duration"
    max_total_duration ← duration_attr waypoint "max_total_duration"
    ok (
        dict_of (
          ("target", target')
          ∷ ("relative_dynamics_factor", factor)
          ∷ ("minimum_time", minimum_time)
          ∷ ("hold_target_duration", hold_target_duration)
          ∷ ("max_total_duration", max_total_duration)
          ∷ []))
