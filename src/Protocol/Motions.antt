-- ===== src/Protocol/Motions.antt =====
-- `encode_motion` and the encoder of each motion class (protocol.py).
use zero_franky.Base.{String, ◌<>◌, Bool, Option, none, some, ◌==◌, [], ◌∷◌, if◌then◌else◌}
use zero_franky.Python.Errors.{Exc, Result, ok, unsupported_motion_type, ◌>>=◌, on_key_error}
use zero_franky.Python.Values.{Value, null, bool, float, str, list, Items, nil, cons}
use zero_franky.Python.Attributes.{
  FloatOps, attr, attr_or, is_none, iterate, truthy, to_float, float_list, type_name, display,
}
use zero_franky.Protocol.Scalars.{encode_affine, encode_vector}
use zero_franky.Protocol.Targets.{
  encode_cartesian_target, encode_robot_velocity, encode_joint_target, encode_position_waypoint,
  encode_velocity_waypoint, duration_attr, dynamics_attr, reference_type_attr, floats_attr,
}
use zero_franky.Protocol.Impedance.{
  params_of, param_field, encode_joint_impedance_fields, encode_cartesian_impedance_fields,
}

-- `bool(motion.name)`
unfoldable pub bool_attr : Value → String → Result Value
unfolding attr truthy
bool_attr motion name = do v ← attr motion name; ok (bool (truthy v))

unfoldable pub map_items : (Value → Result Value) → Items → Result Items
map_items f nil = ok nil
map_items f (cons v vs) = do x ← f v; xs ← map_items f vs; ok (cons x xs)

-- `[f(waypoint) for waypoint in motion.waypoints]`
unfoldable pub map_waypoints : (Value → Result Value) → Value → Result Value
unfolding attr iterate
map_waypoints f motion = do
  waypoints ← attr motion "waypoints"
  vs ← iterate waypoints
  xs ← map_items f vs
  ok (list xs)

-- `f(motion.target)`
unfoldable pub target_attr : (Value → Result Value) → Value → Result Value
unfolding attr
target_attr f motion = do target ← attr motion "target"; f target

module _ ⦃ops : FloatOps⦄ where
  unfoldable pub optional_affine : Value → Result Value
  unfolding is_none
  optional_affine value = if is_none value then ok null else encode_affine value

  -- `encode_affine(motion.ee_frame) if getattr(motion, "ee_frame", None) is not None else None`
  unfoldable pub encode_ee_frame : Value → Result Value
  unfolding attr_or
  encode_ee_frame motion = optional_affine (attr_or motion "ee_frame" null)

  unfoldable pub encode_cartesian_motion : Value → Result Value
  unfolding target_attr reference_type_attr dynamics_attr bool_attr encode_ee_frame display
  encode_cartesian_motion motion = display (
      ("type", ok (str "CartesianMotion"))
      ∷ ("target", target_attr encode_cartesian_target motion)
      ∷ ("reference_type", reference_type_attr motion)
      ∷ ("relative_dynamics_factor", dynamics_attr motion)
      ∷ ("return_when_finished", bool_attr motion "return_when_finished")
      ∷ ("ee_frame", encode_ee_frame motion)
      ∷ [])

  unfoldable pub encode_cartesian_waypoint_motion : Value → Result Value
  unfolding map_waypoints dynamics_attr bool_attr encode_ee_frame display
  encode_cartesian_waypoint_motion motion = display (
      ("type", ok (str "CartesianWaypointMotion"))
      ∷ ("waypoints", map_waypoints (encode_position_waypoint encode_cartesian_target) motion)
      ∷ ("ee_frame", encode_ee_frame motion)
      ∷ ("relative_dynamics_factor", dynamics_attr motion)
      ∷ ("return_when_finished", bool_attr motion "return_when_finished")
      ∷ [])

  unfoldable pub encode_cartesian_stop_motion : Value → Result Value
  unfolding dynamics_attr display
  encode_cartesian_stop_motion motion = display (
      ("type", ok (str "CartesianStopMotion"))
      ∷ ("relative_dynamics_factor", dynamics_attr motion)
      ∷ [])

  unfoldable pub encode_joint_motion : Value → Result Value
  unfolding target_attr reference_type_attr dynamics_attr bool_attr display
  encode_joint_motion motion = display (
      ("type", ok (str "JointMotion"))
      ∷ ("target", target_attr encode_joint_target motion)
      ∷ ("reference_type", reference_type_attr motion)
      ∷ ("relative_dynamics_factor", dynamics_attr motion)
      ∷ ("return_when_finished", bool_attr motion "return_when_finished")
      ∷ [])

  unfoldable pub encode_joint_waypoint_motion : Value → Result Value
  unfolding map_waypoints dynamics_attr bool_attr display
  encode_joint_waypoint_motion motion = display (
      ("type", ok (str "JointWaypointMotion"))
      ∷ ("waypoints", map_waypoints (encode_position_waypoint encode_joint_target) motion)
      ∷ ("relative_dynamics_factor", dynamics_attr motion)
      ∷ ("return_when_finished", bool_attr motion "return_when_finished")
      ∷ [])

  unfoldable pub encode_joint_stop_motion : Value → Result Value
  unfolding dynamics_attr display
  encode_joint_stop_motion motion = display (
      ("type", ok (str "JointStopMotion"))
      ∷ ("relative_dynamics_factor", dynamics_attr motion)
      ∷ [])

  unfoldable pub encode_cartesian_velocity_motion : Value → Result Value
  unfolding target_attr duration_attr dynamics_attr display
  encode_cartesian_velocity_motion motion = display (
      ("type", ok (str "CartesianVelocityMotion"))
      ∷ ("target", target_attr encode_robot_velocity motion)
      ∷ ("duration", duration_attr motion "duration")
      ∷ ("relative_dynamics_factor", dynamics_attr motion)
      ∷ ("ee_frame", encode_ee_frame motion)
      ∷ [])

  unfoldable pub encode_cartesian_velocity_waypoint_motion : Value → Result Value
  unfolding map_waypoints dynamics_attr display
  encode_cartesian_velocity_waypoint_motion motion = display (
      ("type", ok (str "CartesianVelocityWaypointMotion"))
      ∷ ("waypoints", map_waypoints (encode_velocity_waypoint encode_robot_velocity) motion)
      ∷ ("ee_frame", encode_ee_frame motion)
      ∷ ("relative_dynamics_factor", dynamics_attr motion)
      ∷ [])

  unfoldable pub encode_cartesian_velocity_stop_motion : Value → Result Value
  unfolding dynamics_attr display
  encode_cartesian_velocity_stop_motion motion = display (
      ("type", ok (str "CartesianVelocityStopMotion"))
      ∷ ("relative_dynamics_factor", dynamics_attr motion)
      ∷ [])

  unfoldable pub encode_joint_velocity_motion : Value → Result Value
  unfolding floats_attr duration_attr dynamics_attr display
  encode_joint_velocity_motion motion = display (
      ("type", ok (str "JointVelocityMotion"))
      ∷ ("target", floats_attr motion "target")
      ∷ ("duration", duration_attr motion "duration")
      ∷ ("relative_dynamics_factor", dynamics_attr motion)
      ∷ [])

  unfoldable pub encode_joint_velocity_waypoint_motion : Value → Result Value
  unfolding map_waypoints dynamics_attr display
  encode_joint_velocity_waypoint_motion motion = display (
      ("type", ok (str "JointVelocityWaypointMotion"))
      ∷ ("waypoints", map_waypoints (encode_velocity_waypoint float_list) motion)
      ∷ ("relative_dynamics_factor", dynamics_attr motion)
      ∷ [])

  unfoldable pub encode_joint_velocity_stop_motion : Value → Result Value
  unfolding dynamics_attr display
  encode_joint_velocity_stop_motion motion = display (
      ("type", ok (str "JointVelocityStopMotion"))
      ∷ ("relative_dynamics_factor", dynamics_attr motion)
      ∷ [])

  unfoldable pub encode_joint_impedance_motion : Value → Result Value
  unfolding display
  encode_joint_impedance_motion motion =
      display (("type", ok (str "JointImpedanceMotion")) ∷ encode_joint_impedance_fields motion)

  unfoldable pub encode_cartesian_impedance_motion : Value → Result Value
  unfolding display
  encode_cartesian_impedance_motion motion = do
    entries ← encode_cartesian_impedance_fields motion
    display (("type", ok (str "CartesianImpedanceMotion")) ∷ entries)

  -- The defaults are 0.2, 0.02, 2.0, True and 1.0.
  unfoldable pub encode_torque_stop_motion : Value → Result Value
  unfolding params_of param_field truthy display
  encode_torque_stop_motion motion =
      let field = param_field motion (params_of motion) in
      display (
        ("type", ok (str "TorqueStopMotion"))
        ∷ ("damping", encode_vector (field "damping" null))
        ∷ (
          "ramp_duration",
          to_float (field "ramp_duration" (float (record { bits = 0x3fc999999999999a }))),
        )
        ∷ (
          "velocity_epsilon",
          to_float (field "velocity_epsilon" (float (record { bits = 0x3f947ae147ae147b }))),
        )
        ∷ (
          "max_duration",
          to_float (field "max_duration" (float (record { bits = 0x4000000000000000 }))),
        )
        ∷ ("compensate_coriolis", ok (bool (truthy (field "compensate_coriolis" (bool Bool.true)))))
        ∷ (
          "max_delta_tau",
          to_float (field "max_delta_tau" (float (record { bits = 0x3ff0000000000000 }))),
        )
        ∷ [])

  -- `MOTION_ENCODERS`, as the decorators fill it
  unfoldable pub motion_encoder : String → Option (Value → Result Value)
  motion_encoder name =
      if name == "CartesianMotion"
      then some encode_cartesian_motion
      else if name == "CartesianWaypointMotion"
      then some encode_cartesian_waypoint_motion
      else if name == "CartesianStopMotion"
      then some encode_cartesian_stop_motion
      else if name == "JointMotion"
      then some encode_joint_motion
      else if name == "JointWaypointMotion"
      then some encode_joint_waypoint_motion
      else if name == "JointStopMotion"
      then some encode_joint_stop_motion
      else if name == "CartesianVelocityMotion"
      then some encode_cartesian_velocity_motion
      else if name == "CartesianVelocityWaypointMotion"
      then some encode_cartesian_velocity_waypoint_motion
      else if name == "CartesianVelocityStopMotion"
      then some encode_cartesian_velocity_stop_motion
      else if name == "JointVelocityMotion"
      then some encode_joint_velocity_motion
      else if name == "JointVelocityWaypointMotion"
      then some encode_joint_velocity_waypoint_motion
      else if name == "JointVelocityStopMotion"
      then some encode_joint_velocity_stop_motion
      else if name == "JointImpedanceMotion"
      then some encode_joint_impedance_motion
      else if name == "CartesianImpedanceMotion"
      then some encode_cartesian_impedance_motion
      else if name == "TorqueStopMotion"
      then some encode_torque_stop_motion
      else none

  abbrev unsupported : String → Exc
  unsupported name = record {
    cls = unsupported_motion_type;
    message = "Unsupported motion type: " <> name;
  }

  unfoldable pub encode_motion : Value → Result Value
  unfolding motion_encoder type_name
  encode_motion motion =
      let name = type_name motion in
      elim (motion_encoder name) [
        | some encoder ↦ on_key_error (encoder motion) (unsupported name)
        | none ↦ Result.raise (unsupported name)
      ]
