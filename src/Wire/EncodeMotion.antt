-- ===== src/Wire/EncodeMotion.antt =====
-- `encode_motion` writes the payload of every motion that the constructors make.
use zero_franky.Base.{◌≡◌, refl, Option, none, some, List, map}
use zero_franky.Base.Int.{ℤ}
use zero_franky.Python.Errors.{ok, ◌>>=◌}
use zero_franky.Python.Values.{items}
use zero_franky.Python.Attributes.{FloatOps, display, float_list}
use zero_franky.Protocol.Targets.{
  encode_cartesian_target, encode_joint_target, encode_robot_velocity, encode_position_waypoint,
  encode_velocity_waypoint,
}
use zero_franky.Protocol.Motions.{
  encode_motion, encode_ee_frame, encode_cartesian_motion, encode_cartesian_waypoint_motion,
  encode_cartesian_stop_motion, encode_joint_motion, encode_joint_waypoint_motion,
  encode_joint_stop_motion, encode_cartesian_velocity_motion,
  encode_cartesian_velocity_waypoint_motion, encode_cartesian_velocity_stop_motion,
  encode_joint_velocity_motion, encode_joint_velocity_waypoint_motion,
  encode_joint_velocity_stop_motion, map_items, map_waypoints, target_attr, bool_attr,
}
use zero_franky.Types.Waypoints.{
  new_cartesian_waypoint, new_joint_waypoint, new_joint_velocity_waypoint,
  new_cartesian_velocity_waypoint,
}
use zero_franky.Types.Motions.{
  new_cartesian_motion, new_cartesian_waypoint_motion, new_stop_motion, new_joint_motion,
  new_joint_waypoint_motion, new_cartesian_velocity_motion, new_cartesian_velocity_waypoint_motion,
  new_joint_velocity_motion, new_joint_velocity_waypoint_motion, duration_or_second,
}
use zero_franky.Wire.Data.{
  Motion, Pose, cartesian, cartesian_waypoints, cartesian_stop, joint, joint_waypoints, joint_stop,
  cartesian_velocity, cartesian_velocity_waypoints, cartesian_velocity_stop, joint_velocity,
  joint_velocity_waypoints, joint_velocity_stop, PositionWaypoint, VelocityWaypoint, JointTarget,
  Velocity, Joints, construct_all, position_waypoint_object, velocity_waypoint_object, pose_value,
  motion_object, joint_value, velocity_value, joints, duration_value,
}
use zero_franky.Wire.Payload.{
  motion_payload, position_waypoint_payload, velocity_waypoint_payload, pose_payload, joint_payload,
  velocity_payload, duration_or,
}
use zero_franky.Wire.Encode.{
  encode_duration-duration_value, encode_reference_type-reference_value,
  as_cartesian_state-pose_value, as_joint_state-joint_value, float_list-joints, vector-joints,
  encode_relative_dynamics_factor-factor_value, encode_cartesian_target-cartesian_state,
  encode_joint_target-joint_value, encode_robot_velocity-velocity_value, construct_all-ok,
  map_items-ok, optional_affine-frame_value,
}
use zero_franky.Wire.Waypoints.{
  position_value, velocity_waypoint_value, state_value, position_waypoint_object-pose,
  position_waypoint_object-joint, velocity_waypoint_object-velocity,
  velocity_waypoint_object-joints, encode_position_waypoint-position_value,
  encode_velocity_waypoint-velocity_waypoint_value,
}

pub duration_or_second-duration_value :
    (d : Option ℤ) → duration_or_second (duration_value d) ≡ duration_value (duration_or 1000 d)
unfolding duration_or_second duration_value duration_or
duration_or_second-duration_value none = refl
duration_or_second-duration_value (some n) = refl

module _ ⦃ops : FloatOps⦄ where
  ruleset part_laws = (
    encode_duration-duration_value, encode_reference_type-reference_value,
    as_cartesian_state-pose_value, as_joint_state-joint_value, float_list-joints, vector-joints,
    encode_relative_dynamics_factor-factor_value, encode_cartesian_target-cartesian_state,
    encode_joint_target-joint_value, encode_robot_velocity-velocity_value,
    duration_or_second-duration_value, optional_affine-frame_value,
  )

  pub made-position :
      (ws : List (PositionWaypoint Pose))
      → construct_all (position_waypoint_object new_cartesian_waypoint pose_value) ws
        ≡ ok (items (map (position_value "CartesianWaypoint" state_value) ws))
  made-position = construct_all-ok _ _ position_waypoint_object-pose

  pub made-joint :
      (ws : List (PositionWaypoint JointTarget))
      → construct_all (position_waypoint_object new_joint_waypoint joint_value) ws
        ≡ ok (items (map (position_value "JointWaypoint" joint_value) ws))
  made-joint = construct_all-ok _ _ position_waypoint_object-joint

  pub made-velocity :
      (ws : List (VelocityWaypoint Velocity))
      → construct_all (velocity_waypoint_object new_cartesian_velocity_waypoint velocity_value) ws
        ≡ ok (items (map (velocity_waypoint_value "CartesianVelocityWaypoint" velocity_value) ws))
  made-velocity = construct_all-ok _ _ velocity_waypoint_object-velocity

  pub made-joints :
      (ws : List (VelocityWaypoint Joints))
      → construct_all (velocity_waypoint_object new_joint_velocity_waypoint joints) ws
        ≡ ok (items (map (velocity_waypoint_value "JointVelocityWaypoint" joints) ws))
  made-joints = construct_all-ok _ _ velocity_waypoint_object-joints

  encode-position :
      (ws : List (PositionWaypoint Pose))
      → map_items
          (encode_position_waypoint encode_cartesian_target)
          (items (map (position_value "CartesianWaypoint" state_value) ws))
        ≡ ok (items (map (position_waypoint_payload pose_payload) ws))
  encode-position = map_items-ok _ _ _ (
      encode_position_waypoint-position_value "CartesianWaypoint" encode_cartesian_target
        state_value pose_payload encode_cartesian_target-cartesian_state)

  encode-joint :
      (ws : List (PositionWaypoint JointTarget))
      → map_items
          (encode_position_waypoint encode_joint_target)
          (items (map (position_value "JointWaypoint" joint_value) ws))
        ≡ ok (items (map (position_waypoint_payload joint_payload) ws))
  encode-joint = map_items-ok _ _ _ (
      encode_position_waypoint-position_value "JointWaypoint" encode_joint_target joint_value
        joint_payload encode_joint_target-joint_value)

  encode-velocity :
      (ws : List (VelocityWaypoint Velocity))
      → map_items
          (encode_velocity_waypoint encode_robot_velocity)
          (items (map (velocity_waypoint_value "CartesianVelocityWaypoint" velocity_value) ws))
        ≡ ok (items (map (velocity_waypoint_payload velocity_payload) ws))
  encode-velocity = map_items-ok _ _ _ (
      encode_velocity_waypoint-velocity_waypoint_value "CartesianVelocityWaypoint"
        encode_robot_velocity velocity_value velocity_payload encode_robot_velocity-velocity_value)

  encode-joints :
      (ws : List (VelocityWaypoint Joints))
      → map_items
          (encode_velocity_waypoint float_list)
          (items (map (velocity_waypoint_value "JointVelocityWaypoint" joints) ws))
        ≡ ok (items (map (velocity_waypoint_payload joints) ws))
  encode-joints = map_items-ok _ _ _ (
      encode_velocity_waypoint-velocity_waypoint_value "JointVelocityWaypoint" float_list joints
        joints float_list-joints)

  ruleset motion_laws = (
    part_laws, encode-position, encode-joint, encode-velocity, encode-joints, made-position,
    made-joint, made-velocity, made-joints,
  )

  -- The encoder writes the payload of every motion that the client's constructors make.
  pub encode_motion-motion_object :
      (m : Motion) → (motion_object m >>= encode_motion) ≡ ok (motion_payload m)
  unfolding motion_object encode_motion motion_payload display target_attr map_waypoints bool_attr
      encode_ee_frame new_cartesian_motion new_cartesian_waypoint new_stop_motion new_joint_motion
      new_joint_waypoint new_cartesian_velocity_motion new_cartesian_velocity_waypoint
      new_joint_velocity_motion new_joint_velocity_waypoint new_cartesian_waypoint_motion
      new_joint_waypoint_motion new_cartesian_velocity_waypoint_motion
      new_joint_velocity_waypoint_motion encode_cartesian_motion encode_cartesian_waypoint_motion
      encode_cartesian_stop_motion encode_joint_motion encode_joint_waypoint_motion
      encode_joint_stop_motion encode_cartesian_velocity_motion
      encode_cartesian_velocity_waypoint_motion encode_cartesian_velocity_stop_motion
      encode_joint_velocity_motion encode_joint_velocity_waypoint_motion
      encode_joint_velocity_stop_motion
  encode_motion-motion_object (cartesian t r f b fr) = simp motion_laws
  encode_motion-motion_object (cartesian_waypoints ws fr f b) = simp motion_laws
  encode_motion-motion_object (cartesian_stop f) = simp motion_laws
  encode_motion-motion_object (joint t r f b) = simp motion_laws
  encode_motion-motion_object (joint_waypoints ws f b) = simp motion_laws
  encode_motion-motion_object (joint_stop f) = simp motion_laws
  encode_motion-motion_object (cartesian_velocity t d f fr) = simp motion_laws
  encode_motion-motion_object (cartesian_velocity_waypoints ws fr f) = simp motion_laws
  encode_motion-motion_object (cartesian_velocity_stop f) = simp motion_laws
  encode_motion-motion_object (joint_velocity q d f) = simp motion_laws
  encode_motion-motion_object (joint_velocity_waypoints ws f) = simp motion_laws
  encode_motion-motion_object (joint_velocity_stop f) = simp motion_laws
