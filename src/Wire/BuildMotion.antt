-- ===== src/Wire/BuildMotion.antt =====
-- `build_franky_motion` reads the payload of every motion back.
use zero_franky.Base.{ℕ, ◌≡◌, refl, Option, none, some, List, map}
use zero_franky.Base.Int.{ℤ}
use zero_franky.Python.Errors.{ok, ◌>>=◌}
use zero_franky.Python.Values.{items}
use zero_franky.Python.Attributes.{FloatOps}
use zero_franky.Protocol.Motions.{map_items, encode_motion}
use zero_franky.Types.Geometry.{as_cartesian_state}
use zero_franky.Types.Waypoints.{
  new_cartesian_waypoint, new_joint_waypoint, new_joint_velocity_waypoint,
  new_cartesian_velocity_waypoint,
}
use zero_franky.Types.Motions.{
  new_cartesian_motion, new_cartesian_waypoint_motion, new_stop_motion, new_joint_motion,
  new_joint_waypoint_motion, new_cartesian_velocity_motion, new_cartesian_velocity_waypoint_motion,
  new_joint_velocity_motion, new_joint_velocity_waypoint_motion,
}
use zero_franky.Types.Module.{types_module}
use zero_franky.Builders.Parts.{
  franky_position_waypoint, franky_velocity_waypoint, franky_cartesian_target, franky_joint_target,
  franky_robot_velocity,
}
use zero_franky.Builders.Motions.{
  build_cartesian_motion, build_cartesian_waypoint_motion, build_stop_motion, build_joint_motion,
  build_joint_waypoint_motion, build_cartesian_velocity_motion,
  build_cartesian_velocity_waypoint_motion, build_joint_velocity_motion,
  build_joint_velocity_waypoint_motion, waypoints_at,
}
use zero_franky.Builders.Build.{build_franky_motion}
use zero_franky.Wire.Data.{
  Joints, Pose, cartesian_state, JointTarget, Velocity, PositionWaypoint, VelocityWaypoint, Motion,
  cartesian, cartesian_waypoints, cartesian_stop, joint, joint_waypoints, joint_stop,
  cartesian_velocity, cartesian_velocity_waypoints, cartesian_velocity_stop, joint_velocity,
  joint_velocity_waypoints, joint_velocity_stop, pose_value, joint_value, velocity_value, joints,
  motion_object, construct_all, position_waypoint_object, velocity_waypoint_object,
}
use zero_franky.Wire.Payload.{
  motion_payload, pose_matrix, pose_payload, joint_payload, velocity_payload, duration_or,
  position_waypoint_payload, velocity_waypoint_payload,
}
use zero_franky.Wire.Encode.{
  as_cartesian_state-pose_value, as_joint_state-joint_value, vector-joints,
}
use zero_franky.Wire.Waypoints.{state_value, hold_or_zero-duration_value}
use zero_franky.Wire.EncodeMotion.{
  duration_or_second-duration_value, encode_motion-motion_object, made-position, made-joint,
  made-velocity, made-joints,
}
use zero_franky.Wire.Received.{
  received, received_factor, received_position, received_velocity, at_rest, same,
  franky_duration-duration_payload, reference_type_member-reference_name,
  franky_relative_dynamics_factor-factor_payload, franky_cartesian_target-pose_payload,
  franky_joint_target-joint_payload, franky_robot_velocity-velocity_payload,
  franky_ee_frame-frame_payload, map_items-construct_all,
}

duration_or_idem : (n : ℕ) (d : Option ℤ) → duration_or n (duration_or n d) ≡ duration_or n d
unfolding duration_or
duration_or_idem n none = refl
duration_or_idem n (some m) = refl

-- A target that is a state already stays as it is.
as_cartesian_state-state_value :
    (p : Pose) → as_cartesian_state (state_value p) ≡ ok (state_value p)
unfolding pose_matrix
as_cartesian_state-state_value p = as_cartesian_state-pose_value (cartesian_state (pose_matrix p))

module _ ⦃ops : FloatOps⦄ where
  ruleset part_laws = (
    franky_duration-duration_payload, reference_type_member-reference_name,
    franky_relative_dynamics_factor-factor_payload, franky_cartesian_target-pose_payload,
    franky_joint_target-joint_payload, franky_robot_velocity-velocity_payload,
    franky_ee_frame-frame_payload, as_cartesian_state-state_value, as_cartesian_state-pose_value,
    as_joint_state-joint_value, hold_or_zero-duration_value, duration_or_idem,
    duration_or_second-duration_value, vector-joints,
  )

  build-pose :
      (w : PositionWaypoint Pose)
      → franky_position_waypoint types_module "CartesianWaypoint"
          (franky_cartesian_target types_module)
          (position_waypoint_payload pose_payload w)
        ≡ position_waypoint_object new_cartesian_waypoint pose_value
            (received_position received_factor same w)
  unfolding franky_position_waypoint position_waypoint_payload position_waypoint_object
      received_position types_module new_cartesian_waypoint
  build-pose w = simp part_laws

  build-joint :
      (w : PositionWaypoint JointTarget)
      → franky_position_waypoint types_module "JointWaypoint"
          (franky_joint_target types_module)
          (position_waypoint_payload joint_payload w)
        ≡ position_waypoint_object new_joint_waypoint joint_value
            (received_position received_factor at_rest w)
  unfolding franky_position_waypoint position_waypoint_payload position_waypoint_object
      received_position types_module new_joint_waypoint
  build-joint w = simp part_laws

  build-velocity :
      (w : VelocityWaypoint Velocity)
      → franky_velocity_waypoint types_module "CartesianVelocityWaypoint"
          (franky_robot_velocity types_module)
          (velocity_waypoint_payload velocity_payload w)
        ≡ velocity_waypoint_object new_cartesian_velocity_waypoint velocity_value
            (received_velocity received_factor w)
  unfolding franky_velocity_waypoint velocity_waypoint_payload velocity_waypoint_object
      received_velocity types_module new_cartesian_velocity_waypoint
  build-velocity w = simp part_laws

  build-joints :
      (w : VelocityWaypoint Joints)
      → franky_velocity_waypoint types_module "JointVelocityWaypoint"
          (λ target. ok target)
          (velocity_waypoint_payload joints w)
        ≡ velocity_waypoint_object new_joint_velocity_waypoint joints
            (received_velocity received_factor w)
  unfolding franky_velocity_waypoint velocity_waypoint_payload velocity_waypoint_object
      received_velocity types_module new_joint_velocity_waypoint
  build-joints w = simp part_laws

  build-poses :
      (ws : List (PositionWaypoint Pose))
      → map_items
          (franky_position_waypoint types_module "CartesianWaypoint"
            (franky_cartesian_target types_module))
          (items (map (position_waypoint_payload pose_payload) ws))
        ≡ construct_all
            (position_waypoint_object new_cartesian_waypoint pose_value)
            (map (received_position received_factor same) ws)
  build-poses = map_items-construct_all _ _ _ _ build-pose

  build-joint_targets :
      (ws : List (PositionWaypoint JointTarget))
      → map_items
          (franky_position_waypoint types_module "JointWaypoint" (franky_joint_target types_module))
          (items (map (position_waypoint_payload joint_payload) ws))
        ≡ construct_all
            (position_waypoint_object new_joint_waypoint joint_value)
            (map (received_position received_factor at_rest) ws)
  build-joint_targets = map_items-construct_all _ _ _ _ build-joint

  build-velocities :
      (ws : List (VelocityWaypoint Velocity))
      → map_items
          (franky_velocity_waypoint types_module "CartesianVelocityWaypoint"
            (franky_robot_velocity types_module))
          (items (map (velocity_waypoint_payload velocity_payload) ws))
        ≡ construct_all
            (velocity_waypoint_object new_cartesian_velocity_waypoint velocity_value)
            (map (received_velocity received_factor) ws)
  build-velocities = map_items-construct_all _ _ _ _ build-velocity

  build-joint_velocities :
      (ws : List (VelocityWaypoint Joints))
      → map_items
          (franky_velocity_waypoint types_module "JointVelocityWaypoint" (λ target. ok target))
          (items (map (velocity_waypoint_payload joints) ws))
        ≡ construct_all
            (velocity_waypoint_object new_joint_velocity_waypoint joints)
            (map (received_velocity received_factor) ws)
  build-joint_velocities = map_items-construct_all _ _ _ _ build-joints

  ruleset motion_laws = (
    part_laws, build-poses, build-joint_targets, build-velocities, build-joint_velocities,
    made-position, made-joint, made-velocity, made-joints,
  )

  -- From the payload of a motion the builder makes the object that the constructors make of the motion
  -- as received.
  pub build_franky_motion-motion_payload :
      (m : Motion)
      → build_franky_motion types_module (motion_payload m) ≡ motion_object (received m)
  unfolding build_franky_motion motion_payload motion_object received waypoints_at types_module
      new_cartesian_motion new_cartesian_waypoint new_stop_motion new_joint_motion
      new_joint_waypoint new_cartesian_velocity_motion new_cartesian_velocity_waypoint
      new_joint_velocity_motion new_joint_velocity_waypoint new_cartesian_waypoint_motion
      new_joint_waypoint_motion new_cartesian_velocity_waypoint_motion
      new_joint_velocity_waypoint_motion build_cartesian_motion build_cartesian_waypoint_motion
      build_stop_motion build_joint_motion build_joint_waypoint_motion
      build_cartesian_velocity_motion build_cartesian_velocity_waypoint_motion
      build_joint_velocity_motion build_joint_velocity_waypoint_motion
  build_franky_motion-motion_payload (cartesian t r f b fr) = simp motion_laws
  build_franky_motion-motion_payload (cartesian_waypoints ws fr f b) = simp motion_laws
  build_franky_motion-motion_payload (cartesian_stop f) = simp motion_laws
  build_franky_motion-motion_payload (joint t r f b) = simp motion_laws
  build_franky_motion-motion_payload (joint_waypoints ws f b) = simp motion_laws
  build_franky_motion-motion_payload (joint_stop f) = simp motion_laws
  build_franky_motion-motion_payload (cartesian_velocity t d f fr) = simp motion_laws
  build_franky_motion-motion_payload (cartesian_velocity_waypoints ws fr f) = simp motion_laws
  build_franky_motion-motion_payload (cartesian_velocity_stop f) = simp motion_laws
  build_franky_motion-motion_payload (joint_velocity q d f) = simp motion_laws
  build_franky_motion-motion_payload (joint_velocity_waypoints ws f) = simp motion_laws
  build_franky_motion-motion_payload (joint_velocity_stop f) = simp motion_laws

  -- A motion that the client makes, encodes and sends, and that the server builds with the classes of
  -- zero_franky.types, is what the constructors make of the same motion, but that its dynamics factors
  -- have three components, three times the first where they compare equal, and that its joint targets
  -- are at rest.
  pub build_franky_motion-encode_motion :
      (m : Motion)
      → (motion_object m >>= encode_motion >>= build_franky_motion types_module)
        ≡ motion_object (received m)
  build_franky_motion-encode_motion m =
      rw (encode_motion-motion_object m) (build_franky_motion-motion_payload m)
