-- ===== src/Wire/Payload.antt =====
-- The payload of each motion, written down without the encoders.
use zero_franky.Base.{ℕ, Option, none, some, [], ◌∷◌, map}
use zero_franky.Base.Int.{ℤ, pos}
use zero_franky.Python.Values.{Value, null, bool, int, str, float, list, dict_of, items}
use zero_franky.Wire.Data.{
  Matrix, Vec3, vec3, matrix, joints, Factor, scalar, factor, reference_name, Pose, affine,
  robot_pose, cartesian_state, JointTarget, Velocity, robot_velocity, twist, float_or_none,
  PositionWaypoint, VelocityWaypoint, Motion, cartesian, cartesian_waypoints, cartesian_stop, joint,
  joint_waypoints, joint_stop, cartesian_velocity, cartesian_velocity_waypoints,
  cartesian_velocity_stop, joint_velocity, joint_velocity_waypoints, joint_velocity_stop,
}

unfoldable pub affine_payload : Matrix → Value
affine_payload m = dict_of (("type", str "Affine") ∷ ("matrix", matrix m) ∷ [])

unfoldable pub factor_payload : Factor → Value
factor_payload (scalar x) =
    dict_of (("velocity", float x) ∷ ("acceleration", float x) ∷ ("jerk", float x) ∷ [])
factor_payload (factor v a j) =
    dict_of (("velocity", float v) ∷ ("acceleration", float a) ∷ ("jerk", float j) ∷ [])

unfoldable pub pose_matrix : Pose → Matrix
pose_matrix (affine m) = m
pose_matrix (robot_pose m) = m
pose_matrix (cartesian_state m) = m

-- A target given to a motion of zero_franky.types is a `CartesianState` there, whatever its form was.
unfoldable pub pose_payload : Pose → Value
pose_payload p = dict_of (
    ("type", str "CartesianState")
    ∷ ("pose", dict_of (("end_effector_pose", affine_payload (pose_matrix p)) ∷ []))
    ∷ [])

unfoldable pub joint_payload : JointTarget → Value
joint_payload t = dict_of (("type", str "JointState") ∷ ("position", joints t.position) ∷ [])

unfoldable pub twist_payload : Vec3 → Vec3 → Value
twist_payload l a = dict_of (("type", str "Twist") ∷ ("linear", vec3 l) ∷ ("angular", vec3 a) ∷ [])

unfoldable pub velocity_payload : Velocity → Value
velocity_payload (robot_velocity l a elbow) = dict_of (
    ("type", str "RobotVelocity")
    ∷ ("end_effector_twist", twist_payload l a)
    ∷ ("elbow_velocity", float_or_none elbow)
    ∷ [])
velocity_payload (twist l a) = dict_of (("type", str "Twist") ∷ ("value", twist_payload l a) ∷ [])

unfoldable pub duration_payload : Option ℤ → Value
duration_payload none = null
duration_payload (some n) = int n

-- A missing hold duration is 0, a missing motion duration is a second.
unfoldable pub duration_or : ℕ → Option ℤ → Option ℤ
duration_or n none = some (pos n)
duration_or n (some m) = some m

unfoldable pub frame_payload : Option Matrix → Value
frame_payload none = null
frame_payload (some m) = affine_payload m

module _ {T : Type 0} (payload : T → Value) where
  unfoldable pub position_waypoint_payload : PositionWaypoint T → Value
  position_waypoint_payload w = dict_of (
      ("target", payload w.target)
      ∷ ("reference_type", str (reference_name w.reference))
      ∷ ("relative_dynamics_factor", factor_payload w.dynamics)
      ∷ ("minimum_time", duration_payload w.times.minimum)
      ∷ ("hold_target_duration", duration_payload (duration_or 0 w.times.hold))
      ∷ ("max_total_duration", duration_payload w.times.max_total)
      ∷ [])

  unfoldable pub velocity_waypoint_payload : VelocityWaypoint T → Value
  velocity_waypoint_payload w = dict_of (
      ("target", payload w.target)
      ∷ ("relative_dynamics_factor", factor_payload w.dynamics)
      ∷ ("minimum_time", duration_payload w.times.minimum)
      ∷ ("hold_target_duration", duration_payload (duration_or 0 w.times.hold))
      ∷ ("max_total_duration", duration_payload w.times.max_total)
      ∷ [])

unfoldable pub motion_payload : Motion → Value
motion_payload (cartesian target r f finished frame) = dict_of (
    ("type", str "CartesianMotion")
    ∷ ("target", pose_payload target)
    ∷ ("reference_type", str (reference_name r))
    ∷ ("relative_dynamics_factor", factor_payload f)
    ∷ ("return_when_finished", bool finished)
    ∷ ("ee_frame", frame_payload frame)
    ∷ [])
motion_payload (cartesian_waypoints ws frame f finished) = dict_of (
    ("type", str "CartesianWaypointMotion")
    ∷ ("waypoints", list (items (map (position_waypoint_payload pose_payload) ws)))
    ∷ ("ee_frame", frame_payload frame)
    ∷ ("relative_dynamics_factor", factor_payload f)
    ∷ ("return_when_finished", bool finished)
    ∷ [])
motion_payload (cartesian_stop f) =
    dict_of
      (("type", str "CartesianStopMotion") ∷ ("relative_dynamics_factor", factor_payload f) ∷ [])
motion_payload (joint target r f finished) = dict_of (
    ("type", str "JointMotion")
    ∷ ("target", joint_payload target)
    ∷ ("reference_type", str (reference_name r))
    ∷ ("relative_dynamics_factor", factor_payload f)
    ∷ ("return_when_finished", bool finished)
    ∷ [])
motion_payload (joint_waypoints ws f finished) = dict_of (
    ("type", str "JointWaypointMotion")
    ∷ ("waypoints", list (items (map (position_waypoint_payload joint_payload) ws)))
    ∷ ("relative_dynamics_factor", factor_payload f)
    ∷ ("return_when_finished", bool finished)
    ∷ [])
motion_payload (joint_stop f) =
    dict_of (("type", str "JointStopMotion") ∷ ("relative_dynamics_factor", factor_payload f) ∷ [])
motion_payload (cartesian_velocity target duration f frame) = dict_of (
    ("type", str "CartesianVelocityMotion")
    ∷ ("target", velocity_payload target)
    ∷ ("duration", duration_payload (duration_or 1000 duration))
    ∷ ("relative_dynamics_factor", factor_payload f)
    ∷ ("ee_frame", frame_payload frame)
    ∷ [])
motion_payload (cartesian_velocity_waypoints ws frame f) = dict_of (
    ("type", str "CartesianVelocityWaypointMotion")
    ∷ ("waypoints", list (items (map (velocity_waypoint_payload velocity_payload) ws)))
    ∷ ("ee_frame", frame_payload frame)
    ∷ ("relative_dynamics_factor", factor_payload f)
    ∷ [])
motion_payload (cartesian_velocity_stop f) = dict_of (
    ("type", str "CartesianVelocityStopMotion")
    ∷ ("relative_dynamics_factor", factor_payload f)
    ∷ [])
motion_payload (joint_velocity target duration f) = dict_of (
    ("type", str "JointVelocityMotion")
    ∷ ("target", joints target)
    ∷ ("duration", duration_payload (duration_or 1000 duration))
    ∷ ("relative_dynamics_factor", factor_payload f)
    ∷ [])
motion_payload (joint_velocity_waypoints ws f) = dict_of (
    ("type", str "JointVelocityWaypointMotion")
    ∷ ("waypoints", list (items (map (velocity_waypoint_payload joints) ws)))
    ∷ ("relative_dynamics_factor", factor_payload f)
    ∷ [])
motion_payload (joint_velocity_stop f) =
    dict_of (
      ("type", str "JointVelocityStopMotion") ∷ ("relative_dynamics_factor", factor_payload f) ∷ [])
