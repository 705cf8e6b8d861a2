-- ===== src/Wire/Received.antt =====
-- What the server receives of a motion, and the builders at its parts. The builders are given the
-- classes of zero_franky.types, which take what franky's take.
use zero_franky.Base.{◌≡◌, refl, Option, none, some, ◌&&◌, [], ◌∷◌, List, map, arith, if◌then◌else◌}
use zero_franky.Base.Int.{ℤ}
use zero_franky.Python.Errors.{Result, ok}
use zero_franky.Python.Values.{Value, str, items}
use zero_franky.Python.Attributes.{FloatOps, count, equals, to_float, map_float, is_none, iterate}
use zero_franky.Protocol.Motions.{map_items}
use zero_franky.Types.Vectors.{zero_float, vector, vector_or_zeros, looks_like_matrix4}
use zero_franky.Types.Geometry.{
  matrix_rows, affine_of_matrix, new_relative_dynamics_factor, new_twist, new_robot_velocity,
  new_joint_state, new_duration, reference_type_member,
}
use zero_franky.Types.Affine.{new_affine, affine_by_form}
use zero_franky.Types.Module.{types_module}
use zero_franky.Builders.Parts.{
  franky_duration, franky_affine, franky_twist, franky_cartesian_target, franky_robot_velocity,
  franky_joint_target, franky_relative_dynamics_factor,
}
use zero_franky.Builders.Motions.{franky_ee_frame}
use zero_franky.Wire.Data.{
  Matrix, Joints, Vec3, vec3, matrix, joints, Factor, scalar, factor, Reference, relative, absolute,
  reference_name, reference_value, Pose, JointTarget, Velocity, robot_velocity, twist, factor_value,
  affine_value, pose_value, joint_value, twist_value, float_or_none, velocity_value, duration_value,
  frame_value, construct_all, PositionWaypoint, VelocityWaypoint, Motion, cartesian,
  cartesian_waypoints, cartesian_stop, joint, joint_waypoints, joint_stop, cartesian_velocity,
  cartesian_velocity_waypoints, cartesian_velocity_stop, joint_velocity, joint_velocity_waypoints,
  joint_velocity_stop,
}
use zero_franky.Wire.Payload.{
  affine_payload, factor_payload, pose_matrix, pose_payload, joint_payload, twist_payload,
  velocity_payload, duration_payload, frame_payload,
}
use zero_franky.Wire.Waypoints.{state_value}

abbrev pub zero_joints : Joints
zero_joints = record {
  j1 = zero_float;
  j2 = zero_float;
  j3 = zero_float;
  j4 = zero_float;
  j5 = zero_float;
  j6 = zero_float;
  j7 = zero_float;
}

-- Only the position of a joint target is on the wire.
unfoldable pub at_rest : JointTarget → JointTarget
at_rest t = record t { velocity = zero_joints }

unfoldable pub received_position :
    {T : Type 0} → (Factor → Factor) → (T → T) → PositionWaypoint T → PositionWaypoint T
received_position f g w = record w { target = g w.target; dynamics = f w.dynamics }

unfoldable pub received_velocity :
    {T : Type 0} → (Factor → Factor) → VelocityWaypoint T → VelocityWaypoint T
received_velocity f w = record w { dynamics = f w.dynamics }

abbrev pub same : Pose → Pose
same p = p

module _ ⦃ops : FloatOps⦄ where
  -- Three components; where they compare equal, three times the first.
  unfoldable pub received_factor : Factor → Factor
  received_factor (scalar x) = factor x x x
  received_factor (factor v a j) = if ops.eq v a && ops.eq a j then factor v v v else factor v a j

  unfoldable pub received : Motion → Motion
  received (cartesian t r f b fr) = cartesian t r (received_factor f) b fr
  received (cartesian_waypoints ws fr f b) =
      cartesian_waypoints (map (received_position received_factor same) ws) fr (received_factor f) b
  received (cartesian_stop f) = cartesian_stop (received_factor f)
  received (joint t r f b) = joint (at_rest t) r (received_factor f) b
  received (joint_waypoints ws f b) =
      joint_waypoints (map (received_position received_factor at_rest) ws) (received_factor f) b
  received (joint_stop f) = joint_stop (received_factor f)
  received (cartesian_velocity t d f fr) = cartesian_velocity t d (received_factor f) fr
  received (cartesian_velocity_waypoints ws fr f) =
      cartesian_velocity_waypoints (map (received_velocity received_factor) ws) fr
        (received_factor f)
  received (cartesian_velocity_stop f) = cartesian_velocity_stop (received_factor f)
  received (joint_velocity t d f) = joint_velocity t d (received_factor f)
  received (joint_velocity_waypoints ws f) =
      joint_velocity_waypoints (map (received_velocity received_factor) ws) (received_factor f)
  received (joint_velocity_stop f) = joint_velocity_stop (received_factor f)

  pub franky_duration-duration_payload :
      (d : Option ℤ) → franky_duration types_module (duration_payload d) ≡ ok (duration_value d)
  unfolding franky_duration duration_payload duration_value types_module new_duration
  franky_duration-duration_payload none = refl
  franky_duration-duration_payload (some n) = refl

  pub reference_type_member-reference_name :
      (r : Reference) → reference_type_member (str (reference_name r)) ≡ ok (reference_value r)
  unfolding reference_type_member reference_name reference_value
  reference_type_member-reference_name relative = refl
  reference_type_member-reference_name absolute = refl

  pub franky_affine-affine_payload :
      (m : Matrix) → franky_affine types_module (affine_payload m) ≡ ok (affine_value m)
  unfolding franky_affine affine_payload affine_value types_module new_affine looks_like_matrix4
      affine_by_form affine_of_matrix matrix_rows vector matrix map_float iterate to_float count
      is_none
  franky_affine-affine_payload m = refl

  pub franky_relative_dynamics_factor-factor_payload :
      (f : Factor)
      → franky_relative_dynamics_factor types_module (factor_payload f)
        ≡ ok (factor_value (received_factor f))
  unfolding franky_relative_dynamics_factor factor_payload factor_value received_factor types_module
      new_relative_dynamics_factor to_float is_none equals
  franky_relative_dynamics_factor-factor_payload (scalar x) = ground arith
  franky_relative_dynamics_factor-factor_payload (factor v a j) = ground arith

  pub franky_cartesian_target-pose_payload :
      (p : Pose) → franky_cartesian_target types_module (pose_payload p) ≡ ok (state_value p)
  unfolding franky_cartesian_target pose_payload pose_value types_module
  franky_cartesian_target-pose_payload p = rw (franky_affine-affine_payload (pose_matrix p))

  pub franky_joint_target-joint_payload :
      (t : JointTarget)
      → franky_joint_target types_module (joint_payload t) ≡ ok (joint_value (at_rest t))
  unfolding franky_joint_target joint_payload joint_value at_rest joints types_module
      new_joint_state vector vector_or_zeros map_float iterate to_float count
  franky_joint_target-joint_payload t = refl

  pub franky_twist-twist_payload :
      (l a : Vec3) → franky_twist types_module (twist_payload l a) ≡ ok (twist_value l a)
  unfolding franky_twist twist_payload twist_value vec3 types_module new_twist vector
      vector_or_zeros map_float iterate to_float count
  franky_twist-twist_payload l a = refl

  pub franky_robot_velocity-velocity_payload :
      (v : Velocity)
      → franky_robot_velocity types_module (velocity_payload v) ≡ ok (velocity_value v)
  unfolding franky_robot_velocity velocity_payload velocity_value float_or_none types_module
      new_robot_velocity is_none to_float
  franky_robot_velocity-velocity_payload (robot_velocity l a none) =
      rw (franky_twist-twist_payload l a)
  franky_robot_velocity-velocity_payload (robot_velocity l a (some x)) =
      rw (franky_twist-twist_payload l a)
  franky_robot_velocity-velocity_payload (twist l a) = rw (franky_twist-twist_payload l a)

  pub franky_ee_frame-frame_payload :
      (frame : Option Matrix)
      → franky_ee_frame types_module (frame_payload frame) ≡ ok (frame_value frame)
  unfolding franky_ee_frame frame_payload frame_value affine_payload
  franky_ee_frame-frame_payload none = refl
  franky_ee_frame-frame_payload (some m) = unfold affine_payload in franky_affine-affine_payload m

module _ {A : Type 0} (build : Value → Result Value) (payload : A → Value)
    (object_of : A → Result Value) (recv : A → A)
    (built : (a : A) → build (payload a) ≡ object_of (recv a)) where
  -- A list is built as its constructor calls would make it.
  pub map_items-construct_all :
      (xs : List A)
      → map_items build (items (map payload xs)) ≡ construct_all object_of (map recv xs)
  unfolding map_items construct_all
  map_items-construct_all [] = refl
  map_items-construct_all (x ∷ xs) = rw (built x, map_items-construct_all xs)
