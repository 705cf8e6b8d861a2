-- ===== src/Wire/Encode.antt =====
-- The encoders at the parts of a motion.
use zero_franky.Base.{String, ◌≡◌, refl, Option, none, some, [], ◌∷◌, List, map}
use zero_franky.Base.Int.{ℤ}
use zero_franky.Python.Errors.{Result, ok}
use zero_franky.Python.Values.{Value, items}
use zero_franky.Python.Attributes.{
  FloatOps, count, to_float, map_float, float_list, float_rows, map_row, iterate, attr, is_none,
  type_name, call0, to_int,
}
use zero_franky.Protocol.Scalars.{
  encode_affine, encode_reference_type, encode_relative_dynamics_factor, encode_duration,
}
use zero_franky.Protocol.Targets.{
  encode_twist, encode_cartesian_target, encode_robot_velocity, encode_joint_target,
}
use zero_franky.Protocol.Motions.{map_items, optional_affine}
use zero_franky.Types.Vectors.{vector}
use zero_franky.Types.Geometry.{as_cartesian_state, as_joint_state}
use zero_franky.Wire.Data.{
  Matrix, Joints, Vec3, vec3, matrix, joints, Factor, scalar, factor, Reference, relative, absolute,
  reference_name, reference_value, Pose, affine, robot_pose, cartesian_state, JointTarget, Velocity,
  robot_velocity, twist, factor_value, affine_value, pose_value, joint_value, twist_value,
  velocity_value, duration_value, frame_value, construct_all,
}
use zero_franky.Wire.Payload.{
  affine_payload, factor_payload, pose_matrix, pose_payload, joint_payload, twist_payload,
  velocity_payload, duration_payload, frame_payload,
}

pub encode_duration-duration_value :
    (d : Option ℤ) → encode_duration (duration_value d) ≡ ok (duration_payload d)
unfolding encode_duration duration_value duration_payload attr call0 to_int is_none
encode_duration-duration_value none = refl
encode_duration-duration_value (some n) = refl

pub encode_reference_type-reference_value :
    (r : Reference) → encode_reference_type (reference_value r) ≡ ok (Value.str (reference_name r))
unfolding encode_reference_type reference_value reference_name
encode_reference_type-reference_value relative = refl
encode_reference_type-reference_value absolute = refl

-- Whatever its form, a target becomes a `CartesianState`.
pub as_cartesian_state-pose_value :
    (p : Pose)
    → as_cartesian_state (pose_value p) ≡ ok (pose_value (cartesian_state (pose_matrix p)))
unfolding as_cartesian_state pose_value affine_value pose_matrix type_name
as_cartesian_state-pose_value (affine m) = refl
as_cartesian_state-pose_value (robot_pose m) = refl
as_cartesian_state-pose_value (cartesian_state m) = refl

pub as_joint_state-joint_value :
    ⦃ops : FloatOps⦄ (t : JointTarget) → as_joint_state (joint_value t) ≡ ok (joint_value t)
unfolding as_joint_state joint_value type_name
as_joint_state-joint_value t = refl

module _ ⦃ops : FloatOps⦄ where
  pub float_list-vec3 : (v : Vec3) → float_list (vec3 v) ≡ ok (vec3 v)
  unfolding float_list vec3 map_float iterate to_float
  float_list-vec3 v = refl

  pub float_list-joints : (q : Joints) → float_list (joints q) ≡ ok (joints q)
  unfolding float_list joints map_float iterate to_float
  float_list-joints q = refl

  pub vector-joints : (q : Joints) (name : String) → vector (joints q) 7 name ≡ ok (joints q)
  unfolding vector joints map_float iterate to_float count
  vector-joints q name = refl

  pub float_rows-matrix : (m : Matrix) → float_rows (matrix m) ≡ ok (matrix m)
  unfolding float_rows matrix map_row float_list map_float iterate to_float
  float_rows-matrix m = refl

  pub encode_affine-affine_value :
      (m : Matrix) → encode_affine (affine_value m) ≡ ok (affine_payload m)
  unfolding encode_affine affine_value affine_payload float_rows matrix map_row float_list map_float
      iterate to_float
  encode_affine-affine_value m = refl

  pub optional_affine-frame_value :
      (frame : Option Matrix) → optional_affine (frame_value frame) ≡ ok (frame_payload frame)
  unfolding optional_affine frame_value frame_payload affine_value
  optional_affine-frame_value none = refl
  optional_affine-frame_value (some m) = encode_affine-affine_value m

  pub encode_relative_dynamics_factor-factor_value :
      (f : Factor) → encode_relative_dynamics_factor (factor_value f) ≡ ok (factor_payload f)
  unfolding encode_relative_dynamics_factor factor_value factor_payload to_float
  encode_relative_dynamics_factor-factor_value (scalar x) = refl
  encode_relative_dynamics_factor-factor_value (factor v a j) = refl

  pub encode_cartesian_target-cartesian_state :
      (p : Pose)
      → encode_cartesian_target (pose_value (cartesian_state (pose_matrix p))) ≡ ok (pose_payload p)
  unfolding encode_cartesian_target pose_value pose_payload
  encode_cartesian_target-cartesian_state p = rw (encode_affine-affine_value (pose_matrix p))

  pub encode_joint_target-joint_value :
      (t : JointTarget) → encode_joint_target (joint_value t) ≡ ok (joint_payload t)
  unfolding encode_joint_target joint_value joint_payload
  encode_joint_target-joint_value t = rw (float_list-joints t.position)

  pub encode_twist-twist_value :
      (l a : Vec3) → encode_twist (twist_value l a) ≡ ok (twist_payload l a)
  unfolding encode_twist twist_value twist_payload
  encode_twist-twist_value l a = rw (float_list-vec3 l, float_list-vec3 a)

  pub encode_robot_velocity-velocity_value :
      (v : Velocity) → encode_robot_velocity (velocity_value v) ≡ ok (velocity_payload v)
  unfolding encode_robot_velocity velocity_value velocity_payload
  encode_robot_velocity-velocity_value (robot_velocity l a elbow) =
      rw (encode_twist-twist_value l a)
  encode_robot_velocity-velocity_value (twist l a) = rw (encode_twist-twist_value l a)

module _ {ℓ} {A : Type ℓ} (new : A → Result Value) (value : A → Value)
    (made : (a : A) → new a ≡ ok (value a)) where
  pub construct_all-ok : (xs : List A) → construct_all new xs ≡ ok (items (map value xs))
  unfolding construct_all
  construct_all-ok [] = refl
  construct_all-ok (x ∷ xs) = rw (made x, construct_all-ok xs)

module _ {ℓ} {A : Type ℓ} (f : Value → Result Value) (value result : A → Value)
    (done : (a : A) → f (value a) ≡ ok (result a)) where
  pub map_items-ok : (xs : List A) → map_items f (items (map value xs)) ≡ ok (items (map result xs))
  unfolding map_items
  map_items-ok [] = refl
  map_items-ok (x ∷ xs) = rw (done x, map_items-ok xs)
