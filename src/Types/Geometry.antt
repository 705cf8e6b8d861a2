-- ===== src/Types/Geometry.antt =====
-- Affine, Duration, ReferenceType, RelativeDynamicsFactor, the twists, poses and states (types.py).
use zero_franky.Base.{String, ◌==◌, not, ◌||◌, [], ◌∷◌, if◌then◌else◌}
use zero_franky.Python.Errors.{Result, ok, error, type_error, attribute_error, ◌>>=◌}
use zero_franky.Python.Values.{Value, null, str, list, object, method, Items, nil, cons, fields}
use zero_franky.Python.Attributes.{
  FloatOps, attr_or, has_attr, is_none, iterate, to_float, to_int, type_name,
}
use zero_franky.Types.Vectors.{vector, vector_or_zeros}

unfoldable pub affine_of : Value → Value
affine_of matrix = object "Affine" (fields (("matrix", matrix) ∷ []))

module _ ⦃ops : FloatOps⦄ where
  unfoldable pub matrix_rows : Items → Result Items
  matrix_rows nil = ok nil
  matrix_rows (cons row rows) = do
    r ← vector row 4 "matrix row"
    rest ← matrix_rows rows
    ok (cons r rest)

  -- The constructor's `transformation_matrix` branch: each row is checked, their number is not.
  unfoldable pub affine_of_matrix : Value → Result Value
  unfolding iterate affine_of
  affine_of_matrix transformation_matrix = do
    vs ← iterate transformation_matrix
    rows ← matrix_rows vs
    ok (affine_of (list rows))

  -- `RelativeDynamicsFactor(velocity, acceleration, jerk)`
  unfoldable pub new_relative_dynamics_factor : Value → Value → Value → Result Value
  unfolding is_none
  new_relative_dynamics_factor velocity acceleration jerk = do
    v ← to_float velocity
    a ← (if is_none acceleration then ok v else to_float acceleration)
    j ← (if is_none jerk then ok v else to_float jerk)
    ok (
        object "RelativeDynamicsFactor"
          (fields (("velocity", v) ∷ ("acceleration", a) ∷ ("jerk", j) ∷ [])))

  -- `Twist(linear_velocity, angular_velocity)`
  unfoldable pub new_twist : Value → Value → Result Value
  new_twist linear_velocity angular_velocity = do
    linear ← vector_or_zeros linear_velocity 3 "linear_velocity"
    angular ← vector_or_zeros angular_velocity 3 "angular_velocity"
    ok (object "Twist" (fields (("linear", linear) ∷ ("angular", angular) ∷ [])))

  unfoldable pub new_twist_acceleration : Value → Value → Result Value
  new_twist_acceleration linear_acceleration angular_acceleration = do
    linear ← vector_or_zeros linear_acceleration 3 "linear_acceleration"
    angular ← vector_or_zeros angular_acceleration 3 "angular_acceleration"
    ok (object "TwistAcceleration" (fields (("linear", linear) ∷ ("angular", angular) ∷ [])))

  unfoldable pub new_robot_velocity : Value → Value → Result Value
  unfolding is_none
  new_robot_velocity end_effector_twist elbow_velocity = do
    elbow ← (if is_none elbow_velocity then ok null else to_float elbow_velocity)
    ok (
        object "RobotVelocity"
          (fields (("end_effector_twist", end_effector_twist) ∷ ("elbow_velocity", elbow) ∷ [])))

  unfoldable pub new_joint_state : Value → Value → Result Value
  new_joint_state position velocity = do
    p ← vector position 7 "position"
    v ← vector_or_zeros velocity 7 "velocity"
    ok (object "JointState" (fields (("position", p) ∷ ("velocity", v) ∷ [])))

  unfoldable pub as_joint_state : Value → Result Value
  unfolding type_name attr_or
  as_joint_state target =
      if type_name target == "JointState"
      then ok target
      else new_joint_state (attr_or target "position" target) null

-- `Duration(milliseconds)`
unfoldable pub new_duration : Value → Result Value
unfolding to_int
new_duration milliseconds = do
  n ← to_int milliseconds
  ok (object "Duration" (fields (("_milliseconds", n) ∷ ("to_msec", method n) ∷ [])))

-- A member of the enum, and `getattr(ReferenceType, name)`
unfoldable pub reference_type_of : String → Value
reference_type_of name =
    object "ReferenceType" (fields (("name", str name) ∷ ("value", str name) ∷ []))

unfoldable pub reference_type_member : Value → Result Value
unfolding reference_type_of
reference_type_member (str name) =
    if name == "Relative" || name == "Absolute"
    then ok (reference_type_of name)
    else error attribute_error name
reference_type_member _ = error type_error "attribute name must be string"

unfoldable pub new_robot_pose : Value → Value
new_robot_pose pose = object "RobotPose" (fields (("end_effector_pose", pose) ∷ []))

unfoldable pub new_cartesian_state : Value → Value
new_cartesian_state pose = object "CartesianState" (fields (("pose", pose) ∷ []))

-- `_as_cartesian_state`
unfoldable pub as_cartesian_state : Value → Result Value
unfolding type_name attr_or is_none has_attr new_cartesian_state new_robot_pose
as_cartesian_state target =
    if type_name target == "CartesianState"
    then ok target
    else if type_name target == "RobotPose"
    then ok (new_cartesian_state target)
    else if type_name target == "Affine"
    then ok (new_cartesian_state (new_robot_pose target))
    else if not (is_none (attr_or target "matrix" null))
    then ok (new_cartesian_state (new_robot_pose target))
    else if has_attr target "pose"
    then ok target
    else if has_attr target "end_effector_pose"
    then ok (new_cartesian_state target)
    else error type_error "Cannot use as a Cartesian target"
