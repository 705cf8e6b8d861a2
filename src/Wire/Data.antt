-- ===== src/Wire/Data.antt =====
-- The motions of zero_franky.types as typed data, and the objects that the constructors make of them.
use zero_franky.Base.{String, Bool, Option, none, some, [], ◌∷◌, List}
use zero_franky.Base.Int.{ℤ}
use zero_franky.Python.Errors.{Result, ok, ◌>>=◌}
use zero_franky.Python.Values.{
  Float, Value, null, bool, int, float, list, object, method, fields, items, Items, nil, cons,
}
use zero_franky.Python.Attributes.{FloatOps}
use zero_franky.Types.Geometry.{reference_type_of, affine_of, new_robot_pose, new_cartesian_state}
use zero_franky.Types.Waypoints.{
  new_cartesian_waypoint, new_joint_waypoint, new_cartesian_velocity_waypoint,
  new_joint_velocity_waypoint,
}
use zero_franky.Types.Motions.{
  new_cartesian_motion, new_cartesian_waypoint_motion, new_stop_motion, new_joint_motion,
  new_joint_waypoint_motion, new_cartesian_velocity_motion, new_cartesian_velocity_waypoint_motion,
  new_joint_velocity_motion, new_joint_velocity_waypoint_motion,
}

pub record Vec3 : Type 0 where
  pub x : Float
  pub y : Float
  pub z : Float

pub record Row : Type 0 where
  pub c0 : Float
  pub c1 : Float
  pub c2 : Float
  pub c3 : Float

pub record Matrix : Type 0 where
  pub r0 : Row
  pub r1 : Row
  pub r2 : Row
  pub r3 : Row

pub record Joints : Type 0 where
  pub j1 : Float
  pub j2 : Float
  pub j3 : Float
  pub j4 : Float
  pub j5 : Float
  pub j6 : Float
  pub j7 : Float

unfoldable pub vec3 : Vec3 → Value
vec3 v = list (items (float v.x ∷ float v.y ∷ float v.z ∷ []))

unfoldable pub row : Row → Value
row r = list (items (float r.c0 ∷ float r.c1 ∷ float r.c2 ∷ float r.c3 ∷ []))

unfoldable pub matrix : Matrix → Value
unfolding row
matrix m = list (items (row m.r0 ∷ row m.r1 ∷ row m.r2 ∷ row m.r3 ∷ []))

unfoldable pub joints : Joints → Value
joints q = list (
    items (
      float q.j1
      ∷ float q.j2
      ∷ float q.j3
      ∷ float q.j4
      ∷ float q.j5
      ∷ float q.j6
      ∷ float q.j7
      ∷ []))

-- A relative dynamics factor: a plain float, or an object with three.
pub data Factor : Type 0 where
  scalar : Float → Factor
  factor : Float → Float → Float → Factor

pub data Reference : Type 0 where
  relative absolute : Reference

-- The three forms of a Cartesian target.
pub data Pose : Type 0 where
  affine robot_pose cartesian_state : Matrix → Pose

pub record JointTarget : Type 0 where
  pub position : Joints
  pub velocity : Joints

pub data Velocity : Type 0 where
  robot_velocity : Vec3 → Vec3 → Option Float → Velocity
  twist : Vec3 → Vec3 → Velocity

-- The three durations of a waypoint, in milliseconds.
pub record Times : Type 0 where
  pub minimum : Option ℤ
  pub hold : Option ℤ
  pub max_total : Option ℤ

pub record PositionWaypoint (T : Type 0) : Type 0 where
  pub target : T
  pub reference : Reference
  pub dynamics : Factor
  pub times : Times

pub record VelocityWaypoint (T : Type 0) : Type 0 where
  pub target : T
  pub dynamics : Factor
  pub times : Times

pub data Motion : Type 0 where
  cartesian : Pose → Reference → Factor → Bool → Option Matrix → Motion
  cartesian_waypoints : List (PositionWaypoint Pose) → Option Matrix → Factor → Bool → Motion
  cartesian_stop : Factor → Motion
  joint : JointTarget → Reference → Factor → Bool → Motion
  joint_waypoints : List (PositionWaypoint JointTarget) → Factor → Bool → Motion
  joint_stop : Factor → Motion
  cartesian_velocity : Velocity → Option ℤ → Factor → Option Matrix → Motion
  cartesian_velocity_waypoints : List (VelocityWaypoint Velocity) → Option Matrix → Factor → Motion
  cartesian_velocity_stop : Factor → Motion
  joint_velocity : Joints → Option ℤ → Factor → Motion
  joint_velocity_waypoints : List (VelocityWaypoint Joints) → Factor → Motion
  joint_velocity_stop : Factor → Motion

-- The objects.
unfoldable pub factor_value : Factor → Value
factor_value (scalar x) = float x
factor_value (factor v a j) =
    object "RelativeDynamicsFactor"
      (fields (("velocity", float v) ∷ ("acceleration", float a) ∷ ("jerk", float j) ∷ []))

unfoldable pub reference_name : Reference → String
reference_name relative = "Relative"
reference_name absolute = "Absolute"

unfoldable pub reference_value : Reference → Value
unfolding reference_type_of
reference_value r = reference_type_of (reference_name r)

unfoldable pub affine_value : Matrix → Value
unfolding affine_of
affine_value m = affine_of (matrix m)

unfoldable pub pose_value : Pose → Value
unfolding new_robot_pose new_cartesian_state
pose_value (affine m) = affine_value m
pose_value (robot_pose m) = new_robot_pose (affine_value m)
pose_value (cartesian_state m) = new_cartesian_state (new_robot_pose (affine_value m))

unfoldable pub joint_value : JointTarget → Value
joint_value t =
    object "JointState"
      (fields (("position", joints t.position) ∷ ("velocity", joints t.velocity) ∷ []))

unfoldable pub float_or_none : Option Float → Value
float_or_none none = null
float_or_none (some x) = float x

unfoldable pub twist_value : Vec3 → Vec3 → Value
twist_value l a = object "Twist" (fields (("linear", vec3 l) ∷ ("angular", vec3 a) ∷ []))

unfoldable pub velocity_value : Velocity → Value
unfolding twist_value
velocity_value (twist l a) = twist_value l a
velocity_value (robot_velocity l a elbow) = object "RobotVelocity" (
    fields (("end_effector_twist", twist_value l a) ∷ ("elbow_velocity", float_or_none elbow) ∷ []))

unfoldable pub duration_value : Option ℤ → Value
duration_value none = null
duration_value (some n) =
    object "Duration" (fields (("_milliseconds", int n) ∷ ("to_msec", method (int n)) ∷ []))

unfoldable pub frame_value : Option Matrix → Value
frame_value none = null
frame_value (some m) = affine_value m

-- The results of a list of constructor calls, in order.
unfoldable pub construct_all {ℓ} : {A : Type ℓ} → (A → Result Value) → List A → Result Items
construct_all f [] = ok nil
construct_all f (x ∷ xs) = do v ← f x; vs ← construct_all f xs; ok (cons v vs)

module _ {T : Type 0} (new : Value → Value → Value → Value → Value → Value → Result Value)
    (value : T → Value) where
  unfoldable pub position_waypoint_object : PositionWaypoint T → Result Value
  position_waypoint_object w =
      new (value w.target) (reference_value w.reference) (factor_value w.dynamics)
        (duration_value w.times.minimum) (duration_value w.times.hold)
        (duration_value w.times.max_total)

module _ {T : Type 0} (new : Value → Value → Value → Value → Value → Result Value)
    (value : T → Value) where
  unfoldable pub velocity_waypoint_object : VelocityWaypoint T → Result Value
  velocity_waypoint_object w =
      new (value w.target) (factor_value w.dynamics) (duration_value w.times.minimum)
        (duration_value w.times.hold) (duration_value w.times.max_total)

module _ ⦃ops : FloatOps⦄ where
  -- The client's call of the constructor.
  unfoldable pub motion_object : Motion → Result Value
  motion_object (cartesian target r f finished frame) =
      new_cartesian_motion (pose_value target) (reference_value r) (factor_value f) (bool finished)
        (frame_value frame)
  motion_object (cartesian_waypoints ws frame f finished) = do
    vs ← construct_all (position_waypoint_object new_cartesian_waypoint pose_value) ws
    new_cartesian_waypoint_motion (list vs) (frame_value frame) (factor_value f) (bool finished)
  motion_object (cartesian_stop f) = ok (new_stop_motion "CartesianStopMotion" (factor_value f))
  motion_object (joint target r f finished) =
      new_joint_motion (joint_value target) (reference_value r) (factor_value f) (bool finished)
  motion_object (joint_waypoints ws f finished) = do
    vs ← construct_all (position_waypoint_object new_joint_waypoint joint_value) ws
    new_joint_waypoint_motion (list vs) (factor_value f) (bool finished)
  motion_object (joint_stop f) = ok (new_stop_motion "JointStopMotion" (factor_value f))
  motion_object (cartesian_velocity target duration f frame) =
      new_cartesian_velocity_motion (velocity_value target) (duration_value duration)
        (factor_value f) (frame_value frame)
  motion_object (cartesian_velocity_waypoints ws frame f) = do
    vs ← construct_all (velocity_waypoint_object new_cartesian_velocity_waypoint velocity_value) ws
    new_cartesian_velocity_waypoint_motion (list vs) (frame_value frame) (factor_value f)
  motion_object (cartesian_velocity_stop f) =
      ok (new_stop_motion "CartesianVelocityStopMotion" (factor_value f))
  motion_object (joint_velocity target duration f) =
      new_joint_velocity_motion (joints target) (duration_value duration) (factor_value f)
  motion_object (joint_velocity_waypoints ws f) = do
    vs ← construct_all (velocity_waypoint_object new_joint_velocity_waypoint joints) ws
    new_joint_velocity_waypoint_motion (list vs) (factor_value f)
  motion_object (joint_velocity_stop f) =
      ok (new_stop_motion "JointVelocityStopMotion" (factor_value f))
