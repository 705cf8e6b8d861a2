-- ===== src/Types/Module.antt =====
-- The classes of zero_franky.types, called by name as the builders call franky's.
use zero_franky.Base.{
  String, true, Option, none, some, ◌==◌, ◌||◌, ◌<>◌, [], ◌∷◌, List, if◌then◌else◌,
}
use zero_franky.Python.Errors.{Result, ok, error, type_error}
use zero_franky.Python.Values.{Value, null}
use zero_franky.Python.Attributes.{FloatOps}
use zero_franky.Types.Geometry.{
  new_relative_dynamics_factor, new_twist, new_twist_acceleration, new_robot_velocity,
  new_joint_state, new_duration, reference_type_member, new_robot_pose, new_cartesian_state,
}
use zero_franky.Types.Affine.{new_affine}
use zero_franky.Types.Gains.{
  translational_default, rotational_default, new_posture_task, new_manipulability_task, assign,
  nullspace_gains_of, new_cartesian_impedance_gains, isotropic, new_joint_impedance_gains,
  new_friction_compensation_params, new_joint_reference, new_cartesian_reference,
}
use zero_franky.Types.Waypoints.{
  new_cartesian_waypoint, new_joint_waypoint, new_cartesian_velocity_waypoint,
  new_joint_velocity_waypoint,
}
use zero_franky.Types.Motions.{
  new_cartesian_motion, new_cartesian_waypoint_motion, new_stop_motion, new_joint_motion,
  new_joint_waypoint_motion, new_cartesian_velocity_motion, new_cartesian_velocity_waypoint_motion,
  new_joint_velocity_motion, new_joint_velocity_waypoint_motion,
}
use zero_franky.Builders.Franky.{Franky}

-- A class applied to positional arguments, those left out at their defaults; `none` where the number
-- of arguments is not one that the builders use.
abbrev Call : Type 0
Call = List Value → Option (Result Value)

abbrev call0 : Result Value → Call
call0 r [] = some r
call0 r _ = none

abbrev call1 : (Value → Result Value) → Call
call1 f (a ∷ []) = some (f a)
call1 f _ = none

abbrev call2 : (Value → Value → Result Value) → Call
call2 f (a ∷ b ∷ []) = some (f a b)
call2 f _ = none

abbrev call3 : (Value → Value → Value → Result Value) → Call
call3 f (a ∷ b ∷ c ∷ []) = some (f a b c)
call3 f _ = none

abbrev call4 : (Value → Value → Value → Value → Result Value) → Call
call4 f (a ∷ b ∷ c ∷ d ∷ []) = some (f a b c d)
call4 f _ = none

abbrev call5 : (Value → Value → Value → Value → Value → Result Value) → Call
call5 f (a ∷ b ∷ c ∷ d ∷ e ∷ []) = some (f a b c d e)
call5 f _ = none

abbrev call6 : (Value → Value → Value → Value → Value → Value → Result Value) → Call
call6 f (a ∷ b ∷ c ∷ d ∷ e ∷ g ∷ []) = some (f a b c d e g)
call6 f _ = none

abbrev answer : String → Option (Result Value) → Result Value
answer cls (some r) = r
answer cls none = error type_error (cls <> "() was given a wrong number of arguments")

module _ ⦃ops : FloatOps⦄ where
  abbrev factor_call : Call
  factor_call (v ∷ []) = some (new_relative_dynamics_factor v null null)
  factor_call args = call3 new_relative_dynamics_factor args

  unfoldable pub types_parts : String → Call
  types_parts cls =
      if cls == "Affine"
      then call1 (λ m. new_affine m null null null)
      else if cls == "Duration"
      then call1 new_duration
      else if cls == "RelativeDynamicsFactor"
      then factor_call
      else if cls == "Twist"
      then call2 new_twist
      else if cls == "TwistAcceleration"
      then call2 new_twist_acceleration
      else if cls == "RobotVelocity"
      then call2 new_robot_velocity
      else if cls == "JointState"
      then call1 (λ p. new_joint_state p null)
      else if cls == "RobotPose"
      then call1 (λ p. ok (new_robot_pose p))
      else if cls == "CartesianState"
      then call1 (λ p. ok (new_cartesian_state p))
      else λ args. none

  unfoldable pub types_gains : String → Call
  unfolding types_parts nullspace_gains_of
  types_gains cls =
      if cls == "PostureTask"
      then call4 new_posture_task
      else if cls == "ManipulabilityTask"
      then call3 new_manipulability_task
      else if cls == "FrictionCompensationParams"
      then call4 new_friction_compensation_params
      else if cls == "NullspaceGains"
      then call0 (ok nullspace_gains_of)
      else if cls == "CartesianImpedanceGains"
      then call0 (new_cartesian_impedance_gains translational_default rotational_default)
      else if cls == "CartesianImpedanceGains.isotropic"
      then call4 isotropic
      else if cls == "JointImpedanceGains"
      then call2 new_joint_impedance_gains
      else if cls == "JointReference"
      then call3 new_joint_reference
      else if cls == "CartesianReference"
      then call3 new_cartesian_reference
      else types_parts cls

  unfoldable pub types_motions : String → Call
  unfolding types_gains new_stop_motion
  types_motions cls =
      if cls == "CartesianWaypoint"
      then call6 new_cartesian_waypoint
      else if cls == "JointWaypoint"
      then call6 new_joint_waypoint
      else if cls == "CartesianVelocityWaypoint"
      then call5 new_cartesian_velocity_waypoint
      else if cls == "JointVelocityWaypoint"
      then call5 new_joint_velocity_waypoint
      else if cls == "CartesianMotion"
      then call5 new_cartesian_motion
      else if cls == "CartesianWaypointMotion"
      then call4 new_cartesian_waypoint_motion
      else if cls == "JointMotion"
      then call4 new_joint_motion
      else if cls == "JointWaypointMotion"
      then call3 new_joint_waypoint_motion
      else if cls == "CartesianVelocityMotion"
      then call4 new_cartesian_velocity_motion
      else if cls == "CartesianVelocityWaypointMotion"
      then call3 new_cartesian_velocity_waypoint_motion
      else if cls == "JointVelocityMotion"
      then call3 new_joint_velocity_motion
      else if cls == "JointVelocityWaypointMotion"
      then call2 new_joint_velocity_waypoint_motion
      else if cls == "CartesianStopMotion"
          || cls == "JointStopMotion"
          || cls == "CartesianVelocityStopMotion"
          || cls == "JointVelocityStopMotion"
      then call1 (λ factor. ok (new_stop_motion cls factor))
      else types_gains cls

  unfoldable pub types_construct : String → List Value → List (String × Value) → Result Value
  unfolding types_motions
  types_construct cls args [] = answer cls (types_motions cls args)
  types_construct cls args kwargs =
      error type_error (cls <> "() got an unexpected keyword argument")

  unfoldable pub types_module : Franky
  unfolding types_construct reference_type_member assign
  types_module = record {
    construct = types_construct;
    reference_type = reference_type_member;
    assign = assign;
    has_isotropic = true;
  }
