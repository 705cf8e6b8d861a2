-- ===== src/Wire/Waypoints.antt =====
-- The encoders at a waypoint.
use zero_franky.Base.{String, ◌≡◌, refl, Option, none, some}
use zero_franky.Base.Int.{ℤ}
use zero_franky.Python.Errors.{Result, ok}
use zero_franky.Python.Values.{Value}
use zero_franky.Python.Attributes.{FloatOps}
use zero_franky.Protocol.Targets.{encode_position_waypoint, encode_velocity_waypoint}
use zero_franky.Types.Waypoints.{
  hold_or_zero, position_waypoint, velocity_waypoint, new_cartesian_waypoint, new_joint_waypoint,
  new_cartesian_velocity_waypoint, new_joint_velocity_waypoint,
}
use zero_franky.Wire.Data.{
  Joints, Pose, cartesian_state, JointTarget, Velocity, PositionWaypoint, VelocityWaypoint,
  reference_value, factor_value, pose_value, joint_value, velocity_value, joints, duration_value,
  position_waypoint_object, velocity_waypoint_object,
}
use zero_franky.Wire.Payload.{
  pose_matrix, duration_or, position_waypoint_payload, velocity_waypoint_payload,
}
use zero_franky.Wire.Encode.{
  encode_duration-duration_value, encode_reference_type-reference_value,
  as_cartesian_state-pose_value, as_joint_state-joint_value,
  encode_relative_dynamics_factor-factor_value, vector-joints,
}

pub hold_or_zero-duration_value :
    (d : Option ℤ) → hold_or_zero (duration_value d) ≡ duration_value (duration_or 0 d)
unfolding hold_or_zero duration_value duration_or
hold_or_zero-duration_value none = refl
hold_or_zero-duration_value (some n) = refl

-- The object of a waypoint whose target is `v`.
unfoldable pub position_value : {T : Type 0} → String → (T → Value) → PositionWaypoint T → Value
position_value cls value w =
    position_waypoint (value w.target) (reference_value w.reference) (factor_value w.dynamics)
      (duration_value w.times.minimum) (duration_value w.times.hold)
      (duration_value w.times.max_total) cls

unfoldable pub velocity_waypoint_value :
    {T : Type 0} → String → (T → Value) → VelocityWaypoint T → Value
velocity_waypoint_value cls value w =
    velocity_waypoint (value w.target) (factor_value w.dynamics) (duration_value w.times.minimum)
      (duration_value w.times.hold) (duration_value w.times.max_total) cls

abbrev pub state_value : Pose → Value
state_value p = pose_value (cartesian_state (pose_matrix p))

pub position_waypoint_object-pose :
    (w : PositionWaypoint Pose)
    → position_waypoint_object new_cartesian_waypoint pose_value w
      ≡ ok (position_value "CartesianWaypoint" state_value w)
unfolding position_waypoint_object new_cartesian_waypoint position_value
position_waypoint_object-pose w = rw (as_cartesian_state-pose_value w.target)

pub velocity_waypoint_object-velocity :
    (w : VelocityWaypoint Velocity)
    → velocity_waypoint_object new_cartesian_velocity_waypoint velocity_value w
      ≡ ok (velocity_waypoint_value "CartesianVelocityWaypoint" velocity_value w)
unfolding velocity_waypoint_object new_cartesian_velocity_waypoint velocity_waypoint_value
velocity_waypoint_object-velocity w = refl

module _ ⦃ops : FloatOps⦄ where
  pub position_waypoint_object-joint :
      (w : PositionWaypoint JointTarget)
      → position_waypoint_object new_joint_waypoint joint_value w
        ≡ ok (position_value "JointWaypoint" joint_value w)
  unfolding position_waypoint_object new_joint_waypoint position_value
  position_waypoint_object-joint w = rw (as_joint_state-joint_value w.target)

  pub velocity_waypoint_object-joints :
      (w : VelocityWaypoint Joints)
      → velocity_waypoint_object new_joint_velocity_waypoint joints w
        ≡ ok (velocity_waypoint_value "JointVelocityWaypoint" joints w)
  unfolding velocity_waypoint_object new_joint_velocity_waypoint velocity_waypoint_value
  velocity_waypoint_object-joints w = rw (vector-joints w.target "target")

  module _ {T : Type 0} (cls : String) (encode : Value → Result Value) (value payload : T → Value)
      (encoded : (t : T) → encode (value t) ≡ ok (payload t)) where
    -- A position waypoint is encoded to its payload, if its target is.
    pub encode_position_waypoint-position_value :
        (w : PositionWaypoint T)
        → encode_position_waypoint encode (position_value cls value w)
          ≡ ok (position_waypoint_payload payload w)
    unfolding encode_position_waypoint position_value position_waypoint position_waypoint_payload
    encode_position_waypoint-position_value w = simp (
      encoded, hold_or_zero-duration_value, encode_reference_type-reference_value,
      encode_relative_dynamics_factor-factor_value, encode_duration-duration_value,
    )

    pub encode_velocity_waypoint-velocity_waypoint_value :
        (w : VelocityWaypoint T)
        → encode_velocity_waypoint encode (velocity_waypoint_value cls value w)
          ≡ ok (velocity_waypoint_payload payload w)
    unfolding encode_velocity_waypoint velocity_waypoint_value velocity_waypoint
        velocity_waypoint_payload
    encode_velocity_waypoint-velocity_waypoint_value w = simp (
      encoded, hold_or_zero-duration_value, encode_relative_dynamics_factor-factor_value,
      encode_duration-duration_value,
    )
