-- ===== src/Builders/Motions.antt =====
-- The builders of the position and velocity motions (zmq_server_franky.py).
use zero_franky.Base.{String, [], ◌∷◌, if◌then◌else◌}
use zero_franky.Python.Errors.{Result, ok, ◌>>=◌}
use zero_franky.Python.Values.{Value, null, list}
use zero_franky.Python.Attributes.{FloatOps, at_key, get, is_none, iterate}
use zero_franky.Protocol.Motions.{map_items}
use zero_franky.Builders.Franky.{Franky}
use zero_franky.Builders.Parts.{
  franky_affine, franky_cartesian_target, franky_robot_velocity, franky_joint_target,
  franky_position_waypoint, franky_velocity_waypoint, dynamics_at, duration_at, reference_type_at,
}

module _ (franky : Franky) where
  open franky use {construct, reference_type}

  -- `_franky_affine(franky, ee_frame) if ee_frame is not None else None`
  unfoldable pub franky_ee_frame : Value → Result Value
  unfolding is_none
  franky_ee_frame ee_frame = if is_none ee_frame then ok null else franky_affine franky ee_frame

  -- `[f(franky, waypoint) for waypoint in payload["waypoints"]]`
  unfoldable pub waypoints_at : (Value → Result Value) → Value → Result Value
  unfolding at_key iterate
  waypoints_at f payload = do
    waypoints ← at_key payload "waypoints"
    vs ← iterate waypoints
    xs ← map_items f vs
    ok (list xs)

  module _ ⦃ops : FloatOps⦄ where
    unfoldable pub build_cartesian_motion : Value → Result Value
    unfolding get at_key reference_type_at dynamics_at
    build_cartesian_motion payload = do
      ee_frame ← get payload "ee_frame" null
      v ← at_key payload "target"
      target ← franky_cartesian_target franky v
      reference ← reference_type_at franky payload
      factor ← dynamics_at franky payload
      return_when_finished ← at_key payload "return_when_finished"
      frame ← franky_ee_frame ee_frame
      construct "CartesianMotion" (target ∷ reference ∷ factor ∷ return_when_finished ∷ frame ∷ [])
          []

    unfoldable pub build_cartesian_waypoint_motion : Value → Result Value
    unfolding get at_key waypoints_at dynamics_at franky_ee_frame
    build_cartesian_waypoint_motion payload = do
      ee_frame ← get payload "ee_frame" null
      waypoints ←
          waypoints_at
            (franky_position_waypoint franky "CartesianWaypoint" (franky_cartesian_target franky))
            payload
      frame ← franky_ee_frame ee_frame
      factor ← dynamics_at franky payload
      return_when_finished ← at_key payload "return_when_finished"
      construct "CartesianWaypointMotion" (waypoints ∷ frame ∷ factor ∷ return_when_finished ∷ [])
          []

    -- The four stop motions, `cls` the class that the payload's type names
    unfoldable pub build_stop_motion : String → Value → Result Value
    unfolding dynamics_at
    build_stop_motion cls payload = do
      factor ← dynamics_at franky payload
      construct cls (factor ∷ []) []

    unfoldable pub build_joint_motion : Value → Result Value
    unfolding at_key reference_type_at dynamics_at
    build_joint_motion payload = do
      v ← at_key payload "target"
      target ← franky_joint_target franky v
      reference ← reference_type_at franky payload
      factor ← dynamics_at franky payload
      return_when_finished ← at_key payload "return_when_finished"
      construct "JointMotion" (target ∷ reference ∷ factor ∷ return_when_finished ∷ []) []

    unfoldable pub build_joint_waypoint_motion : Value → Result Value
    unfolding at_key waypoints_at dynamics_at
    build_joint_waypoint_motion payload = do
      waypoints ←
          waypoints_at
            (franky_position_waypoint franky "JointWaypoint" (franky_joint_target franky)) payload
      factor ← dynamics_at franky payload
      return_when_finished ← at_key payload "return_when_finished"
      construct "JointWaypointMotion" (waypoints ∷ factor ∷ return_when_finished ∷ []) []

    unfoldable pub build_cartesian_velocity_motion : Value → Result Value
    unfolding get at_key duration_at dynamics_at
    build_cartesian_velocity_motion payload = do
      ee_frame ← get payload "ee_frame" null
      v ← at_key payload "target"
      target ← franky_robot_velocity franky v
      duration ← duration_at franky payload "duration"
      factor ← dynamics_at franky payload
      frame ← franky_ee_frame ee_frame
      construct "CartesianVelocityMotion" (target ∷ duration ∷ factor ∷ frame ∷ []) []

    unfoldable pub build_cartesian_velocity_waypoint_motion : Value → Result Value
    unfolding get waypoints_at dynamics_at franky_ee_frame
    build_cartesian_velocity_waypoint_motion payload = do
      ee_frame ← get payload "ee_frame" null
      waypoints ←
          waypoints_at
            (franky_velocity_waypoint franky "CartesianVelocityWaypoint"
              (franky_robot_velocity franky))
            payload
      frame ← franky_ee_frame ee_frame
      factor ← dynamics_at franky payload
      construct "CartesianVelocityWaypointMotion" (waypoints ∷ frame ∷ factor ∷ []) []

    unfoldable pub build_joint_velocity_motion : Value → Result Value
    unfolding at_key duration_at dynamics_at
    build_joint_velocity_motion payload = do
      target ← at_key payload "target"
      duration ← duration_at franky payload "duration"
      factor ← dynamics_at franky payload
      construct "JointVelocityMotion" (target ∷ duration ∷ factor ∷ []) []

    -- The target builder is `_identity_target_builder`.
    unfoldable pub build_joint_velocity_waypoint_motion : Value → Result Value
    unfolding waypoints_at dynamics_at
    build_joint_velocity_waypoint_motion payload = do
      waypoints ←
          waypoints_at
            (franky_velocity_waypoint franky "JointVelocityWaypoint" (λ target. ok target)) payload
      factor ← dynamics_at franky payload
      construct "JointVelocityWaypointMotion" (waypoints ∷ factor ∷ []) []
