-- ===== src/Types/Motions.antt =====
-- The motion classes of types.py.
use zero_franky.Base.{String, [], ◌∷◌}
use zero_franky.Python.Errors.{Result, ok, ◌>>=◌}
use zero_franky.Python.Values.{Value, null, list, object, fields, items}
use zero_franky.Python.Attributes.{FloatOps, iterate}
use zero_franky.Types.Vectors.{vector}
use zero_franky.Types.Geometry.{as_cartesian_state, as_joint_state}
use zero_franky.Types.Waypoints.{
  duration, new_cartesian_waypoint, new_joint_waypoint, new_cartesian_velocity_waypoint,
  new_joint_velocity_waypoint,
}

-- `Duration(1000) if duration is None else duration`
unfoldable pub duration_or_second : Value → Value
duration_or_second null = duration 1000
duration_or_second v = v

unfoldable pub new_cartesian_waypoint_motion : Value → Value → Value → Value → Result Value
unfolding iterate
new_cartesian_waypoint_motion waypoints ee_frame factor return_when_finished = do
  vs ← iterate waypoints
  ok (
      object "CartesianWaypointMotion" (
        fields (
          ("waypoints", list vs)
          ∷ ("ee_frame", ee_frame)
          ∷ ("relative_dynamics_factor", factor)
          ∷ ("return_when_finished", return_when_finished)
          ∷ [])))

-- `target` and `reference_type` are set beside what the waypoint motion's constructor sets.
unfoldable pub new_cartesian_motion : Value → Value → Value → Value → Value → Result Value
new_cartesian_motion target reference_type factor return_when_finished ee_frame = do
  waypoint ← new_cartesian_waypoint target reference_type factor null null null
  state ← as_cartesian_state target
  ok (
      object "CartesianMotion" (
        fields (
          ("waypoints", list (items (waypoint ∷ [])))
          ∷ ("ee_frame", ee_frame)
          ∷ ("relative_dynamics_factor", factor)
          ∷ ("return_when_finished", return_when_finished)
          ∷ ("target", state)
          ∷ ("reference_type", reference_type)
          ∷ [])))

-- The four stop motions differ in their name only.
unfoldable pub new_stop_motion : String → Value → Value
new_stop_motion cls factor = object cls (fields (("relative_dynamics_factor", factor) ∷ []))

unfoldable pub new_joint_waypoint_motion : Value → Value → Value → Result Value
unfolding iterate
new_joint_waypoint_motion waypoints factor return_when_finished = do
  vs ← iterate waypoints
  ok (
      object "JointWaypointMotion" (
        fields (
          ("waypoints", list vs)
          ∷ ("relative_dynamics_factor", factor)
          ∷ ("return_when_finished", return_when_finished)
          ∷ [])))

unfoldable pub new_cartesian_velocity_waypoint_motion : Value → Value → Value → Result Value
unfolding iterate
new_cartesian_velocity_waypoint_motion waypoints ee_frame factor = do
  vs ← iterate waypoints
  ok (
      object "CartesianVelocityWaypointMotion" (
        fields (
          ("waypoints", list vs)
          ∷ ("ee_frame", ee_frame)
          ∷ ("relative_dynamics_factor", factor)
          ∷ [])))

unfoldable pub new_cartesian_velocity_motion : Value → Value → Value → Value → Result Value
unfolding duration_or_second
new_cartesian_velocity_motion target duration factor ee_frame = do
  let resolved = duration_or_second duration
  waypoint ← new_cartesian_velocity_waypoint target factor null resolved null
  ok (
      object "CartesianVelocityMotion" (
        fields (
          ("waypoints", list (items (waypoint ∷ [])))
          ∷ ("ee_frame", ee_frame)
          ∷ ("relative_dynamics_factor", factor)
          ∷ ("target", target)
          ∷ ("duration", resolved)
          ∷ [])))

unfoldable pub new_joint_velocity_waypoint_motion : Value → Value → Result Value
unfolding iterate
new_joint_velocity_waypoint_motion waypoints factor = do
  vs ← iterate waypoints
  ok (
      object "JointVelocityWaypointMotion"
        (fields (("waypoints", list vs) ∷ ("relative_dynamics_factor", factor) ∷ [])))

module _ ⦃ops : FloatOps⦄ where
  unfoldable pub new_joint_motion : Value → Value → Value → Value → Result Value
  new_joint_motion target reference_type factor return_when_finished = do
    waypoint ← new_joint_waypoint target reference_type factor null null null
    state ← as_joint_state target
    ok (
        object "JointMotion" (
          fields (
            ("waypoints", list (items (waypoint ∷ [])))
            ∷ ("relative_dynamics_factor", factor)
            ∷ ("return_when_finished", return_when_finished)
            ∷ ("target", state)
            ∷ ("reference_type", reference_type)
            ∷ [])))

  unfoldable pub new_joint_velocity_motion : Value → Value → Value → Result Value
  unfolding duration_or_second
  new_joint_velocity_motion target duration factor = do
    let resolved = duration_or_second duration
    waypoint ← new_joint_velocity_waypoint target factor null resolved null
    v ← vector target 7 "target"
    ok (
        object "JointVelocityMotion" (
          fields (
            ("waypoints", list (items (waypoint ∷ [])))
            ∷ ("relative_dynamics_factor", factor)
            ∷ ("target", v)
            ∷ ("duration", resolved)
            ∷ [])))
