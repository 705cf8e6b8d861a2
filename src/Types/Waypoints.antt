-- ===== src/Types/Waypoints.antt =====
-- The waypoint classes of types.py.
use zero_franky.Base.{ℕ, String, [], ◌∷◌}
use zero_franky.Base.Int.{pos}
use zero_franky.Python.Errors.{Result, ok, ◌>>=◌}
use zero_franky.Python.Values.{Value, null, int, object, method, fields}
use zero_franky.Python.Attributes.{FloatOps}
use zero_franky.Types.Vectors.{vector}
use zero_franky.Types.Geometry.{as_cartesian_state, as_joint_state}

-- `Duration(n)` at a number
abbrev pub duration : ℕ → Value
duration n =
    object "Duration"
      (fields (("_milliseconds", int (pos n)) ∷ ("to_msec", method (int (pos n))) ∷ []))

-- `Duration(0) if hold_target_duration is None else hold_target_duration`
unfoldable pub hold_or_zero : Value → Value
hold_or_zero null = duration 0
hold_or_zero v = v

module _ (target reference_type relative_dynamics_factor minimum_time hold max_total : Value) where
  -- The attributes that the two position waypoint classes share.
  unfoldable pub position_waypoint : String → Value
  unfolding hold_or_zero
  position_waypoint cls = object cls (
      fields (
        ("target", target)
        ∷ ("reference_type", reference_type)
        ∷ ("relative_dynamics_factor", relative_dynamics_factor)
        ∷ ("minimum_time", minimum_time)
        ∷ ("hold_target_duration", hold_or_zero hold)
        ∷ ("max_total_duration", max_total)
        ∷ []))

module _ (target relative_dynamics_factor minimum_time hold max_total : Value) where
  unfoldable pub velocity_waypoint : String → Value
  unfolding hold_or_zero
  velocity_waypoint cls = object cls (
      fields (
        ("target", target)
        ∷ ("relative_dynamics_factor", relative_dynamics_factor)
        ∷ ("minimum_time", minimum_time)
        ∷ ("hold_target_duration", hold_or_zero hold)
        ∷ ("max_total_duration", max_total)
        ∷ []))

unfoldable pub new_cartesian_waypoint : Value → Value → Value → Value → Value → Value → Result Value
unfolding position_waypoint
new_cartesian_waypoint target reference_type factor minimum_time hold max_total = do
  state ← as_cartesian_state target
  ok (position_waypoint state reference_type factor minimum_time hold max_total "CartesianWaypoint")

unfoldable pub new_cartesian_velocity_waypoint :
    Value → Value → Value → Value → Value → Result Value
unfolding velocity_waypoint
new_cartesian_velocity_waypoint target factor minimum_time hold max_total =
    ok (velocity_waypoint target factor minimum_time hold max_total "CartesianVelocityWaypoint")

module _ ⦃ops : FloatOps⦄ where
  unfoldable pub new_joint_waypoint : Value → Value → Value → Value → Value → Value → Result Value
  unfolding position_waypoint
  new_joint_waypoint target reference_type factor minimum_time hold max_total = do
    state ← as_joint_state target
    ok (position_waypoint state reference_type factor minimum_time hold max_total "JointWaypoint")

  unfoldable pub new_joint_velocity_waypoint : Value → Value → Value → Value → Value → Result Value
  unfolding velocity_waypoint
  new_joint_velocity_waypoint target factor minimum_time hold max_total = do
    v ← vector target 7 "target"
    ok (velocity_waypoint v factor minimum_time hold max_total "JointVelocityWaypoint")
