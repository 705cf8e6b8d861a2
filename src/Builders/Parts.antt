-- ===== src/Builders/Parts.antt =====
-- The builders of a motion's parts (zmq_server_franky.py).
use zero_franky.Base.{String, Bool, false, ◌==◌, ◌&&◌, [], ◌∷◌, if◌then◌else◌}
use zero_franky.Python.Errors.{Result, ok, error, value_error, ◌>>=◌}
use zero_franky.Python.Values.{Value, null, float, str}
use zero_franky.Python.Attributes.{FloatOps, at_key, get, is_none, equals}
use zero_franky.Builders.Franky.{Franky}

-- `type == name`, where a payload's type need not be a text
unfoldable pub is_type : Value → String → Bool
is_type (str s) name = s == name
is_type _ name = false

module _ (franky : Franky) where
  open franky use {construct, reference_type}

  unfoldable pub franky_duration : Value → Result Value
  unfolding is_none
  franky_duration value = if is_none value then ok null else construct "Duration" (value ∷ []) []

  unfoldable pub franky_affine : Value → Result Value
  unfolding at_key
  franky_affine payload = do matrix ← at_key payload "matrix"; construct "Affine" (matrix ∷ []) []

  unfoldable pub franky_twist : Value → Result Value
  unfolding at_key
  franky_twist payload = do
    linear ← at_key payload "linear"
    angular ← at_key payload "angular"
    construct "Twist" (linear ∷ angular ∷ []) []

  unfoldable pub franky_twist_acceleration : Value → Result Value
  unfolding is_none at_key
  franky_twist_acceleration payload = if is_none payload then ok null else do
    linear ← at_key payload "linear"
    angular ← at_key payload "angular"
    construct "TwistAcceleration" (linear ∷ angular ∷ []) []

  unfoldable pub franky_cartesian_target : Value → Result Value
  unfolding at_key is_type
  franky_cartesian_target payload = do
    type ← at_key payload "type"
    if is_type type "Affine"
        then (do value ← at_key payload "value"; franky_affine value)
        else if is_type type "RobotPose"
        then (do
          pose ← at_key payload "end_effector_pose"
          affine ← franky_affine pose
          construct "RobotPose" (affine ∷ []) [])
        else if is_type type "CartesianState"
        then (do
          pose ← at_key payload "pose"
          end_effector_pose ← at_key pose "end_effector_pose"
          affine ← franky_affine end_effector_pose
          robot_pose ← construct "RobotPose" (affine ∷ []) []
          construct "CartesianState" (robot_pose ∷ []) [])
        else error value_error "Unsupported cartesian target type"

  unfoldable pub franky_robot_velocity : Value → Result Value
  unfolding at_key is_type
  franky_robot_velocity payload = do
    type ← at_key payload "type"
    if is_type type "RobotVelocity"
        then (do
          end_effector_twist ← at_key payload "end_effector_twist"
          twist ← franky_twist end_effector_twist
          elbow_velocity ← at_key payload "elbow_velocity"
          construct "RobotVelocity" (twist ∷ elbow_velocity ∷ []) [])
        else if is_type type "Twist"
        then (do value ← at_key payload "value"; franky_twist value)
        else error value_error "Unsupported robot velocity type"

  unfoldable pub franky_joint_target : Value → Result Value
  unfolding at_key
  franky_joint_target payload = do
    position ← at_key payload "position"
    construct "JointState" (position ∷ []) []

  unfoldable pub franky_friction_compensation_params : Value → Result Value
  unfolding is_none at_key
  franky_friction_compensation_params payload = if is_none payload then ok null else do
    coulomb ← at_key payload "coulomb"
    viscous ← at_key payload "viscous"
    max_torque ← at_key payload "max_torque"
    velocity_epsilon ← at_key payload "velocity_epsilon"
    construct "FrictionCompensationParams" (coulomb ∷ viscous ∷ max_torque ∷ velocity_epsilon ∷ [])
        []

  unfoldable pub franky_posture_task : Value → Result Value
  unfolding is_none at_key get
  franky_posture_task payload = if is_none payload then ok null else do
    target ← at_key payload "target"
    stiffness ← at_key payload "stiffness"
    damping ← get payload "damping" null
    max_torque ← get payload "max_torque" null
    construct "PostureTask" (target ∷ stiffness ∷ damping ∷ max_torque ∷ []) []

  unfoldable pub franky_manipulability_task : Value → Result Value
  unfolding is_none at_key get
  franky_manipulability_task payload = if is_none payload then ok null else do
    gain ← at_key payload "gain"
    damping ← get payload "damping" (float (record { bits = 0 }))
    max_torque ← get payload "max_torque" null
    construct "ManipulabilityTask" (gain ∷ damping ∷ max_torque ∷ []) []

  module _ ⦃ops : FloatOps⦄ where
    unfoldable pub franky_relative_dynamics_factor : Value → Result Value
    unfolding at_key
    franky_relative_dynamics_factor payload = do
      velocity ← at_key payload "velocity"
      acceleration ← at_key payload "acceleration"
      jerk ← at_key payload "jerk"
      if equals velocity acceleration && equals acceleration jerk
          then construct "RelativeDynamicsFactor" (velocity ∷ []) []
          else construct "RelativeDynamicsFactor" (velocity ∷ acceleration ∷ jerk ∷ []) []

    -- `f(franky, payload[key])` of the parts that every waypoint has
    unfoldable pub dynamics_at : Value → Result Value
    unfolding at_key
    dynamics_at payload = do
      factor ← at_key payload "relative_dynamics_factor"
      franky_relative_dynamics_factor factor

    unfoldable pub duration_at : Value → String → Result Value
    unfolding at_key
    duration_at payload key = do v ← at_key payload key; franky_duration v

    unfoldable pub reference_type_at : Value → Result Value
    unfolding at_key
    reference_type_at payload = do v ← at_key payload "reference_type"; reference_type v

    unfoldable pub franky_position_waypoint : String → (Value → Result Value) → Value → Result Value
    unfolding at_key reference_type_at dynamics_at duration_at
    franky_position_waypoint cls target_builder waypoint = do
      v ← at_key waypoint "target"
      target ← target_builder v
      reference ← reference_type_at waypoint
      factor ← dynamics_at waypoint
      minimum_time ← duration_at waypoint "minimum_time"
      hold ← duration_at waypoint "hold_target_duration"
      max_total ← duration_at waypoint "max_total_duration"
      construct cls (target ∷ reference ∷ factor ∷ minimum_time ∷ hold ∷ max_total ∷ []) []

    unfoldable pub franky_velocity_waypoint : String → (Value → Result Value) → Value → Result Value
    unfolding at_key dynamics_at duration_at
    franky_velocity_waypoint cls target_builder waypoint = do
      v ← at_key waypoint "target"
      target ← target_builder v
      factor ← dynamics_at waypoint
      minimum_time ← duration_at waypoint "minimum_time"
      hold ← duration_at waypoint "hold_target_duration"
      max_total ← duration_at waypoint "max_total_duration"
      construct cls (target ∷ factor ∷ minimum_time ∷ hold ∷ max_total ∷ []) []
