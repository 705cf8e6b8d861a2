-- ===== src/Builders/Impedance.antt =====
-- The builders of the torque-control motions and of gains (zmq_server_franky.py). Their classes take
-- keyword arguments.
use zero_franky.Base.{String, not, ◌&&◌, ◌||◌, [], ◌∷◌, ◌++◌, List, if◌then◌else◌}
use zero_franky.Python.Errors.{Result, ok, ◌>>=◌}
use zero_franky.Python.Values.{Value, null}
use zero_franky.Python.Attributes.{at_key, at_index, get, is_none}
use zero_franky.Builders.Franky.{Franky}
use zero_franky.Builders.Parts.{
  franky_affine, franky_twist, franky_friction_compensation_params, franky_posture_task,
  franky_manipulability_task,
}

abbrev pub Kwargs : Type 0
Kwargs = List (String × Value)

-- `{key: value for key, value in kwargs.items() if value is not None}`
unfoldable pub drop_none : Kwargs → Kwargs
unfolding is_none
drop_none [] = []
drop_none ((k, v) ∷ rest) = let kept = drop_none rest in if is_none v then kept else (k, v) ∷ kept

-- `_kwargs_without_none`
unfoldable pub kwargs_without_none : Value → List String → Result Kwargs
unfolding get is_none
kwargs_without_none payload [] = ok []
kwargs_without_none payload (key ∷ keys) = do
  v ← get payload key null
  rest ← kwargs_without_none payload keys
  ok (if is_none v then rest else (key, v) ∷ rest)

-- `{key: payload[key] for key in keys}`
unfoldable pub kwargs_at : Value → List String → Result Kwargs
unfolding at_key
kwargs_at payload [] = ok []
kwargs_at payload (key ∷ keys) = do
  v ← at_key payload key
  rest ← kwargs_at payload keys
  ok ((key, v) ∷ rest)

-- The two scalar stiffnesses, read off the matrix when one of them is missing
unfoldable pub scalar_stiffness : Value → Value → Value → Result (Value × Value)
unfolding is_none at_index
scalar_stiffness stiffness translational rotational =
    if not (is_none stiffness) && (is_none translational || is_none rotational)
    then (do
      row0 ← at_index stiffness 0
      t ← at_index row0 0
      row3 ← at_index stiffness 3
      r ← at_index row3 3
      ok (t, r))
    else ok (translational, rotational)

module _ (franky : Franky) where
  open franky use {construct, reference_type, has_isotropic}

  unfoldable pub cartesian_impedance_kwargs : Value → Result Kwargs
  unfolding get at_key scalar_stiffness kwargs_at franky_friction_compensation_params drop_none
  cartesian_impedance_kwargs payload = do
    translational ← get payload "translational_stiffness" null
    rotational ← get payload "rotational_stiffness" null
    stiffness ← get payload "stiffness" null
    (translational', rotational') ← scalar_stiffness stiffness translational rotational
    target_type ← at_key payload "target_type"
    reference ← reference_type target_type
    force_constraints ← at_key payload "force_constraints"
    posture ← get payload "posture_task" null
    posture_task ← franky_posture_task franky posture
    manipulability ← get payload "manipulability_task" null
    manipulability_task ← franky_manipulability_task franky manipulability
    limits ← kwargs_at payload (
        "max_delta_tau" ∷ "lower_joint_limits" ∷ "upper_joint_limits"
        ∷ "joint_limit_activation_distance" ∷ "joint_limit_stiffness" ∷ "joint_limit_damping"
        ∷ "joint_limit_max_torque" ∷ "translational_error_clip" ∷ "rotational_error_clip" ∷ [])
    friction ← get payload "friction" null
    params ← franky_friction_compensation_params franky friction
    ok (
        drop_none (
          ("target_type", reference)
          ∷ ("translational_stiffness", translational')
          ∷ ("rotational_stiffness", rotational')
          ∷ ("force_constraints", force_constraints)
          ∷ ("posture_task", posture_task)
          ∷ ("manipulability_task", manipulability_task)
          ∷ (limits ++ (("friction", params) ∷ []))))

  unfoldable pub friction_kwarg : Value → Result Kwargs
  unfolding is_none
  friction_kwarg friction = if is_none friction then ok [] else do
    params ← franky_friction_compensation_params franky friction
    ok (("friction", params) ∷ [])

  unfoldable pub build_joint_impedance_motion : Value → Result Value
  unfolding kwargs_without_none kwargs_at get at_key
  build_joint_impedance_motion payload = do
    optional ← kwargs_without_none payload (
        "target_velocity" ∷ "stiffness" ∷ "damping" ∷ "constant_torque_offset"
        ∷ "lower_joint_limits" ∷ "upper_joint_limits" ∷ "cartesian_stiffness" ∷ "cartesian_damping"
        ∷ [])
    required ← kwargs_at payload (
        "compensate_coriolis" ∷ "max_delta_tau" ∷ "joint_limit_activation_distance"
        ∷ "joint_limit_stiffness" ∷ "joint_limit_damping" ∷ "joint_limit_max_torque" ∷ [])
    friction ← get payload "friction" null
    friction' ← friction_kwarg friction
    target ← at_key payload "target"
    construct "JointImpedanceMotion" (target ∷ []) (optional ++ (required ++ friction'))

  unfoldable pub optional_franky_twist : Value → Result Value
  unfolding is_none
  optional_franky_twist v = if is_none v then ok null else franky_twist franky v

  unfoldable pub build_cartesian_impedance_motion : Value → Result Value
  unfolding get at_key
  build_cartesian_impedance_motion payload = do
    kwargs ← cartesian_impedance_kwargs payload
    twist ← get payload "target_twist" null
    target ← at_key payload "target"
    affine ← franky_affine franky target
    target_twist ← optional_franky_twist twist
    construct "CartesianImpedanceMotion" (affine ∷ target_twist ∷ []) kwargs

  unfoldable pub build_torque_stop_motion : Value → Result Value
  unfolding get kwargs_at
  build_torque_stop_motion payload = do
    damping ← get payload "damping" null
    rest ← kwargs_at payload (
        "ramp_duration" ∷ "velocity_epsilon" ∷ "max_duration" ∷ "compensate_coriolis"
        ∷ "max_delta_tau" ∷ [])
    construct "TorqueStopMotion" [] (("damping", damping) ∷ rest)
