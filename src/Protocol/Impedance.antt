-- ===== src/Protocol/Impedance.antt =====
-- `encode_joint_impedance_fields` and `encode_cartesian_impedance_fields` (protocol.py).
use zero_franky.Base.{String, Bool, true, false, ◌==◌, ◌||◌, List, [], ◌∷◌, ltb, if◌then◌else◌}
use zero_franky.Python.Errors.{Result, ok, error, protocol_error, ◌>>=◌}
use zero_franky.Python.Values.{Value, null, bool, Items, nil, cons}
use zero_franky.Python.Attributes.{FloatOps, attr_or, iterate, truthy, to_float, type_name, count}
use zero_franky.Protocol.Scalars.{
  encode_vector, vector_attr, optional_float, encode_matrix, encode_reference_type,
  encode_friction_compensation_params, encode_cartesian_diag, encode_optional_float_vector,
}
use zero_franky.Protocol.RpcValue.{affine_attr, optional_twist, encode_rpc_value}

-- The closures `field` and `safety_field`: the motion's own attribute, or else that of its params or
-- of its safety settings, or else the default.
unfoldable pub param_field : Value → Value → String → Value → Value
unfolding attr_or
param_field motion params name default = attr_or motion name (attr_or params name default)

-- `getattr(motion, "params", motion)` and `getattr(params, "safety", params)`
unfoldable pub params_of : Value → Value
unfolding attr_or
params_of motion = attr_or motion "params" motion

unfoldable pub safety_of : Value → Value
unfolding attr_or params_of
safety_of motion = attr_or (params_of motion) "safety" (params_of motion)

unfoldable pub field_of : Value → String → Value
unfolding param_field params_of
field_of motion name = param_field motion (params_of motion) name null

unfoldable pub safety_field : Value → String → Value
unfolding param_field safety_of
safety_field motion name = param_field motion (safety_of motion) name null

-- The tasks of one class, and whether any is of neither class.
unfoldable pub tasks_of : String → Items → Items
unfolding type_name
tasks_of name nil = nil
tasks_of name (cons task tasks) =
    let rest = tasks_of name tasks in if type_name task == name then cons task rest else rest

unfoldable pub any_unsupported : Items → Bool
unfolding type_name
any_unsupported nil = false
any_unsupported (cons task tasks) =
    let name = type_name task in
    if name == "PostureTask" || name == "ManipulabilityTask" then any_unsupported tasks else true

-- `tasks[0] if tasks else None`
unfoldable pub first_or_none : Items → Value
first_or_none nil = null
first_or_none (cons task tasks) = task

unfoldable pub nullspace_tasks : Value → Result Items
unfolding field_of truthy iterate
nullspace_tasks motion =
    let tasks = field_of motion "nullspace_tasks" in if truthy tasks then iterate tasks else ok nil

-- The posture and the manipulability task, at most one of each.
unfoldable pub select_tasks : Items → Result (Value × Value)
unfolding tasks_of any_unsupported first_or_none count
select_tasks tasks =
    let posture_tasks = tasks_of "PostureTask" tasks in
    let manipulability_tasks = tasks_of "ManipulabilityTask" tasks in
    if any_unsupported tasks
    then error protocol_error "Unsupported Cartesian impedance nullspace task"
    else if ltb 1 (count posture_tasks) || ltb 1 (count manipulability_tasks)
    then error protocol_error
        "CartesianImpedanceMotion supports at most one nullspace task of each type"
    else ok (first_or_none posture_tasks, first_or_none manipulability_tasks)

module _ ⦃ops : FloatOps⦄ where
  unfoldable pub encode_joint_impedance_fields : Value → List (String × Result Value)
  unfolding attr_or vector_attr field_of safety_field truthy encode_friction_compensation_params
      encode_cartesian_diag
  encode_joint_impedance_fields motion =
      let field = field_of motion in
      let safety = safety_field motion in
      let cartesian_gains = attr_or (params_of motion) "cartesian_gains" null in
      ("target", vector_attr motion "target")
      ∷ ("target_velocity", vector_attr motion "target_velocity")
      ∷ ("stiffness", encode_vector (field "stiffness"))
      ∷ ("damping", encode_vector (field "damping"))
      ∷ ("error_clip", encode_vector (field "error_clip"))
      ∷ ("constant_torque_offset", encode_vector (field "constant_torque_offset"))
      ∷ ("lower_joint_limits", encode_vector (safety "lower_joint_limits"))
      ∷ ("upper_joint_limits", encode_vector (safety "upper_joint_limits"))
      ∷ ("compensate_coriolis", ok (bool (truthy (field "compensate_coriolis"))))
      ∷ ("max_delta_tau", to_float (safety "max_delta_tau"))
      ∷ ("joint_limit_activation_distance", to_float (safety "joint_limit_activation_distance"))
      ∷ ("joint_limit_stiffness", to_float (safety "joint_limit_stiffness"))
      ∷ ("joint_limit_damping", to_float (safety "joint_limit_damping"))
      ∷ ("joint_limit_max_torque", to_float (safety "joint_limit_max_torque"))
      ∷ ("friction", encode_friction_compensation_params (field "friction"))
      ∷ ("cartesian_stiffness", encode_cartesian_diag (attr_or cartesian_gains "stiffness" null))
      ∷ ("cartesian_damping", encode_cartesian_diag (attr_or cartesian_gains "damping" null))
      ∷ []

  unfoldable pub cartesian_impedance_entries : Value → Value → Value → List (String × Result Value)
  unfolding attr_or affine_attr field_of safety_field encode_matrix optional_float
      encode_optional_float_vector encode_rpc_value encode_vector to_float
      encode_friction_compensation_params
  cartesian_impedance_entries motion posture_task manipulability_task =
      let field = field_of motion in
      let safety = safety_field motion in
      ("target", affine_attr motion "target")
      ∷ ("target_twist", optional_twist (attr_or motion "target_twist" null))
      ∷ ("target_type", encode_reference_type (field "target_type"))
      ∷ ("stiffness", encode_matrix (field "stiffness"))
      ∷ ("damping", encode_matrix (field "damping"))
      ∷ ("translational_stiffness", optional_float (field "translational_stiffness"))
      ∷ ("rotational_stiffness", optional_float (field "rotational_stiffness"))
      ∷ ("force_constraints", encode_optional_float_vector (field "force_constraints"))
      ∷ ("posture_task", encode_rpc_value posture_task)
      ∷ ("manipulability_task", encode_rpc_value manipulability_task)
      ∷ ("max_delta_tau", to_float (safety "max_delta_tau"))
      ∷ ("lower_joint_limits", encode_vector (safety "lower_joint_limits"))
      ∷ ("upper_joint_limits", encode_vector (safety "upper_joint_limits"))
      ∷ ("joint_limit_activation_distance", to_float (safety "joint_limit_activation_distance"))
      ∷ ("joint_limit_stiffness", to_float (safety "joint_limit_stiffness"))
      ∷ ("joint_limit_damping", to_float (safety "joint_limit_damping"))
      ∷ ("joint_limit_max_torque", to_float (safety "joint_limit_max_torque"))
      ∷ ("translational_error_clip", encode_vector (field "translational_error_clip"))
      ∷ ("rotational_error_clip", encode_vector (field "rotational_error_clip"))
      ∷ ("friction", encode_friction_compensation_params (field "friction"))
      ∷ []

  unfoldable pub encode_cartesian_impedance_fields : Value → Result (List (String × Result Value))
  encode_cartesian_impedance_fields motion = do
    tasks ← nullspace_tasks motion
    (posture_task, manipulability_task) ← select_tasks tasks
    ok (cartesian_impedance_entries motion posture_task manipulability_task)
