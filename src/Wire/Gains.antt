-- ===== src/Wire/Gains.antt =====
-- The nullspace tasks and the friction settings across the wire, and the diagonals of gains.
use zero_franky.Base.{◌≡◌, refl, Option, none, some, [], ◌∷◌}
use zero_franky.Python.Errors.{ok, ◌>>=◌}
use zero_franky.Python.Values.{Float, Value, null, float, list, items, Items}
use zero_franky.Python.Attributes.{
  FloatOps, iterate, map_float, to_float, count, plain, at_index, float_list, float_rows, map_row,
}
use zero_franky.Protocol.Scalars.{
  encode_vector, optional_float, encode_friction_compensation_params, encode_cartesian_diag,
  encode_matrix, decode_damping, all_lists, diagonal_from,
}
use zero_franky.Protocol.RpcValue.{encode_rpc_value, encode_cartesian_gains}
use zero_franky.Types.Vectors.{vector, optional_vector_or_scalar, vector_or_scalar}
use zero_franky.Types.Gains.{
  new_posture_task, new_manipulability_task, new_friction_compensation_params, diagonal_rows,
  diagonal_row, diagonal, new_cartesian_impedance_gains,
}
use zero_franky.Types.Module.{types_module}
use zero_franky.Builders.Parts.{
  franky_posture_task, franky_manipulability_task, franky_friction_compensation_params,
}
use zero_franky.Builders.Gains.{franky_cartesian_gains}
use zero_franky.Wire.Data.{Joints, joints, float_or_none}

unfoldable pub joints_or_none : Option Joints → Value
unfolding joints
joints_or_none none = null
joints_or_none (some q) = joints q

-- Six components: three translations, three rotations.
pub record Wrench : Type 0 where
  pub w1 : Float
  pub w2 : Float
  pub w3 : Float
  pub w4 : Float
  pub w5 : Float
  pub w6 : Float

abbrev pub wrench_items : Wrench → Items
wrench_items g =
    items (float g.w1 ∷ float g.w2 ∷ float g.w3 ∷ float g.w4 ∷ float g.w5 ∷ float g.w6 ∷ [])

unfoldable pub wrench : Wrench → Value
wrench g = list (wrench_items g)

unfoldable pub wrench_or_none : Option Wrench → Value
unfolding wrench
wrench_or_none none = null
wrench_or_none (some g) = wrench g

module _ ⦃ops : FloatOps⦄ where
  -- The encoder reads six floats back off the diagonal matrix that the gains' constructor makes of them.
  pub encode_cartesian_diag-diagonal_rows :
      (g : Wrench) → encode_cartesian_diag (list (diagonal_rows 0 (wrench_items g))) ≡ ok (wrench g)
  unfolding encode_cartesian_diag diagonal_rows diagonal_row all_lists diagonal_from float_list
      map_float to_float iterate count at_index plain wrench
  encode_cartesian_diag-diagonal_rows g = refl

  -- Diagonal gains that the client makes and encodes, with a damping of their own or without, are built
  -- again by the server as they were.
  pub cartesian_gains-round_trip :
      (stiffness : Wrench) (damping : Option Wrench)
      → (diagonal (wrench stiffness) (wrench_or_none damping)
          >>= encode_cartesian_gains
          >>= franky_cartesian_gains types_module)
        ≡ diagonal (wrench stiffness) (wrench_or_none damping)
  unfolding diagonal encode_cartesian_gains franky_cartesian_gains types_module wrench
      wrench_or_none vector map_float to_float iterate count plain encode_matrix float_rows map_row
      float_list decode_damping new_cartesian_impedance_gains
  cartesian_gains-round_trip stiffness none = refl
  cartesian_gains-round_trip stiffness (some d) = refl

  -- A manipulability task that the client makes and encodes is built again by the server as it was.
  pub manipulability_task-round_trip :
      (gain damping : Float) (max_torque : Option Float)
      → (new_manipulability_task (float gain) (float damping) (float_or_none max_torque)
          >>= encode_rpc_value
          >>= franky_manipulability_task types_module)
        ≡ new_manipulability_task (float gain) (float damping) (float_or_none max_torque)
  unfolding new_manipulability_task encode_rpc_value franky_manipulability_task types_module
      float_or_none to_float optional_float
  manipulability_task-round_trip gain damping none = refl
  manipulability_task-round_trip gain damping (some m) = refl

  -- Friction settings that the client makes and encodes are built again by the server as they were.
  pub friction-round_trip :
      (coulomb viscous max_torque : Joints) (epsilon : Float)
      → (new_friction_compensation_params
            (joints coulomb)
            (joints viscous)
            (joints max_torque)
            (float epsilon)
          >>= encode_friction_compensation_params
          >>= franky_friction_compensation_params types_module)
        ≡ new_friction_compensation_params
            (joints coulomb)
            (joints viscous)
            (joints max_torque)
            (float epsilon)
  unfolding new_friction_compensation_params encode_friction_compensation_params
      franky_friction_compensation_params types_module joints vector to_float map_float iterate
      count encode_vector float_list
  friction-round_trip coulomb viscous max_torque epsilon = refl

  -- A posture task with a vector of stiffnesses, and with a vector of dampings or none, is built again by
  -- the server as the client made it.
  pub posture_task-round_trip :
      (target stiffness : Joints) (damping : Option Joints) (max_torque : Option Float)
      → (new_posture_task
            (joints target)
            (joints stiffness)
            (joints_or_none damping)
            (float_or_none max_torque)
          >>= encode_rpc_value
          >>= franky_posture_task types_module)
        ≡ new_posture_task
            (joints target)
            (joints stiffness)
            (joints_or_none damping)
            (float_or_none max_torque)
  unfolding new_posture_task encode_rpc_value franky_posture_task types_module joints joints_or_none
      float_or_none vector vector_or_scalar optional_vector_or_scalar optional_float to_float
      map_float iterate count encode_vector float_list
  posture_task-round_trip target stiffness none none = refl
  posture_task-round_trip target stiffness none (some m) = refl
  posture_task-round_trip target stiffness (some d) none = refl
  posture_task-round_trip target stiffness (some d) (some m) = refl
