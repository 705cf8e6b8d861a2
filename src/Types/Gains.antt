-- ===== src/Types/Gains.antt =====
-- The gains, the nullspace tasks and the references of types.py.
use zero_franky.Base.{ℕ, zero, suc, String, ◌&&◌, ◌==◌, [], ◌∷◌, eqb, replicate, if◌then◌else◌}
use zero_franky.Python.Errors.{Result, ok, error, value_error, attribute_error, ◌>>=◌}
use zero_franky.Python.Values.{
  Value, null, float, list, object, fields, items, Items, nil, cons, Fields, end, field,
}
use zero_franky.Python.Attributes.{FloatOps, to_float, is_none}
use zero_franky.Protocol.Scalars.{optional_float}
use zero_franky.Types.Vectors.{
  zero_float, zeros, vector, vector_or_zeros, optional_vector, vector_or_scalar,
  optional_vector_or_scalar,
}
use zero_franky.Types.Affine.{new_affine, two_float}

-- The floats 500.0 and 50.0
abbrev pub translational_default : Value
translational_default = float (record { bits = 0x407f400000000000 })

abbrev pub rotational_default : Value
rotational_default = float (record { bits = 0x4049000000000000 })

-- `[k[i] if i == j else 0.0 for j in range(6)]`, from column j on
unfoldable pub diagonal_row : ℕ → ℕ → ℕ → Value → Items
diagonal_row i j zero v = nil
diagonal_row i j (suc n) v =
    cons (if eqb i j then v else float zero_float) (diagonal_row i (suc j) n v)

-- The rows of a 6×6 matrix with these on its diagonal, from row i on
unfoldable pub diagonal_rows : ℕ → Items → Items
unfolding diagonal_row
diagonal_rows i nil = nil
diagonal_rows i (cons v vs) = cons (list (diagonal_row i 0 6 v)) (diagonal_rows (suc i) vs)

unfoldable pub block_diagonal : Value → Value → Value
unfolding diagonal_rows
block_diagonal t r = list (diagonal_rows 0 (items (t ∷ t ∷ t ∷ r ∷ r ∷ r ∷ [])))

unfoldable pub diagonal_matrix : Value → Value
unfolding diagonal_rows
diagonal_matrix (list vs) = list (diagonal_rows 0 vs)
diagonal_matrix v = v

unfoldable pub cartesian_gains_of : Value → Value → Value
cartesian_gains_of stiffness damping =
    object "CartesianImpedanceGains" (fields (("stiffness", stiffness) ∷ ("damping", damping) ∷ []))

-- `v.name = x` on a plain attribute
unfoldable pub replace_field : String → Value → Fields → Fields
replace_field name x end = field name x end
replace_field name x (field k v rest) =
    if k == name then field k x rest else field k v (replace_field name x rest)

unfoldable pub nullspace_gains_of : Value
nullspace_gains_of = object "NullspaceGains" (
    fields (
      ("posture_stiffness", zeros 7)
      ∷ ("posture_damping", null)
      ∷ ("posture_max_torque", null)
      ∷ ("manipulability_gain", float zero_float)
      ∷ ("manipulability_damping", float zero_float)
      ∷ ("manipulability_max_torque", null)
      ∷ []))

module _ ⦃ops : FloatOps⦄ where
  unfoldable pub new_posture_task : Value → Value → Value → Value → Result Value
  new_posture_task target stiffness damping max_torque = do
    t ← vector target 7 "target"
    s ← vector_or_scalar stiffness 7 "stiffness"
    d ← optional_vector_or_scalar damping 7 "damping"
    m ← optional_float max_torque
    ok (
        object "PostureTask"
          (fields (("target", t) ∷ ("stiffness", s) ∷ ("damping", d) ∷ ("max_torque", m) ∷ [])))

  unfoldable pub new_manipulability_task : Value → Value → Value → Result Value
  new_manipulability_task gain damping max_torque = do
    g ← to_float gain
    d ← to_float damping
    m ← optional_float max_torque
    ok (
        object "ManipulabilityTask"
          (fields (("gain", g) ∷ ("damping", d) ∷ ("max_torque", m) ∷ [])))

  -- The two property setters of `NullspaceGains`; any other attribute is assigned as it is.
  unfoldable pub assigned_gain : String → String → Value → Result Value
  assigned_gain cls name x =
      if (cls == "NullspaceGains") && (name == "posture_stiffness")
      then vector_or_scalar x 7 "posture_stiffness"
      else if (cls == "NullspaceGains") && (name == "posture_damping")
      then optional_vector_or_scalar x 7 "posture_damping"
      else ok x

  unfoldable pub assign : Value → String → Value → Result Value
  unfolding assigned_gain replace_field
  assign (object cls attrs) name x = do
    x' ← assigned_gain cls name x
    ok (object cls (replace_field name x' attrs))
  assign v name x = error attribute_error name

  unfoldable pub new_cartesian_impedance_gains : Value → Value → Result Value
  unfolding block_diagonal cartesian_gains_of
  new_cartesian_impedance_gains translational rotational = do
    kt ← to_float translational
    kr ← to_float rotational
    ok (cartesian_gains_of (block_diagonal kt kr) null)

  -- `2.0 * math.sqrt(k)`
  unfoldable pub critical_of : Value → Result Value
  critical_of (float k) =
      if ops.lt k zero_float
      then error value_error "math domain error"
      else ok (float (ops.mul two_float (ops.sqrt k)))
  critical_of v = ok v

  unfoldable pub damping_or_critical : Value → Value → Result Value
  unfolding is_none critical_of
  damping_or_critical damping k = if is_none damping then critical_of k else to_float damping

  -- `CartesianImpedanceGains.isotropic`
  unfoldable pub isotropic : Value → Value → Value → Value → Result Value
  unfolding is_none block_diagonal cartesian_gains_of damping_or_critical
  isotropic translational rotational translational_damping rotational_damping = do
    kt ← to_float translational
    kr ← to_float rotational
    damping ←
        (if is_none translational_damping && is_none rotational_damping then ok null else do
          dt ← damping_or_critical translational_damping kt
          dr ← damping_or_critical rotational_damping kr
          ok (block_diagonal dt dr))
    ok (cartesian_gains_of (block_diagonal kt kr) damping)

  -- `CartesianImpedanceGains.diagonal`
  unfoldable pub diagonal : Value → Value → Result Value
  unfolding diagonal_matrix cartesian_gains_of is_none
  diagonal stiffness damping = do
    k ← vector stiffness 6 "stiffness"
    d ←
        (if is_none damping
          then ok null
          else do d ← vector damping 6 "damping"; ok (diagonal_matrix d))
    ok (cartesian_gains_of (diagonal_matrix k) d)

  unfoldable pub new_joint_impedance_gains : Value → Value → Result Value
  unfolding is_none
  new_joint_impedance_gains stiffness damping = do
    s ←
        (if is_none stiffness
          then ok (list (items (replicate 7 rotational_default)))
          else vector stiffness 7 "stiffness")
    d ← optional_vector damping 7 "damping"
    ok (object "JointImpedanceGains" (fields (("stiffness", s) ∷ ("damping", d) ∷ [])))

  unfoldable pub new_friction_compensation_params : Value → Value → Value → Value → Result Value
  new_friction_compensation_params coulomb viscous max_torque velocity_epsilon = do
    c ← vector coulomb 7 "coulomb"
    v ← vector viscous 7 "viscous"
    m ← vector max_torque 7 "max_torque"
    e ← to_float velocity_epsilon
    ok (
        object "FrictionCompensationParams" (
          fields
            (("coulomb", c) ∷ ("viscous", v) ∷ ("max_torque", m) ∷ ("velocity_epsilon", e) ∷ [])))

  unfoldable pub new_joint_reference : Value → Value → Value → Result Value
  new_joint_reference q dq tau_ff = do
    q' ← vector_or_zeros q 7 "q"
    dq' ← vector_or_zeros dq 7 "dq"
    tau_ff' ← vector_or_zeros tau_ff 7 "tau_ff"
    ok (object "JointReference" (fields (("q", q') ∷ ("dq", dq') ∷ ("tau_ff", tau_ff') ∷ [])))

  unfoldable pub new_cartesian_reference : Value → Value → Value → Result Value
  unfolding is_none
  new_cartesian_reference target target_twist target_acceleration = do
    t ← (if is_none target then new_affine null null null null else ok target)
    ok (
        object "CartesianReference" (
          fields (
            ("target", t)
            ∷ ("target_twist", target_twist)
            ∷ ("target_acceleration", target_acceleration)
            ∷ [])))
