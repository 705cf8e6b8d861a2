-- ===== src/Protocol/RpcValue.antt =====
-- `encode_rpc_value` and the encoders of gains and nullspace tasks (protocol.py).
use zero_franky.Base.{String, none, some, ◌==◌, List, [], ◌∷◌, if◌then◌else◌}
use zero_franky.Python.Errors.{Result, ok, error, attribute_error, ◌>>=◌}
use zero_franky.Python.Values.{
  Value, null, bool, int, float, str, bytes, list, dict, object, method, Items, nil, cons, Fields,
  end, field, lookup,
}
use zero_franky.Python.Attributes.{FloatOps, attr, attr_or, has_attr, is_none, callable?, display}
use zero_franky.Protocol.Scalars.{
  critical_damping, encode_affine, float_attr, vector_attr, optional_float, encode_matrix,
  encode_friction_compensation_params,
}
use zero_franky.Protocol.Targets.{encode_twist, encode_twist_acceleration}

-- The attributes of an object with `encode_rpc_value` of each beside its name, of what a method
-- returns for a method.
abbrev pub Encoded : Type 0
Encoded = List (String × Result Value)

unfoldable pub encoded_attr : Encoded → String → Result Value
encoded_attr [] name = error attribute_error name
encoded_attr ((k, r) ∷ rest) name = if k == name then r else encoded_attr rest name

module _ ⦃ops : FloatOps⦄ where
  unfoldable pub optional_float_attr : Value → String → Result Value
  unfolding attr optional_float
  optional_float_attr value name = do v ← attr value name; optional_float v

  unfoldable pub matrix_attr : Value → String → Result Value
  unfolding attr
  matrix_attr value name = do v ← attr value name; encode_matrix v

  unfoldable pub affine_attr : Value → String → Result Value
  unfolding attr
  affine_attr value name = do v ← attr value name; encode_affine v

  unfoldable pub encode_cartesian_gains : Value → Result Value
  unfolding has_attr matrix_attr float_attr display
  encode_cartesian_gains value =
      if has_attr value "stiffness"
      then display (
          ("stiffness", matrix_attr value "stiffness")
          ∷ ("damping", matrix_attr value "damping")
          ∷ [])
      else display (
          ("translational_stiffness", float_attr value "translational_stiffness")
          ∷ ("rotational_stiffness", float_attr value "rotational_stiffness")
          ∷ [])

  -- `value` is the object, `enc` its encoded attributes.
  unfoldable pub encode_nullspace_gains : Value → Encoded → Result Value
  unfolding encoded_attr float_attr optional_float_attr display
  encode_nullspace_gains value enc = display (
      ("posture_stiffness", encoded_attr enc "posture_stiffness")
      ∷ ("posture_damping", encoded_attr enc "posture_damping")
      ∷ ("posture_max_torque", optional_float_attr value "posture_max_torque")
      ∷ ("manipulability_gain", float_attr value "manipulability_gain")
      ∷ ("manipulability_damping", float_attr value "manipulability_damping")
      ∷ ("manipulability_max_torque", optional_float_attr value "manipulability_max_torque")
      ∷ [])

  unfoldable pub encode_posture_task : Value → Encoded → Result Value
  unfolding encoded_attr vector_attr optional_float_attr display
  encode_posture_task value enc = display (
      ("target", vector_attr value "target")
      ∷ ("stiffness", encoded_attr enc "stiffness")
      ∷ ("damping", encoded_attr enc "damping")
      ∷ ("max_torque", optional_float_attr value "max_torque")
      ∷ [])

  unfoldable pub encode_joint_reference : Value → Result Value
  unfolding vector_attr display
  encode_joint_reference value = display (
      ("type", ok (str "JointReference"))
      ∷ ("q", vector_attr value "q")
      ∷ ("dq", vector_attr value "dq")
      ∷ ("tau_ff", vector_attr value "tau_ff")
      ∷ [])

  unfoldable pub optional_twist : Value → Result Value
  unfolding is_none
  optional_twist v = if is_none v then ok null else encode_twist v

  unfoldable pub optional_twist_acceleration : Value → Result Value
  unfolding is_none
  optional_twist_acceleration v = if is_none v then ok null else encode_twist_acceleration v

  unfoldable pub encode_cartesian_reference : Value → Result Value
  unfolding attr_or affine_attr display
  encode_cartesian_reference value = display (
      ("type", ok (str "CartesianReference"))
      ∷ ("target", affine_attr value "target")
      ∷ ("target_twist", optional_twist (attr_or value "target_twist" null))
      ∷ (
        "target_acceleration",
        optional_twist_acceleration (attr_or value "target_acceleration" null),
      )
      ∷ [])

  -- The dispatch on `type(value).__name__`; any other object is passed on as it is.
  unfoldable pub encode_by_type : String → Value → Encoded → Result Value
  unfolding encoded_attr float_attr optional_float_attr display encode_nullspace_gains
      encode_posture_task encode_joint_reference encode_cartesian_reference
      encode_friction_compensation_params
  encode_by_type name value enc =
      if name == "_CriticalDamping"
      then ok (str critical_damping)
      else if name == "FrictionCompensationParams"
      then encode_friction_compensation_params value
      else if name == "CartesianImpedanceGains"
      then encode_cartesian_gains value
      else if name == "JointImpedanceGains"
      then display (
          ("stiffness", encoded_attr enc "stiffness")
          ∷ ("damping", encoded_attr enc "damping")
          ∷ [])
      else if name == "NullspaceGains"
      then encode_nullspace_gains value enc
      else if name == "PostureTask"
      then encode_posture_task value enc
      else if name == "ManipulabilityTask"
      then display (
          ("gain", float_attr value "gain")
          ∷ ("damping", float_attr value "damping")
          ∷ ("max_torque", optional_float_attr value "max_torque")
          ∷ [])
      else if name == "JointReference"
      then encode_joint_reference value
      else if name == "CartesianReference"
      then encode_cartesian_reference value
      else ok value

  -- An object with `tolist` or `item` is encoded by what that method returns.
  unfoldable pub encode_object : String → Fields → Encoded → Result Value
  unfolding callable? encoded_attr encode_by_type
  encode_object name attrs enc = elim (callable? (lookup "tolist" attrs)) [
    | some _ ↦ encoded_attr enc "tolist"
    | none ↦ elim (callable? (lookup "item" attrs)) [
      | some _ ↦ encoded_attr enc "item"
      | none ↦ encode_by_type name (object name attrs) enc
    ]
  ]

  unfoldable mutual
    unfolding encode_object

    pub encode_rpc_value : Value → Result Value
    encode_rpc_value null = ok null
    encode_rpc_value (bool b) = ok (bool b)
    encode_rpc_value (int n) = ok (int n)
    encode_rpc_value (float x) = ok (float x)
    encode_rpc_value (str s) = ok (str s)
    encode_rpc_value (bytes b) = ok (bytes b)
    encode_rpc_value (list xs) = do ys ← encode_rpc_items xs; ok (list ys)
    encode_rpc_value (dict d) = do e ← encode_rpc_fields d; ok (dict e)
    encode_rpc_value (object name attrs) = encode_object name attrs (encode_rpc_attrs attrs)
    encode_rpc_value (method v) = ok (method v)

    pub encode_rpc_items : Items → Result Items
    encode_rpc_items nil = ok nil
    encode_rpc_items (cons v vs) = do
      x ← encode_rpc_value v
      xs ← encode_rpc_items vs
      ok (cons x xs)

    pub encode_rpc_fields : Fields → Result Fields
    encode_rpc_fields end = ok end
    encode_rpc_fields (field k v rest) = do
      x ← encode_rpc_value v
      xs ← encode_rpc_fields rest
      ok (field k x xs)

    pub encode_rpc_attrs : Fields → Encoded
    encode_rpc_attrs end = []
    encode_rpc_attrs (field k v rest) = (k, encode_rpc_attr v) ∷ encode_rpc_attrs rest

    pub encode_rpc_attr : Value → Result Value
    encode_rpc_attr (method v) = encode_rpc_value v
    encode_rpc_attr null = ok null
    encode_rpc_attr (bool b) = ok (bool b)
    encode_rpc_attr (int n) = ok (int n)
    encode_rpc_attr (float x) = ok (float x)
    encode_rpc_attr (str s) = ok (str s)
    encode_rpc_attr (bytes b) = ok (bytes b)
    encode_rpc_attr (list xs) = do ys ← encode_rpc_items xs; ok (list ys)
    encode_rpc_attr (dict d) = do e ← encode_rpc_fields d; ok (dict e)
    encode_rpc_attr (object name attrs) = encode_object name attrs (encode_rpc_attrs attrs)
