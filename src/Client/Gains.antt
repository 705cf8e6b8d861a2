-- ===== src/Client/Gains.antt =====
-- The gains that a client sends for a running tracker (zmq_client.py).
use zero_franky.Base.{Bool, not, ◌&&◌, ◌||◌, Option, none, some, [], ◌∷◌, if◌then◌else◌}
use zero_franky.Python.Errors.{Result, ok, error, value_error, type_error, ◌>>=◌}
use zero_franky.Python.Values.{Value, null, dict_of}
use zero_franky.Python.Attributes.{FloatOps, attr, has_attr, is_none}
use zero_franky.Protocol.RpcValue.{encode_rpc_value}

-- The two values of a joint tracker's gains: a gains object's, or the named ones; `none` where nothing is
-- named.
unfoldable pub joint_gains_of : Value → Value → Value → Result (Option (Value × Value))
unfolding is_none has_attr attr
joint_gains_of gains stiffness damping =
    if not (is_none gains)
    then (if not (is_none stiffness) || not (is_none damping)
        then error value_error "Pass either gains or stiffness/damping, not both"
        else if not (has_attr gains "stiffness" && has_attr gains "damping")
        then error type_error "Positional argument must be a JointImpedanceGains"
        else (do k ← attr gains "stiffness"; d ← attr gains "damping"; ok (some (k, d))))
    else if is_none stiffness && is_none damping
    then ok none
    else ok (some (stiffness, damping))

module _ ⦃ops : FloatOps⦄ where
  unfoldable named_blocks : Value → Value → Value → Result (Option Value)
  unfolding encode_rpc_value
  named_blocks translational_stiffness rotational_stiffness damping = do
    d ← encode_rpc_value damping
    ok (
        some (
          dict_of (
            ("stiffness", null)
            ∷ ("translational_stiffness", translational_stiffness)
            ∷ ("rotational_stiffness", rotational_stiffness)
            ∷ ("damping", d)
            ∷ [])))

  -- `_cartesian_gains_payload`
  unfoldable pub cartesian_gains_payload : Value → Value → Value → Value → Result (Option Value)
  unfolding is_none named_blocks encode_rpc_value
  cartesian_gains_payload gains translational_stiffness rotational_stiffness damping =
      let stiffness_given : Bool =
        not (is_none translational_stiffness) || not (is_none rotational_stiffness) in
      if not (is_none gains)
      then (if stiffness_given || not (is_none damping)
          then error value_error "Pass either gains or the isotropic keywords, not both"
          else (do v ← encode_rpc_value gains; ok (some v)))
      else if not stiffness_given && is_none damping
      then ok none
      else named_blocks translational_stiffness rotational_stiffness damping

  -- The payload of `set_nullspace_gains`
  unfoldable pub nullspace_payload :
      Value → Value → Value → Value → Value → Value → Value → Result Value
  unfolding is_none encode_rpc_value
  nullspace_payload gains stiffness damping max_torque gain gain_damping gain_max_torque =
      if not (is_none gains) then encode_rpc_value gains else (do
        k ← encode_rpc_value stiffness
        d ← encode_rpc_value damping
        ok (
            dict_of (
              ("posture_stiffness", k)
              ∷ ("posture_damping", d)
              ∷ ("posture_max_torque", max_torque)
              ∷ ("manipulability_gain", gain)
              ∷ ("manipulability_damping", gain_damping)
              ∷ ("manipulability_max_torque", gain_max_torque)
              ∷ [])))
