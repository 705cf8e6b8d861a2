-- ===== src/Protocol/State.antt =====
-- What the server publishes of a robot's state: the reference of a motion, and the fast profile
-- (protocol.py).
use zero_franky.Base.{String, [], ◌∷◌, Option, none, some, if◌then◌else◌}
use zero_franky.Python.Errors.{Result, ok, raise, ◌>>=◌}
use zero_franky.Python.Values.{Value, Items, null, str, list, nil, cons, dict_of}
use zero_franky.Python.Attributes.{
  FloatOps, type_name, attr?, attr, has_attr, is_none, call0, callable?, iterate, to_float,
  map_float, float_rows, get_or,
}
use zero_franky.Protocol.Scalars.{encode_affine, encode_vector, vector_attr}
use zero_franky.Protocol.Targets.{floats_attr, encode_twist, encode_twist_acceleration}

unfoldable pub appended : Items → Items → Items
appended nil ys = ys
appended (cons x xs) ys = cons x (appended xs ys)

unfoldable pub or_nothing : Result Value → Value
or_nothing (ok v) = v
or_nothing (raise e) = list nil

module _ ⦃ops : FloatOps⦄ where
  unfoldable twist_list : Value → Result Value
  unfolding attr iterate appended is_none
  twist_list twist = if is_none twist then ok (list nil) else (do
    linear ← attr twist "linear"
    xs ← iterate linear
    ys ← map_float xs
    angular ← attr twist "angular"
    us ← iterate angular
    vs ← map_float us
    ok (list (appended ys vs)))

  -- `_safe_twist`
  unfoldable pub safe_twist : Value → String → Value
  unfolding or_nothing twist_list attr
  safe_twist robot_state name = or_nothing (do twist ← attr robot_state name; twist_list twist)

  -- `None if value is None else f(value)` of an attribute that may be missing
  unfoldable pub encoded_if : (Value → Result Value) → Value → Result Value
  unfolding is_none
  encoded_if f v = if is_none v then ok null else f v

  unfoldable pub joint_reference : Value → Result Value
  unfolding vector_attr
  joint_reference reference = do
    q ← vector_attr reference "q"
    dq ← vector_attr reference "dq"
    tau_ff ← vector_attr reference "tau_ff"
    ok (dict_of (("type", str "JointReference") ∷ ("q", q) ∷ ("dq", dq) ∷ ("tau_ff", tau_ff) ∷ []))

  unfoldable pub cartesian_reference : Value → Result Value
  unfolding attr get_or attr? encoded_if
  cartesian_reference reference = do
    pose ← attr reference "target"
    target ← encode_affine pose
    target_twist ← encoded_if encode_twist (get_or (attr? reference "target_twist") null)
    target_acceleration ←
        encoded_if encode_twist_acceleration (get_or (attr? reference "target_acceleration") null)
    ok (
        dict_of (
          ("type", str "CartesianReference")
          ∷ ("target", target)
          ∷ ("target_twist", target_twist)
          ∷ ("target_acceleration", target_acceleration)
          ∷ []))

  unfoldable pub encode_reference : Value → Result Value
  unfolding is_none has_attr joint_reference cartesian_reference
  encode_reference reference =
      if is_none reference
      then ok null
      else if has_attr reference "q"
      then joint_reference reference
      else cartesian_reference reference

  unfoldable pub encode_commanded_torque : Option Value → Result Value
  unfolding encode_vector
  encode_commanded_torque none = ok null
  encode_commanded_torque (some torque) = do
    tau ← encode_vector torque
    ok (dict_of (("type", str "Torque") ∷ ("tau", tau) ∷ []))

  unfoldable pub encode_motion_reference : Value → Result Value
  unfolding callable? attr? encode_reference encode_commanded_torque
  encode_motion_reference motion = elim (callable? (attr? motion "get_reference")) [
    | some reference ↦ encode_reference reference
    | none ↦ encode_commanded_torque (callable? (attr? motion "get_torque"))
  ]

  -- `float(v.to_sec())`
  unfoldable pub seconds : Value → Result Value
  unfolding attr call0
  seconds v = do to_sec ← attr v "to_sec"; value ← call0 to_sec; to_float value

  unfoldable pub signal_positions : Value → String → Result Value
  unfolding floats_attr
  signal_positions control_signal name = do
    q ← floats_attr control_signal name
    ok (dict_of (("type", str "JointPositions") ∷ ("q", q) ∷ []))

  -- `_encode_control_signal`; `repr` is Python's.
  unfoldable pub encode_control_signal : (Value → String) → Value → Result Value
  unfolding has_attr signal_positions type_name
  encode_control_signal repr control_signal =
      if has_attr control_signal "q"
      then signal_positions control_signal "q"
      else if has_attr control_signal "position"
      then signal_positions control_signal "position"
      else ok (
          dict_of
            (("type", str (type_name control_signal)) ∷ ("repr", str (repr control_signal)) ∷ []))

  -- `encode_callback_state` of the fast profile
  unfoldable pub encode_fast_state :
      (Value → String) → Value → Value → Value → Value → Value → Result Value
  unfolding floats_attr attr safe_twist seconds encode_control_signal
  encode_fast_state repr robot_state time_step rel_time abs_time control_signal = do
    q ← floats_attr robot_state "q"
    dq ← floats_attr robot_state "dq"
    pose ← attr robot_state "O_T_EE"
    matrix ← attr pose "matrix"
    rows ← float_rows matrix
    wrench ← floats_attr robot_state "O_F_ext_hat_K"
    stiffness_wrench ← floats_attr robot_state "K_F_ext_hat_K"
    tau ← floats_attr robot_state "tau_ext_hat_filtered"
    step ← seconds time_step
    rel ← seconds rel_time
    at ← seconds abs_time
    signal ← encode_control_signal repr control_signal
    ok (
        dict_of (
          ("q", q)
          ∷ ("dq", dq)
          ∷ ("O_T_EE", rows)
          ∷ ("O_F_ext_hat_K", wrench)
          ∷ ("K_F_ext_hat_K", stiffness_wrench)
          ∷ ("tau_ext_hat_filtered", tau)
          ∷ ("O_dP_EE_est", safe_twist robot_state "O_dP_EE_est")
          ∷ ("time_step", step)
          ∷ ("rel_time", rel)
          ∷ ("abs_time", at)
          ∷ ("control_signal", signal)
          ∷ []))
