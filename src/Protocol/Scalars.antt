-- ===== src/Protocol/Scalars.antt =====
-- The encoders of scalars, vectors and matrices, and the damping sentinel (protocol.py).
use zero_franky.Base.{
  ℕ, suc, String, Bool, true, false, some, ◌==◌, ◌&&◌, ◌||◌, [], ◌∷◌, eqb, if◌then◌else◌,
}
use zero_franky.Python.Errors.{Result, ok, error, protocol_error, ◌>>=◌}
use zero_franky.Python.Values.{Value, null, bool, int, float, str, list, dict_of, Items, nil, cons}
use zero_franky.Python.Attributes.{
  FloatOps, to_float, float_list, float_rows, attr, attr_or, attr?, is_none, call0, callable?,
  iterate, at_index, to_int, count, is_list, plain,
}

abbrev pub critical_damping : String
critical_damping = "critical"

unfoldable pub is_critical_damping : Value → Bool
is_critical_damping (str s) = s == critical_damping
is_critical_damping _ = false

unfoldable pub decode_damping : Value → Result Value
unfolding is_critical_damping
decode_damping (str s) =
    if is_critical_damping (str s) then ok null else error protocol_error "Unknown damping sentinel"
decode_damping value = ok value

-- `text.endswith(end)`
unfoldable pub ends_with : String → String → Bool
ends_with String.[] end = String.[] == end
ends_with (String.◌∷◌ c s) end = String.◌∷◌ c s == end || ends_with s end

-- `str(v)`, of which only the end is read: no other value's text ends in a member's name.
unfoldable pub text_of : Value → String
unfolding callable? attr?
text_of (str s) = s
text_of v = elim (callable? (attr? v "__str__")) [ some (str s) ↦ s | _ ↦ "" ]

unfoldable pub reference_type_of_text : String → Result Value
unfolding ends_with
reference_type_of_text text =
    if ends_with text ".Relative"
    then ok (str "Relative")
    else if ends_with text ".Absolute"
    then ok (str "Absolute")
    else error protocol_error "Cannot encode as ReferenceType"

unfoldable pub reference_type_of_name : Value → String → Result Value
unfolding reference_type_of_text
reference_type_of_name (str name) text =
    if name == "Relative" || name == "Absolute" then ok (str name) else reference_type_of_text text
reference_type_of_name _ text = reference_type_of_text text

unfoldable pub encode_reference_type : Value → Result Value
unfolding reference_type_of_name text_of attr_or
encode_reference_type value = reference_type_of_name (attr_or value "name" null) (text_of value)

unfoldable pub encode_duration : Value → Result Value
unfolding attr call0 to_int is_none
encode_duration value =
    if is_none value
    then ok null
    else do to_msec ← attr value "to_msec"; milliseconds ← call0 to_msec; to_int milliseconds

-- `isinstance(v, (int, float))`: a bool is an int.
unfoldable pub is_number : Value → Bool
is_number (bool b) = true
is_number (int n) = true
is_number (float x) = true
is_number _ = false

-- `rows[i][i]` from row `i` on
unfoldable pub diagonal_from : ℕ → Items → Result Items
unfolding at_index
diagonal_from i nil = ok nil
diagonal_from i (cons row rows) = do
  v ← at_index row i
  vs ← diagonal_from (suc i) rows
  ok (cons v vs)

unfoldable pub all_lists : Items → Bool
unfolding is_list
all_lists nil = true
all_lists (cons v vs) = is_list v && all_lists vs

module _ ⦃ops : FloatOps⦄ where
  unfoldable pub encode_affine : Value → Result Value
  unfolding attr_or is_none
  encode_affine value =
      let matrix = attr_or value "matrix" null in
      if is_none matrix
      then error protocol_error "Cannot encode as Affine"
      else do ok (dict_of (("type", str "Affine") ∷ ("matrix", (← float_rows matrix)) ∷ []))

  unfoldable pub encode_relative_dynamics_factor : Value → Result Value
  unfolding is_number attr
  encode_relative_dynamics_factor value =
      if is_number value
      then (do
        velocity ← to_float value
        ok (
            dict_of
              (("velocity", velocity) ∷ ("acceleration", velocity) ∷ ("jerk", velocity) ∷ [])))
      else do
        velocity ← attr value "velocity"
        velocity' ← to_float velocity
        acceleration ← attr value "acceleration"
        acceleration' ← to_float acceleration
        jerk ← attr value "jerk"
        jerk' ← to_float jerk
        ok (
            dict_of
              (("velocity", velocity') ∷ ("acceleration", acceleration') ∷ ("jerk", jerk') ∷ []))

  unfoldable pub encode_vector : Value → Result Value
  unfolding is_none
  encode_vector value = if is_none value then ok null else float_list value

  -- `float(value.name)` and `encode_vector(value.name)`
  unfoldable pub float_attr : Value → String → Result Value
  unfolding attr
  float_attr value name = do v ← attr value name; to_float v

  unfoldable pub vector_attr : Value → String → Result Value
  unfolding attr
  vector_attr value name = do v ← attr value name; encode_vector v

  -- `None if value.name is None else float(value.name)`
  unfoldable pub optional_float : Value → Result Value
  unfolding is_none
  optional_float v = if is_none v then ok null else to_float v

  unfoldable pub encode_friction_compensation_params : Value → Result Value
  unfolding is_none vector_attr float_attr
  encode_friction_compensation_params value = if is_none value then ok null else do
    coulomb ← vector_attr value "coulomb"
    viscous ← vector_attr value "viscous"
    max_torque ← vector_attr value "max_torque"
    velocity_epsilon ← float_attr value "velocity_epsilon"
    ok (
        dict_of (
          ("coulomb", coulomb)
          ∷ ("viscous", viscous)
          ∷ ("max_torque", max_torque)
          ∷ ("velocity_epsilon", velocity_epsilon)
          ∷ []))

  unfoldable pub encode_matrix : Value → Result Value
  unfolding is_none plain
  encode_matrix value = if is_none value then ok null else float_rows (plain value)

  unfoldable pub encode_cartesian_diag : Value → Result Value
  unfolding is_none plain iterate count all_lists diagonal_from
  encode_cartesian_diag value = if is_none value then ok null else do
    rows ← iterate (plain value)
    if eqb (count rows) 6 && all_lists rows
        then (do diagonal ← diagonal_from 0 rows; float_list (list diagonal))
        else float_list (plain value)

  unfoldable pub encode_optional_items : Items → Result Items
  unfolding optional_float
  encode_optional_items nil = ok nil
  encode_optional_items (cons v vs) = do
    x ← optional_float v
    xs ← encode_optional_items vs
    ok (cons x xs)

  unfoldable pub encode_optional_float_vector : Value → Result Value
  unfolding is_none iterate
  encode_optional_float_vector value =
      if is_none value
      then ok null
      else do vs ← iterate value; xs ← encode_optional_items vs; ok (list xs)
