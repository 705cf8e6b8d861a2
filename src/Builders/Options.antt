-- ===== src/Builders/Options.antt =====
-- `franky_motion_kwargs` (zmq_server_franky.py).
use zero_franky.Base.{String, Bool, true, false, ◌==◌, ◌&&◌, [], ◌∷◌, if◌then◌else◌}
use zero_franky.Python.Errors.{Result, ok, error, attribute_error, ◌>>=◌}
use zero_franky.Python.Values.{Value, dict, Fields, end, field}
use zero_franky.Python.Attributes.{truthy}
use zero_franky.Protocol.Scalars.{is_critical_damping}
use zero_franky.Builders.Franky.{Franky}
use zero_franky.Builders.Parts.{
  franky_friction_compensation_params, franky_posture_task, franky_manipulability_task,
}
use zero_franky.Builders.Impedance.{Kwargs}

-- The entries whose value is not the unpin sentinel
unfoldable pub drop_critical : Fields → Kwargs
unfolding is_critical_damping
drop_critical end = []
drop_critical (field k v rest) =
    let kept = drop_critical rest in if is_critical_damping v then kept else (k, v) ∷ kept

-- `(kwargs or {}).items()`
unfoldable pub kwargs_items : Value → Result Kwargs
unfolding truthy drop_critical
kwargs_items (dict d) = ok (drop_critical d)
kwargs_items v = if truthy v then error attribute_error "items" else ok []

unfoldable pub is_dict : Value → Bool
is_dict (dict d) = true
is_dict _ = false

-- `if name in result and isinstance(result[name], dict): result[name] = build(franky, result[name])`
unfoldable pub build_option : String → (Value → Result Value) → Kwargs → Result Kwargs
unfolding is_dict
build_option name build [] = ok []
build_option name build ((k, v) ∷ rest) = do
  v' ← (if (k == name) && is_dict v then build v else ok v)
  rest' ← build_option name build rest
  ok ((k, v') ∷ rest')

module _ (franky : Franky) where
  unfoldable pub franky_motion_kwargs : Value → Result Kwargs
  unfolding kwargs_items build_option
  franky_motion_kwargs kwargs = do
    items ← kwargs_items kwargs
    with_friction ← build_option "friction" (franky_friction_compensation_params franky) items
    with_posture ← build_option "posture_task" (franky_posture_task franky) with_friction
    build_option "manipulability_task" (franky_manipulability_task franky) with_posture
