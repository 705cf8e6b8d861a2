-- ===== src/Gripper/Server.antt =====
-- The gripper server's handlers and its requests (ZmqGripperServer and RPC_HANDLERS in robotiq.py).
use zero_franky.Base.{String, true, false, Option, none, some, [], ◌∷◌}
use zero_franky.Base.Dict.{Dict, lookup}
use zero_franky.Base.Int.{pos}
use zero_franky.Python.Errors.{error, type_error, not_implemented_error}
use zero_franky.Python.Values.{Value, null, bool, int, float, str, list, dict}
use zero_franky.Python.Exec.{Exec, pure, lift}
use zero_franky.Rpc.Codec.{Codec}
use zero_franky.Rpc.Outcome.{shown}
use zero_franky.Rpc.Params.{option, with_params, required}
use zero_franky.Rpc.Server as Rpc
use zero_franky.Gripper.Units.{zero_float}
use zero_franky.Gripper.Device.{Device}
use zero_franky.Gripper.Manager.State as Manager
use zero_franky.Gripper.Manager.State.{GripperState}

-- The default of speed and force, and 85.0
abbrev pub full : Value
full = int (pos 255)

abbrev pub default_open_mm : Value
default_open_mm = float (record { bits = 0x4055400000000000 })

module _ (D : Device) where
  open D use {World}

  abbrev pub Handler : Type 0
  Handler = Value → Exec (GripperState D) Value

  unfoldable pub handle_activate : Handler
  unfolding with_params option
  handle_activate p = with_params p (λ d.
      Manager.activate D (option d "reset" (bool true)) (option d "start" (bool true))
        (option d "refresh_status" (bool true)))

  unfoldable pub handle_start : Handler
  unfolding with_params option
  handle_start p = with_params p (λ d. Manager.start D (option d "refresh_status" (bool true)))

  unfoldable pub handle_reset : Handler
  handle_reset p = Manager.reset D

  unfoldable pub handle_stop : Handler
  handle_stop p = Manager.stop D

  unfoldable pub handle_open : Handler
  unfolding with_params option
  handle_open p = with_params p (λ d.
      Manager.open_gripper D (option d "speed" full) (option d "force" full)
        (option d "wait" (bool true)) (option d "read_status" (bool true))
        (option d "refresh_status" (bool false)))

  unfoldable pub handle_close : Handler
  unfolding with_params option
  handle_close p = with_params p (λ d.
      Manager.close D (option d "speed" full) (option d "force" full) (option d "wait" (bool true))
        (option d "read_status" (bool true)) (option d "refresh_status" (bool false)))

  unfoldable pub handle_move : Handler
  unfolding required option
  handle_move p = required p "position" (λ position d.
      Manager.move D position (option d "speed" full) (option d "force" full)
        (option d "wait" (bool true)) (option d "read_status" (bool true))
        (option d "refresh_status" (bool false)))

  unfoldable pub handle_move_mm : Handler
  unfolding required option
  handle_move_mm p = required p "width_mm" (λ width_mm d.
      Manager.move_mm D width_mm (option d "speed" full) (option d "force" full)
        (option d "wait" (bool true)) (option d "read_status" (bool true))
        (option d "refresh_status" (bool false)))

  unfoldable pub handle_calibrate_mm : Handler
  unfolding with_params option
  handle_calibrate_mm p = with_params p (λ d.
      Manager.calibrate_mm D (option d "close_mm" (float zero_float))
        (option d "open_mm" default_open_mm))

  unfoldable pub handle_position : Handler
  unfolding with_params option
  handle_position p =
      with_params p (λ d. Manager.position D (option d "refresh_status" (bool true)))

  unfoldable pub handle_position_mm : Handler
  unfolding with_params option
  handle_position_mm p =
      with_params p (λ d. Manager.position_mm D (option d "refresh_status" (bool true)))

  unfoldable pub handle_status : Handler
  unfolding with_params option
  handle_status p = with_params p (λ d. Manager.status D (option d "refresh_status" (bool true)))

  unfoldable pub handle_object_detection : Handler
  unfolding with_params option
  handle_object_detection p =
      with_params p (λ d. Manager.object_detection D (option d "refresh_status" (bool true)))

  -- A client that goes away leaves the gripper to the others.
  unfoldable pub handle_disconnect : Handler
  handle_disconnect p = pure null

  -- `RPC_HANDLERS`
  unfoldable pub rpc_handlers : Dict Handler
  unfolding handle_activate handle_start handle_reset handle_stop handle_open handle_close
      handle_move handle_move_mm handle_calibrate_mm handle_position handle_position_mm
      handle_status handle_object_detection handle_disconnect
  rpc_handlers =
      ("gripper.activate", handle_activate)
      ∷ ("gripper.start", handle_start)
      ∷ ("gripper.reset", handle_reset)
      ∷ ("gripper.stop", handle_stop)
      ∷ ("gripper.open", handle_open)
      ∷ ("gripper.close", handle_close)
      ∷ ("gripper.move", handle_move)
      ∷ ("gripper.move_mm", handle_move_mm)
      ∷ ("gripper.calibrate_mm", handle_calibrate_mm)
      ∷ ("gripper.position", handle_position)
      ∷ ("gripper.position_mm", handle_position_mm)
      ∷ ("gripper.status", handle_status)
      ∷ ("gripper.object_detection", handle_object_detection)
      ∷ ("gripper.disconnect", handle_disconnect)
      ∷ []

  unfoldable pub handled : Option Handler → String → Handler
  handled none name p = lift (error not_implemented_error name)
  handled (some handler) name p = handler p

  -- `_dispatch`: a list or a dict is no key.
  unfoldable pub dispatch : Value → Value → Exec (GripperState D) Value
  unfolding handled rpc_handlers shown
  dispatch (str name) params = handled (lookup name rpc_handlers) name params
  dispatch (list xs) params = lift (error type_error "unhashable type: 'list'")
  dispatch (dict d) params = lift (error type_error "unhashable type: 'dict'")
  dispatch name params = lift (error not_implemented_error (shown name))

  -- `serve_once`
  unfoldable pub serve_once : (C : Codec) → C.Bytes → Exec (GripperState D) C.Bytes
  unfolding dispatch
  serve_once C raw = Rpc.serve_once dispatch C raw
