-- ===== src/Gripper/Keeps.antt =====
-- What a request leaves of the gripper's manager (robotiq.py).
use zero_franky.Base.{String, refl, Option, none, some, [], ◌∷◌, ◌==◌, Bool-cases, inl, inr}
use zero_franky.Base.Dict.{Dict, lookup}
use zero_franky.Python.Errors.{Result, ok}
use zero_franky.Python.Values.{
  Value, Fields, null, bool, int, float, str, bytes, list, dict, object, method,
  lookup as lookup_field,
}
use zero_franky.Python.Exec.{Exec, pure, lift, ◌>>=◌, ◌>>◌}
use zero_franky.Python.Exec.Keeps.{Moves}
use zero_franky.Rpc.Params.{with_params, with_found, with_key, required}
use zero_franky.Gripper.Device.{Device}
use zero_franky.Gripper.Manager.State as Manager
use zero_franky.Gripper.Manager.State.{GripperState}
use zero_franky.Gripper.Manager.Lock.{
  Restores, Restores-reading, Restores-commanded, Restores-silent,
}
use zero_franky.Gripper.Server.{
  Handler, handle_activate, handle_start, handle_reset, handle_stop, handle_open, handle_close,
  handle_move, handle_move_mm, handle_calibrate_mm, handle_position, handle_position_mm,
  handle_status, handle_object_detection, handle_disconnect, rpc_handlers, handled, dispatch,
}

module _ (D : Device) where
  record Kept (m : Exec (GripperState D) Value) : Type 0 where
    keeps : Moves (Restores D) m

  unchanged : (r : Result Value) → Kept (lift r)
  unchanged r = record { keeps = λ x free. refl }

  kept_params :
      (p : Value) (f : Fields → Exec (GripperState D) Value)
      → ((d : Fields) → Kept (f d))
      → Kept (with_params p f)
  unfolding with_params
  kept_params (dict d) f h = h d
  kept_params null f h = unchanged _
  kept_params (bool b) f h = unchanged _
  kept_params (int n) f h = unchanged _
  kept_params (float x) f h = unchanged _
  kept_params (str s) f h = unchanged _
  kept_params (bytes b) f h = unchanged _
  kept_params (list xs) f h = unchanged _
  kept_params (object c attrs) f h = unchanged _
  kept_params (method v) f h = unchanged _

  kept_found :
      (o : Option Value) (key : String) (f : Value → Exec (GripperState D) Value)
      → ((v : Value) → Kept (f v))
      → Kept (with_found o key f)
  unfolding with_found
  kept_found (some v) key f h = h v
  kept_found none key f h = unchanged _

  kept_required :
      (p : Value) (key : String) (f : Value → Fields → Exec (GripperState D) Value)
      → ((v : Value) (d : Fields) → Kept (f v d))
      → Kept (required p key f)
  unfolding required with_key
  kept_required (dict d) key f h = kept_found (lookup_field key d) key (λ v. f v d) (λ v. h v d)
  kept_required null key f h = unchanged _
  kept_required (bool b) key f h = unchanged _
  kept_required (int n) key f h = unchanged _
  kept_required (float x) key f h = unchanged _
  kept_required (str s) key f h = unchanged _
  kept_required (bytes b) key f h = unchanged _
  kept_required (list xs) key f h = unchanged _
  kept_required (object c attrs) key f h = unchanged _
  kept_required (method v) key f h = unchanged _

  silent : {m : Exec (GripperState D) Value} → Kept m → Kept (m >> pure null)
  silent {m} h = record { keeps = Restores-silent D m h.keeps }

  commands : (m : Exec D.World Value) → Kept (Manager.commanded D m)
  commands m = record { keeps = Restores-commanded D m }

  reads : (m : Exec D.World Value) → Kept (Manager.reading D m)
  reads m = record { keeps = Restores-reading D m }

  kept_activate : (a b c : Value) → Kept (Manager.activate D a b c)
  unfolding Manager.activate
  kept_activate a b c = commands (D.activate a b c)

  kept_start : (a : Value) → Kept (Manager.start D a)
  unfolding Manager.start
  kept_start a = commands (D.start a)

  kept_reset : Kept (Manager.reset D)
  unfolding Manager.reset
  kept_reset = silent (reads D.reset)

  kept_stop : Kept (Manager.stop D)
  unfolding Manager.stop
  kept_stop = silent (reads D.stop)

  kept_open_gripper : (a b c d e : Value) → Kept (Manager.open_gripper D a b c d e)
  unfolding Manager.open_gripper
  kept_open_gripper a b c d e = commands (D.open_gripper a b c d e)

  kept_close : (a b c d e : Value) → Kept (Manager.close D a b c d e)
  unfolding Manager.close
  kept_close a b c d e = commands (D.close a b c d e)

  kept_move : (a b c d e f : Value) → Kept (Manager.move D a b c d e f)
  unfolding Manager.move
  kept_move a b c d e f = commands (D.move a b c d e f)

  kept_move_mm : (a b c d e f : Value) → Kept (Manager.move_mm D a b c d e f)
  unfolding Manager.move_mm
  kept_move_mm a b c d e f = commands (D.move_mm a b c d e f)

  kept_calibrate_mm : (a b : Value) → Kept (Manager.calibrate_mm D a b)
  unfolding Manager.calibrate_mm
  kept_calibrate_mm a b = silent (reads (D.calibrate_mm a b))

  kept_position : (a : Value) → Kept (Manager.position D a)
  unfolding Manager.position
  kept_position a = reads (D.position a)

  kept_position_mm : (a : Value) → Kept (Manager.position_mm D a)
  unfolding Manager.position_mm
  kept_position_mm a = reads (D.position_mm a)

  kept_status : (a : Value) → Kept (Manager.status D a)
  unfolding Manager.status
  kept_status a = reads (D.status a >>= λ d. pure (dict d))

  kept_object_detection : (a : Value) → Kept (Manager.object_detection D a)
  unfolding Manager.object_detection
  kept_object_detection a = reads (D.object_detection a)

  abbrev AllKept : Dict (Handler D) → Type 0
  AllKept [] = Unit
  AllKept ((name, h) ∷ hs) = ((p : Value) → Kept (h p)) × AllKept hs

  all_kept : AllKept (rpc_handlers D)
  unfolding rpc_handlers handle_activate handle_start handle_reset handle_stop handle_open
      handle_close handle_move handle_move_mm handle_calibrate_mm handle_position handle_position_mm
      handle_status handle_object_detection handle_disconnect
  all_kept = (
    λ p. kept_params p _ (λ d. kept_activate _ _ _),
    (
      λ p. kept_params p _ (λ d. kept_start _),
      (
        λ p. kept_reset,
        (
          λ p. kept_stop,
          (
            λ p. kept_params p _ (λ d. kept_open_gripper _ _ _ _ _),
            (
              λ p. kept_params p _ (λ d. kept_close _ _ _ _ _),
              (
                λ p. kept_required p _ _ (λ v d. kept_move _ _ _ _ _ _),
                (
                  λ p. kept_required p _ _ (λ v d. kept_move_mm _ _ _ _ _ _),
                  (
                    λ p. kept_params p _ (λ d. kept_calibrate_mm _ _),
                    (
                      λ p. kept_params p _ (λ d. kept_position _),
                      (
                        λ p. kept_params p _ (λ d. kept_position_mm _),
                        (
                          λ p. kept_params p _ (λ d. kept_status _),
                          (
                            λ p. kept_params p _ (λ d. kept_object_detection _),
                            (λ p. unchanged (ok null), tt),
                          ),
                        ),
                      ),
                    ),
                  ),
                ),
              ),
            ),
          ),
        ),
      ),
    ),
  )

  kept_handled :
      (hs : Dict (Handler D)) (key name : String) (p : Value)
      → AllKept hs
      → Kept (handled D (lookup key hs) name p)
  unfolding handled lookup
  kept_handled [] key name p all = unchanged _
  kept_handled ((j, h) ∷ hs) key name p (first, rest) = elim (Bool-cases (j == key)) [
    | inl same ↦ rw same (first p)
    | inr other ↦ rw other (kept_handled hs key name p rest)
  ]

  kept_dispatch : (name params : Value) → Kept (dispatch D name params)
  unfolding dispatch
  kept_dispatch (str s) params = kept_handled (rpc_handlers D) s s params all_kept
  kept_dispatch null params = unchanged _
  kept_dispatch (bool b) params = unchanged _
  kept_dispatch (int n) params = unchanged _
  kept_dispatch (float x) params = unchanged _
  kept_dispatch (bytes b) params = unchanged _
  kept_dispatch (list xs) params = unchanged _
  kept_dispatch (dict d) params = unchanged _
  kept_dispatch (object c attrs) params = unchanged _
  kept_dispatch (method v) params = unchanged _

  -- Every request, also one for a client's disconnection, and whatever it raises, leaves the manager's
  -- lock free, its publisher and its polling thread as they were.
  pub dispatch-Restores : (name params : Value) → Moves (Restores D) (dispatch D name params)
  dispatch-Restores name params = (kept_dispatch name params).keeps
