-- ===== src/Server/Updates.antt =====
-- The references that a client pushes (_TrackerUpdateListener in zmq_server.py).
use zero_franky.Base.{String, ◌≡◌, refl, ◌==◌, if◌then◌else◌}
use zero_franky.Python.Errors.{Result, ok, raise}
use zero_franky.Python.Values.{Value, Fields, null, str, dict, field}
use zero_franky.Python.Attributes.{FloatOps, get, get_or}
use zero_franky.Python.Exec.{Exec, pure, lift, ◌>>◌, catch}
use zero_franky.Rpc.Params.{option, required, with_key, with_result}
use zero_franky.Session.Hardware.{Hardware}
use zero_franky.Session.Merge.{Numpy}
use zero_franky.Manager.State.{ManagerState}
use zero_franky.Manager.Setters as Setters
use zero_franky.Server.Handlers.{
  a_session, set_cartesian_by_key, handle_tracker_set_joint_reference,
  handle_tracker_set_cartesian_reference, handle_tracker_set_torque,
}

module _ ⦃ops : FloatOps⦄ (N : Numpy) (H : Hardware) where
  -- The reference of an update, for its kind; an unknown kind is ignored.
  unfoldable pub apply_kind : Value → Value → Fields → Exec (ManagerState H) Value
  unfolding with_key with_result option set_cartesian_by_key
  apply_kind (str kind) session_id d =
      if kind == "joint"
      then with_key d "position" (λ position. with_result (a_session session_id) (λ id.
        Setters.set_joint_tracker_reference H id position (option d "velocity" null)
          (option d "torque_feedforward" null)))
      else if kind == "cartesian"
      then with_key d "target" (λ target.
        set_cartesian_by_key N H session_id target (option d "target_twist" null)
          (option d "target_acceleration" null))
      else if kind == "torque"
      then with_key d "torque" (λ torque.
        with_result (a_session session_id) (λ id. Setters.set_session_torque H id torque))
      else pure null
  apply_kind kind session_id d = pure null

  -- One message of the listener's loop: what its reference raises is dropped. What is no dict raises.
  unfoldable pub apply_update : Value → Exec (ManagerState H) Value
  unfolding apply_kind get option
  apply_update (dict d) =
      catch (apply_kind (option d "kind" null) (option d "session_id" null) d >> pure null)
        (λ e. pure null)
  apply_update msg = lift (get msg "session_id" null)

  -- The message of a client's `_send_reference`, pushed and as a request's parameters
  abbrev pub pushed : String → String → Fields → Value
  pushed kind id payload = dict (field "session_id" (str id) (field "kind" (str kind) payload))

  abbrev pub asked : String → Fields → Value
  asked id payload = dict (field "session_id" (str id) payload)

  dropped :
      (m : Exec (ManagerState H) Value) (x : ManagerState H)
      → catch (m >> pure null) (λ e. pure null) x ≡ (ok null, (m x).1)
  dropped m x = go (m x).0 (m x).1
    where
      go :
          (r : Result Value) (t : ManagerState H)
          → catch ((λ (u : ManagerState H). (r, t)) >> pure null) (λ e. pure null) x ≡ (ok null, t)
      go (ok v) t = refl
      go (raise e) t = refl

  -- A reference that is pushed does to the server what the same reference does as a request, for each kind
  -- of tracker, but what it raises is dropped.
  pub apply_update-pushed :
      (id : String) (payload : Fields) (x : ManagerState H)
      → (apply_update (pushed "joint" id payload) x
          ≡ (ok null, (handle_tracker_set_joint_reference N H (asked id payload) x).1))
        × (apply_update (pushed "cartesian" id payload) x
            ≡ (ok null, (handle_tracker_set_cartesian_reference N H (asked id payload) x).1))
        × (apply_update (pushed "torque" id payload) x
            ≡ (ok null, (handle_tracker_set_torque N H (asked id payload) x).1))
  unfolding apply_update apply_kind option get_or required handle_tracker_set_joint_reference
      handle_tracker_set_cartesian_reference handle_tracker_set_torque with_key
  apply_update-pushed id payload x = (
    dropped (handle_tracker_set_joint_reference N H (asked id payload)) x,
    dropped (handle_tracker_set_cartesian_reference N H (asked id payload)) x,
    dropped (handle_tracker_set_torque N H (asked id payload)) x,
  )
