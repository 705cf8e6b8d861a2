-- ===== src/Client/Refines.antt =====
-- The client on the robot server (zmq_client.py on zmq_server.py).
use zero_franky.Base.{ℕ, String, ◌≡◌, refl, ap, Bool, true, Option, none, some}
use zero_franky.Base.Dict.{lookup}
use zero_franky.Python.Errors.{Result, ok}
use zero_franky.Python.Values.{
  lookup as fields_lookup, Value, Fields, null, bool, str, dict, field, end,
}
use zero_franky.Python.Attributes.{FloatOps, get_or, truthy}
use zero_franky.Python.Exec.{Exec, pure, ◌>>=◌}
use zero_franky.Protocol.Motions.{encode_motion}
use zero_franky.Rpc.Codec.{Codec, Survives}
use zero_franky.Rpc.Client.{Link, Socket, call}
use zero_franky.Rpc.Outcome.{request_of, or_empty}
use zero_franky.Rpc.Params.{option, required, with_key, with_found}
use zero_franky.Rpc.Exchange.{served, relayed, with_socket, idle, answer, call-relayed}
use zero_franky.Session.Hardware.{Hardware}
use zero_franky.Session.Merge.{Numpy}
use zero_franky.Manager.State.{ManagerState, stop_tracker}
use zero_franky.Server.Handlers.{given, stop_by_key, handle_tracker_stop}
use zero_franky.Server.Dispatch.{rpc_handlers, handled, dispatch}
use zero_franky.Client.Trackers as Tracker

module _ ⦃ops : FloatOps⦄ (N : Numpy) (H : Hardware) (C : Codec)
    (fresh : ManagerState H → String × ManagerState H) where
  abbrev pub Server : Link (ManagerState H)
  Server = served C fresh (dispatch N H)

  abbrev pub as_bool : Exec (ManagerState H) Bool → Exec (ManagerState H) Value
  as_bool m = m >>= λ b. pure (bool b)

  -- What the server is asked to do, once the request's id is drawn
  abbrev pub stopping : String → Value → Option Value → Exec (ManagerState H) Value
  stopping id join_timeout p x = as_bool (stop_tracker H id join_timeout p) (fresh x).1

  abbrev pub stop_params : String → Value → Fields → Value
  stop_params id join_timeout entry =
      dict (field "session_id" (str id) (field "join_timeout" join_timeout entry))

  sent_stop :
      (n t : ℕ) (id : String) (join_timeout : Value) (entry : Fields) (p : Option Value)
      (x : ManagerState H)
      → Survives C (request_of (fresh x).0 "tracker.stop" (stop_params id join_timeout entry))
      → given (get_or (fields_lookup "stop_motion" entry) null) ≡ p
      → Survives C (answer (fresh x).0 (stopping id join_timeout p x).0)
      → call Server "tracker.stop" (stop_params id join_timeout entry) (some t) (idle n, x)
        ≡ with_socket n (relayed "tracker.stop" (stopping id join_timeout p x))
  unfolding dispatch rpc_handlers handled lookup handle_tracker_stop stop_by_key given required
      with_key with_found option get_or or_empty truthy
  sent_stop n t id join_timeout entry p x sent e received =
      call-relayed C fresh (dispatch N H) (some t) n "tracker.stop" _ x
        (stopping id join_timeout p x) sent (ap (λ q. stopping id join_timeout q x) e) received

  -- A proxy whose stop has been asked for
  abbrev pub as_stopped :
      Result Value × (Socket × ManagerState H) → Result Value × (Bool × (Socket × ManagerState H))
  as_stopped (r, x) = (r, (true, x))

  -- The stop of a tracker by a client, with no motion or with one that is encoded as a dict, whose request
  -- and response msgpack carries, comes to the manager's stop of that session, with the motion's payload
  -- if there is one. What that raises is an RpcError. The proxy is stopped in each case.
  pub stop-relayed :
      (b : Bool) (n t : ℕ) (id : String) (join_timeout motion : Value) (payload : Fields)
      (x : ManagerState H)
      → encode_motion motion ≡ ok (dict payload)
      → Survives C (request_of (fresh x).0 "tracker.stop" (stop_params id join_timeout end))
      → Survives C (answer (fresh x).0 (stopping id join_timeout none x).0)
      → Survives C (
          request_of
            (fresh x).0
            "tracker.stop"
            (stop_params id join_timeout (field "stop_motion" (dict payload) end)))
      → Survives C (answer (fresh x).0 (stopping id join_timeout (some (dict payload)) x).0)
      → (Tracker.stop Server none (str id) none join_timeout t (b, (idle n, x))
          ≡ as_stopped (with_socket n (relayed "tracker.stop" (stopping id join_timeout none x))))
        × (Tracker.stop Server none (str id) (some motion) join_timeout t (b, (idle n, x))
            ≡ as_stopped (
                with_socket n
                  (relayed "tracker.stop" (stopping id join_timeout (some (dict payload)) x))))
  unfolding Tracker.stop Tracker.send_stop Tracker.stop_motion_entry given get_or
  stop-relayed b n t id join_timeout motion payload x encoded sent received sent' received' = (
    ap as_stopped (sent_stop n t id join_timeout end none x sent refl received),
    rw encoded (
        ap as_stopped (
          sent_stop n t id join_timeout (field "stop_motion" (dict payload) end)
            (some (dict payload)) x sent' refl received')),
  )
