-- ===== src/Client/Trackers.antt =====
-- The client's handles on trackers (_TrackerProxy and its classes in zmq_client.py).
use zero_franky.Base.{
  ℕ, String, Bool, true, false, not, ◌&&◌, Option, none, some, [], ◌∷◌, if◌then◌else◌,
}
use zero_franky.Python.Errors.{Result, ok, raise, value_error}
use zero_franky.Python.Values.{Value, null, bool, str, dict, dict_of, Fields, field, end, lookup}
use zero_franky.Python.Attributes.{FloatOps, is_none, truthy, get_or}
use zero_franky.Python.Exec.{Exec, pure, lift, fail, ◌>>=◌, ◌>>◌}
use zero_franky.Protocol.RpcValue.{encode_rpc_value}
use zero_franky.Protocol.Scalars.{encode_affine}
use zero_franky.Protocol.Targets.{encode_robot_velocity, encode_twist_acceleration}
use zero_franky.Protocol.Motions.{encode_motion}
use zero_franky.Rpc.Client.{Link, Socket, call}
use zero_franky.Client.Gains.{joint_gains_of, cartesian_gains_payload, nullspace_payload}

-- The timeout of a stop, which waits for the arm to come to rest, in ms
abbrev pub stop_timeout_ms : ℕ
stop_timeout_ms = 30000

-- `bool(status.get("running", False)) if isinstance(status, dict) else False`
unfoldable pub is_running_of : Value → Bool
unfolding truthy get_or
is_running_of (dict d) = truthy (get_or (lookup "running" d) (bool false))
is_running_of _ = false

-- `None` stays `None`
unfoldable pub unless_none : (Value → Result Value) → Value → Result Value
unless_none encode null = ok null
unless_none encode v = encode v

module _ {S : Type 0} ⦃ops : FloatOps⦄ (L : Link S) (push : Option (Value → Exec S Value)) where
  abbrev pub ClientState : Type 0
  ClientState = Socket × S

  abbrev rpc : String → Value → Exec ClientState Value
  rpc name params = call L name params none

  abbrev about : Value → Value
  about id = dict_of (("session_id", id) ∷ [])

  unfoldable pub status : Value → Exec ClientState Value
  status id = rpc "tracker.status" (about id)

  -- The proxy's `_stopped`, with the client
  abbrev pub ProxyState : Type 0
  ProxyState = Bool × ClientState

  -- `is_running`: a tracker that this client stopped costs no request.
  unfoldable pub is_running : Value → Exec ProxyState Bool
  unfolding status is_running_of
  is_running id (true, x) = (ok false, (true, x))
  is_running id (false, x) =
      let (r, y) = (status id >>= λ s. pure (is_running_of s)) x in (r, (false, y))

  -- The entry of a stop motion in the parameters, if there is one
  unfoldable pub stop_motion_entry : Option Value → Result Fields
  stop_motion_entry none = ok end
  stop_motion_entry (some motion) = entry (encode_motion motion)
    where
      entry : Result Value → Result Fields
      entry (ok v) = ok (field "stop_motion" v end)
      entry (raise e) = raise e

  -- The request of `stop`
  unfoldable pub send_stop : Value → Option Value → Value → ℕ → Exec ClientState Value
  unfolding stop_motion_entry
  send_stop id stop_motion join_timeout rpc_timeout_ms = do
    entry ← lift (stop_motion_entry stop_motion)
    call L "tracker.stop" (dict (field "session_id" id (field "join_timeout" join_timeout entry)))
        (some rpc_timeout_ms)

  -- `stop`: the proxy is stopped whatever comes of the request.
  unfoldable pub stop : Value → Option Value → Value → ℕ → Exec ProxyState Value
  unfolding send_stop
  stop id stop_motion join_timeout rpc_timeout_ms (stopped, x) =
      let (r, y) = send_stop id stop_motion join_timeout rpc_timeout_ms x in (r, (true, y))

  -- `_send_reference`: pushed, with the kind, where there is a socket for it, and a request otherwise
  unfoldable pub send_reference : String → String → Value → Fields → Exec ClientState Value
  send_reference kind name id payload = sent push
    where
      sent : Option (Value → Exec S Value) → Exec ClientState Value
      sent none = rpc name (dict (field "session_id" id payload))
      sent (some send) =
          let message : Value = dict (field "session_id" id (field "kind" (str kind) payload)) in
          (λ x. ((send message x.1).0, (x.0, (send message x.1).1))) >> pure null

  unfoldable pub set_joint_target : Value → Value → Value → Value → Exec ClientState Value
  unfolding encode_rpc_value send_reference
  set_joint_target id q dq tau_ff = do
    position ← lift (encode_rpc_value q)
    velocity ← lift (encode_rpc_value dq)
    torque ← lift (encode_rpc_value tau_ff)
    send_reference "joint" "tracker.set_joint_reference" id (
        field "position" position
          (field "velocity" velocity (field "torque_feedforward" torque end)))

  unfoldable pub set_cartesian_target : Value → Value → Value → Value → Exec ClientState Value
  unfolding encode_affine encode_robot_velocity encode_twist_acceleration unless_none send_reference
  set_cartesian_target id pose twist acceleration = do
    target ← lift (encode_affine pose)
    target_twist ← lift (unless_none encode_robot_velocity twist)
    target_acceleration ← lift (unless_none encode_twist_acceleration acceleration)
    send_reference "cartesian" "tracker.set_cartesian_reference" id (
        field "target" target
          (field "target_twist" target_twist (field "target_acceleration" target_acceleration end)))

  unfoldable pub set_torque : Value → Value → Exec ClientState Value
  unfolding encode_rpc_value send_reference
  set_torque id torque = do
    t ← lift (encode_rpc_value torque)
    send_reference "torque" "tracker.set_torque" id (field "torque" t end)

  unfoldable pub get_torque : Value → Exec ClientState Value
  get_torque id = rpc "tracker.get_torque" (about id)

  unfoldable pub send_joint_gains : Value → Option (Value × Value) → Exec ClientState Value
  unfolding encode_rpc_value
  send_joint_gains id none = pure null
  send_joint_gains id (some (stiffness, damping)) = do
    k ← lift (encode_rpc_value stiffness)
    d ← lift (encode_rpc_value damping)
    rpc "tracker.set_joint_gains"
        (dict_of (("session_id", id) ∷ ("stiffness", k) ∷ ("damping", d) ∷ []))

  -- `set_gains` of a joint tracker
  unfoldable pub set_joint_gains : Value → Value → Value → Value → Exec ClientState Value
  unfolding joint_gains_of send_joint_gains
  set_joint_gains id gains stiffness damping =
      lift (joint_gains_of gains stiffness damping) >>= send_joint_gains id

  -- A request with a gains payload, if there is one
  unfoldable pub send_gains : String → Value → Option Value → Exec ClientState Value
  send_gains name id none = pure null
  send_gains name id (some payload) =
      rpc name (dict_of (("session_id", id) ∷ ("gains", payload) ∷ []))

  -- `set_cartesian_gains` of a joint tracker
  unfoldable pub set_cartesian_gains :
      Value → Value → Value → Value → Value → Exec ClientState Value
  unfolding cartesian_gains_payload send_gains
  set_cartesian_gains id gains translational_stiffness rotational_stiffness damping =
      lift (cartesian_gains_payload gains translational_stiffness rotational_stiffness damping)
      >>= send_gains "tracker.set_joint_cartesian_gains" id

  unfoldable pub set_nullspace_gains :
      Value → Value → Value → Value → Value → Value → Value → Value → Exec ClientState Value
  unfolding nullspace_payload send_gains
  set_nullspace_gains id gains stiffness damping max_torque gain gain_damping gain_max_torque = do
    payload ←
        lift
          (nullspace_payload gains stiffness damping max_torque gain gain_damping gain_max_torque)
    send_gains "tracker.set_nullspace_gains" id (some payload)

  unfoldable pub set_posture_stiffness : Value → Value → Exec ClientState Value
  unfolding encode_rpc_value
  set_posture_stiffness id posture_stiffness = do
    k ← lift (encode_rpc_value posture_stiffness)
    rpc "tracker.set_posture_stiffness"
        (dict_of (("session_id", id) ∷ ("posture_stiffness", k) ∷ []))

  -- The second part of `set_gains`: whichever of the two nullspace arguments is given
  unfoldable pub set_nullspace_or_posture : Value → Value → Value → Exec ClientState Value
  unfolding set_nullspace_gains set_posture_stiffness is_none
  set_nullspace_or_posture id nullspace_gains posture_stiffness x =
      if not (is_none nullspace_gains)
      then set_nullspace_gains id nullspace_gains null null null null null null x
      else if not (is_none posture_stiffness)
      then set_posture_stiffness id posture_stiffness x
      else pure null x

  -- `set_gains` of a Cartesian tracker
  unfoldable pub set_gains :
      Value → Value → Value → Value → Value → Value → Value → Exec ClientState Value
  unfolding cartesian_gains_payload send_gains set_nullspace_or_posture is_none
  set_gains id gains translational_stiffness rotational_stiffness damping posture_stiffness
        nullspace_gains x =
      if not (is_none nullspace_gains) && not (is_none posture_stiffness)
      then fail
          (record {
            cls = value_error;
            message = "Pass either nullspace_gains or posture_stiffness, not both";
          })
          x
      else (do
        payload ←
            lift
              (cartesian_gains_payload gains translational_stiffness rotational_stiffness damping)
        send_gains "tracker.set_cartesian_gains" id payload
        set_nullspace_or_posture id nullspace_gains posture_stiffness
        pure null)
          x
