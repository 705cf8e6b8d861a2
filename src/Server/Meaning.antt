-- ===== src/Server/Meaning.antt =====
-- What the requests of the robot server mean: each against the manager's operation (zmq_server.py).
use zero_franky.Base.{String, List, ◌≡◌, refl, Bool, Option, none, some, [], ◌∷◌}
use zero_franky.Base.Dict.{lookup}
use zero_franky.Python.Values.{Value, Fields, bool, str, dict, dict_of}
use zero_franky.Python.Attributes.{FloatOps, truthy}
use zero_franky.Python.Exec.{Exec, pure, ◌>>=◌}
use zero_franky.Rpc.Params.{option, with_result, with_key, with_found, required}
use zero_franky.Session.Hardware.{Hardware}
use zero_franky.Session.Merge.{Numpy}
use zero_franky.Manager.State.{ManagerState, tracker_status, stop_tracker}
use zero_franky.Manager.Trackers as Trackers
use zero_franky.Manager.Trackers.{joint_tracker, cartesian_tracker}
use zero_franky.Manager.Setters as Setters
use zero_franky.Server.Handlers.{
  as_text, as_dict, given, text_key, host_name, state_key, status_of, stop_by_key, start_handler,
  handle_robot_create, handle_robot_recover_from_errors, handle_robot_join_motion,
  handle_robot_poll_motion, handle_robot_stop, handle_robot_get_last_teleop_state,
  handle_robot_start_joint_tracker, handle_robot_start_cartesian_tracker,
  handle_robot_start_torque_tracker, handle_tracker_status, handle_tracker_stop,
  handle_tracker_set_joint_reference, handle_tracker_set_joint_gains,
  handle_tracker_set_cartesian_gains, handle_tracker_set_joint_cartesian_gains,
  handle_tracker_set_posture_stiffness, handle_tracker_set_torque, handle_tracker_get_torque,
}
use zero_franky.Server.Dispatch.{rpc_handlers, handled, dispatch}

-- A request on a robot or on a session, by its id, with all parameters of its method
pub data Request : Type 0 where
  creating : String → Value → Request
  recovering polling stopping teleoperating : String → Request
  joining : String → Value → Request
  starting_torque : String → Value → Request
  starting_joint starting_cartesian : String → Fields → Value → Value → Bool → Request
  asking_status : String → Request
  stopping_tracker : String → Value → Option Fields → Request
  referring_joint : String → Value → Value → Value → Request
  tuning_joint : String → Value → Value → Request
  tuning_cartesian tuning_hybrid stiffening : String → Value → Request
  twisting : String → Value → Request
  asking_torque : String → Request

-- The method's name
unfoldable pub method_of : Request → String
method_of (creating host kwargs) = "robot.create"
method_of (recovering id) = "robot.recover_from_errors"
method_of (polling id) = "robot.poll_motion"
method_of (stopping id) = "robot.stop"
method_of (teleoperating id) = "robot.get_last_teleop_state"
method_of (joining id timeout) = "robot.join_motion"
method_of (starting_torque id kwargs) = "robot.start_torque_tracker"
method_of (starting_joint id policy kwargs period b) = "robot.start_joint_tracker"
method_of (starting_cartesian id policy kwargs period b) = "robot.start_cartesian_tracker"
method_of (asking_status id) = "tracker.status"
method_of (stopping_tracker id timeout motion) = "tracker.stop"
method_of (referring_joint id q dq tau) = "tracker.set_joint_reference"
method_of (tuning_joint id stiffness damping) = "tracker.set_joint_gains"
method_of (tuning_cartesian id gains) = "tracker.set_cartesian_gains"
method_of (tuning_hybrid id gains) = "tracker.set_joint_cartesian_gains"
method_of (stiffening id stiffness) = "tracker.set_posture_stiffness"
method_of (twisting id torque) = "tracker.set_torque"
method_of (asking_torque id) = "tracker.get_torque"

abbrev on_robot : String → List (String × Value) → Value
on_robot id rest = dict_of (("robot_id", str id) ∷ rest)

abbrev on_tracker : String → List (String × Value) → Value
on_tracker id rest = dict_of (("session_id", str id) ∷ rest)

abbrev policy_entries : Fields → Value → Value → Bool → List (String × Value)
policy_entries policy kwargs period b =
    ("policy", dict policy)
    ∷ ("motion_kwargs", kwargs)
    ∷ ("period", period)
    ∷ ("stop_on_policy_error", bool b)
    ∷ []

-- The parameters on the wire
unfoldable pub params_of : Request → Value
params_of (creating host kwargs) = dict_of (("fci_hostname", str host) ∷ ("kwargs", kwargs) ∷ [])
params_of (recovering id) = on_robot id []
params_of (polling id) = on_robot id []
params_of (stopping id) = on_robot id []
params_of (teleoperating id) = on_robot id []
params_of (joining id timeout) = on_robot id (("timeout", timeout) ∷ [])
params_of (starting_torque id kwargs) = on_robot id (("motion_kwargs", kwargs) ∷ [])
params_of (starting_joint id policy kwargs period b) =
    on_robot id (policy_entries policy kwargs period b)
params_of (starting_cartesian id policy kwargs period b) =
    on_robot id (policy_entries policy kwargs period b)
params_of (asking_status id) = on_tracker id []
params_of (stopping_tracker id timeout none) = on_tracker id (("join_timeout", timeout) ∷ [])
params_of (stopping_tracker id timeout (some motion)) =
    on_tracker id (("join_timeout", timeout) ∷ ("stop_motion", dict motion) ∷ [])
params_of (referring_joint id q dq tau) =
    on_tracker id (("position", q) ∷ ("velocity", dq) ∷ ("torque_feedforward", tau) ∷ [])
params_of (tuning_joint id stiffness damping) =
    on_tracker id (("stiffness", stiffness) ∷ ("damping", damping) ∷ [])
params_of (tuning_cartesian id gains) = on_tracker id (("gains", gains) ∷ [])
params_of (tuning_hybrid id gains) = on_tracker id (("gains", gains) ∷ [])
params_of (stiffening id stiffness) = on_tracker id (("posture_stiffness", stiffness) ∷ [])
params_of (twisting id torque) = on_tracker id (("torque", torque) ∷ [])
params_of (asking_torque id) = on_tracker id []

module _ ⦃ops : FloatOps⦄ (N : Numpy) (H : Hardware) where
  abbrev Act : Type 0
  Act = Exec (ManagerState H) Value

  abbrev named : Exec (ManagerState H) String → Act
  named m = m >>= λ id. pure (str id)

  -- A payload of a stop motion is a dict
  abbrev payload_of : Option Fields → Option Value
  payload_of none = none
  payload_of (some d) = some (dict d)

  -- The manager's operation
  unfoldable pub meaning : Request → Act
  meaning (creating host kwargs) = named (Trackers.create_robot H host kwargs)
  meaning (recovering id) = Trackers.recover_from_errors H id
  meaning (polling id) = Trackers.poll_motion H id
  meaning (stopping id) = Trackers.stop H id
  meaning (teleoperating id) = Trackers.get_last_teleop_state H id
  meaning (joining id timeout) = Trackers.join_motion H id timeout
  meaning (starting_torque id kwargs) = named (Trackers.start_torque_tracker H id kwargs)
  meaning (starting_joint id policy kwargs period b) =
      named (Trackers.start_tracker H joint_tracker id (some (dict policy)) kwargs period b)
  meaning (starting_cartesian id policy kwargs period b) =
      named (Trackers.start_tracker H cartesian_tracker id (some (dict policy)) kwargs period b)
  meaning (asking_status id) = tracker_status H id >>= λ status. pure (as_dict status)
  meaning (stopping_tracker id timeout motion) =
      stop_tracker H id timeout (payload_of motion) >>= λ b. pure (bool b)
  meaning (referring_joint id q dq tau) = Setters.set_joint_tracker_reference H id q dq tau
  meaning (tuning_joint id stiffness damping) =
      Setters.set_joint_tracker_gains H id stiffness damping
  meaning (tuning_cartesian id gains) = Setters.set_cartesian_tracker_gains H N id gains
  meaning (tuning_hybrid id gains) = Setters.set_joint_tracker_cartesian_gains H N id gains
  meaning (stiffening id stiffness) = Setters.set_tracker_posture_stiffness H id stiffness
  meaning (twisting id torque) = Setters.set_session_torque H id torque
  meaning (asking_torque id) = Setters.get_session_torque H id

  -- The server's dispatch of each of these requests is the manager's operation with the request's
  -- parameters: its result as the client sees it, its exception and its effect.
  pub dispatch-meaning :
      (q : Request) (x : ManagerState H)
      → dispatch N H (str (method_of q)) (params_of q) x ≡ meaning q x
  unfolding dispatch rpc_handlers handled lookup required with_key with_found with_result option
      truthy given text_key host_name state_key status_of stop_by_key start_handler method_of
      params_of meaning handle_robot_create handle_robot_recover_from_errors
      handle_robot_join_motion handle_robot_poll_motion handle_robot_stop
      handle_robot_get_last_teleop_state handle_robot_start_joint_tracker
      handle_robot_start_cartesian_tracker handle_robot_start_torque_tracker handle_tracker_status
      handle_tracker_stop handle_tracker_set_joint_reference handle_tracker_set_joint_gains
      handle_tracker_set_cartesian_gains handle_tracker_set_joint_cartesian_gains
      handle_tracker_set_posture_stiffness handle_tracker_set_torque handle_tracker_get_torque
      as_text
  dispatch-meaning (creating host kwargs) x = refl
  dispatch-meaning (recovering id) x = refl
  dispatch-meaning (polling id) x = refl
  dispatch-meaning (stopping id) x = refl
  dispatch-meaning (teleoperating id) x = refl
  dispatch-meaning (joining id timeout) x = refl
  dispatch-meaning (starting_torque id kwargs) x = refl
  dispatch-meaning (starting_joint id policy kwargs period b) x = refl
  dispatch-meaning (starting_cartesian id policy kwargs period b) x = refl
  dispatch-meaning (asking_status id) x = refl
  dispatch-meaning (stopping_tracker id timeout none) x = refl
  dispatch-meaning (stopping_tracker id timeout (some motion)) x = refl
  dispatch-meaning (referring_joint id q dq tau) x = refl
  dispatch-meaning (tuning_joint id stiffness damping) x = refl
  dispatch-meaning (tuning_cartesian id gains) x = refl
  dispatch-meaning (tuning_hybrid id gains) x = refl
  dispatch-meaning (stiffening id stiffness) x = refl
  dispatch-meaning (twisting id torque) x = refl
  dispatch-meaning (asking_torque id) x = refl
