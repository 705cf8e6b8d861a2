-- ===== src/Server/Handlers.antt =====
-- The handlers of the robot server (`handle_…` in zmq_server.py). A handler reads its parameters from left
-- to right and calls the manager.
use zero_franky.Base.{String, true, false, Option, none, some, [], ◌∷◌}
use zero_franky.Base.Int.{pos}
use zero_franky.Python.Errors.{Result, ok, error, key_error, type_error, runtime_error}
use zero_franky.Python.Values.{Value, null, bool, int, str, list, dict, dict_of}
use zero_franky.Python.Attributes.{FloatOps, truthy}
use zero_franky.Python.Exec.{Exec, pure, lift, ◌>>=◌}
use zero_franky.Builders.Parts.{franky_affine, franky_twist_acceleration}
use zero_franky.Builders.Gains.{franky_nullspace_gains}
use zero_franky.Builders.Build.{build_franky_motion}
use zero_franky.Rpc.Params.{option, with_result, with_key, required}
use zero_franky.Session.Hardware.{Hardware}
use zero_franky.Session.State.{Status}
use zero_franky.Session.Merge.{Numpy}
use zero_franky.Manager.State.{ManagerState, tracker_status, stop_tracker}
use zero_franky.Manager.Trackers as Trackers
use zero_franky.Manager.Trackers.{Tracker, joint_tracker, cartesian_tracker, default_period}
use zero_franky.Manager.Setters as Setters

-- `TrackerSessionStatus.as_dict`
unfoldable pub text_or_none : Option String → Value
text_or_none none = null
text_or_none (some t) = str t

unfoldable pub as_dict : Status → Value
unfolding text_or_none
as_dict s = dict_of (
    ("id", str s.id)
    ∷ ("kind", str s.kind)
    ∷ ("mode", str s.mode)
    ∷ ("running", bool s.running)
    ∷ ("iterations", int (pos s.iterations))
    ∷ ("error", text_or_none s.failure)
    ∷ [])

-- `None`, or the value
unfoldable pub given : Value → Option Value
given null = none
given v = some v

-- A key of the manager's dicts: all of them are texts, so that any other value is not found, or is no key.
unfoldable pub text_key : String → Value → Result String
text_key what (str s) = ok s
text_key what (list xs) = error type_error "unhashable type: 'list'"
text_key what (dict d) = error type_error "unhashable type: 'dict'"
text_key what _ = error key_error what

-- franky's `Robot` takes a text for its host.
unfoldable pub host_name : Value → Result String
host_name (str s) = ok s
host_name _ = error type_error "incompatible constructor arguments"

abbrev pub a_robot : Value → Result String
a_robot = text_key "Unknown robot id: "

abbrev pub a_session : Value → Result String
a_session = text_key "Unknown tracker session id: "

module _ ⦃ops : FloatOps⦄ (N : Numpy) (H : Hardware) where
  abbrev pub Handler : Type 0
  Handler = Value → Exec (ManagerState H) Value

  unfoldable pub as_text : Exec (ManagerState H) String → Exec (ManagerState H) Value
  as_text m = m >>= λ id. pure (str id)

  unfoldable pub handle_robot_create : Handler
  unfolding as_text required option host_name
  handle_robot_create p = required p "fci_hostname" (λ host d.
      with_result (host_name host)
        (λ name. as_text (Trackers.create_robot H name (option d "kwargs" null))))

  unfoldable pub handle_robot_recover_from_errors : Handler
  unfolding required text_key
  handle_robot_recover_from_errors p =
      required p "robot_id"
        (λ robot_id d. with_result (a_robot robot_id) (λ id. Trackers.recover_from_errors H id))

  -- The manager builds the motion before it looks the robot up.
  unfoldable pub handle_robot_move : Handler
  unfolding required with_key option truthy text_key
  handle_robot_move p = required p "robot_id" (λ robot_id d. with_key d "motion" (λ motion.
      with_result (build_franky_motion H.franky motion) (λ _.
        with_result (a_robot robot_id)
          (λ id. Trackers.move H id motion (truthy (option d "asynchronous" (bool false)))))))

  unfoldable pub handle_robot_join_motion : Handler
  unfolding required option text_key
  handle_robot_join_motion p = required p "robot_id" (λ robot_id d.
      with_result (a_robot robot_id) (λ id. Trackers.join_motion H id (option d "timeout" null)))

  unfoldable pub handle_robot_poll_motion : Handler
  unfolding required text_key
  handle_robot_poll_motion p =
      required p "robot_id"
        (λ robot_id d. with_result (a_robot robot_id) (λ id. Trackers.poll_motion H id))

  unfoldable pub handle_robot_stop : Handler
  unfolding required text_key
  handle_robot_stop p =
      required p "robot_id"
        (λ robot_id d. with_result (a_robot robot_id) (λ id. Trackers.stop H id))

  -- A robot with no state is a RuntimeError, also one that cannot exist.
  unfoldable pub state_key : Value → Result String
  state_key (str s) = ok s
  state_key (list xs) = error type_error "unhashable type: 'list'"
  state_key (dict d) = error type_error "unhashable type: 'dict'"
  state_key _ = error runtime_error "No motion callback data has been received yet"

  unfoldable pub handle_robot_get_last_teleop_state : Handler
  unfolding required state_key
  handle_robot_get_last_teleop_state p =
      required p "robot_id"
        (λ robot_id d. with_result (state_key robot_id) (λ id. Trackers.get_last_teleop_state H id))

  unfoldable pub start_handler : Tracker → Handler
  unfolding as_text required option truthy given text_key
  start_handler tracker p = required p "robot_id" (λ robot_id d.
      with_result (a_robot robot_id) (λ id. as_text (
        Trackers.start_tracker H tracker id (given (option d "policy" null))
          (option d "motion_kwargs" null) (option d "period" default_period)
          (truthy (option d "stop_on_policy_error" (bool true))))))

  unfoldable pub handle_robot_start_joint_tracker : Handler
  unfolding start_handler
  handle_robot_start_joint_tracker = start_handler joint_tracker

  unfoldable pub handle_robot_start_cartesian_tracker : Handler
  unfolding start_handler
  handle_robot_start_cartesian_tracker = start_handler cartesian_tracker

  unfoldable pub handle_robot_start_torque_tracker : Handler
  unfolding as_text required option text_key
  handle_robot_start_torque_tracker p = required p "robot_id" (λ robot_id d.
      with_result (a_robot robot_id)
        (λ id. as_text (Trackers.start_torque_tracker H id (option d "motion_kwargs" null))))

  unfoldable pub status_of : String → Exec (ManagerState H) Value
  unfolding as_dict
  status_of id = tracker_status H id >>= λ status. pure (as_dict status)

  unfoldable pub handle_tracker_status : Handler
  unfolding required status_of text_key
  handle_tracker_status p =
      required p "session_id"
        (λ session_id d. with_result (a_session session_id) (λ id. status_of id))

  -- A session that is not there, under whatever key, is stopped already.
  unfoldable pub stop_by_key : Value → Value → Option Value → Exec (ManagerState H) Value
  stop_by_key (str id) join_timeout stop_motion =
      stop_tracker H id join_timeout stop_motion >>= λ b. pure (bool b)
  stop_by_key (list xs) join_timeout stop_motion = lift (error type_error "unhashable type: 'list'")
  stop_by_key (dict d) join_timeout stop_motion = lift (error type_error "unhashable type: 'dict'")
  stop_by_key _ join_timeout stop_motion = pure (bool true)

  unfoldable pub handle_tracker_stop : Handler
  unfolding required option given stop_by_key
  handle_tracker_stop p = required p "session_id" (λ session_id d.
      stop_by_key session_id (option d "join_timeout" null) (given (option d "stop_motion" null)))

  unfoldable pub handle_tracker_set_joint_reference : Handler
  unfolding required with_key option text_key
  handle_tracker_set_joint_reference p = required p "session_id" (λ session_id d.
      with_key d "position" (λ position. with_result (a_session session_id) (λ id.
        Setters.set_joint_tracker_reference H id position (option d "velocity" null)
          (option d "torque_feedforward" null))))

  -- The manager builds the target and the feedforward before it looks the session up.
  unfoldable pub set_cartesian_by_key : Value → Value → Value → Value → Exec (ManagerState H) Value
  unfolding text_key
  set_cartesian_by_key session_id target twist acceleration =
      with_result (franky_affine H.franky target) (λ _.
        with_result (Setters.robot_velocity_or_none H twist) (λ _.
          with_result (franky_twist_acceleration H.franky acceleration) (λ _.
            with_result (a_session session_id)
              (λ id. Setters.set_cartesian_tracker_reference H id target twist acceleration))))

  unfoldable pub handle_tracker_set_cartesian_reference : Handler
  unfolding required with_key option set_cartesian_by_key
  handle_tracker_set_cartesian_reference p = required p "session_id" (λ session_id d.
      with_key d "target" (λ target.
        set_cartesian_by_key session_id target (option d "target_twist" null)
          (option d "target_acceleration" null)))

  unfoldable pub handle_tracker_set_joint_gains : Handler
  unfolding required with_key text_key
  handle_tracker_set_joint_gains p = required p "session_id" (λ session_id d.
      with_key d "stiffness" (λ stiffness. with_key d "damping" (λ damping.
        with_result (a_session session_id)
          (λ id. Setters.set_joint_tracker_gains H id stiffness damping))))

  unfoldable pub handle_tracker_set_cartesian_gains : Handler
  unfolding required with_key text_key
  handle_tracker_set_cartesian_gains p = required p "session_id" (λ session_id d.
      with_key d "gains" (λ gains.
        with_result (a_session session_id)
          (λ id. Setters.set_cartesian_tracker_gains H N id gains)))

  unfoldable pub handle_tracker_set_joint_cartesian_gains : Handler
  unfolding required with_key text_key
  handle_tracker_set_joint_cartesian_gains p = required p "session_id" (λ session_id d.
      with_key d "gains" (λ gains.
        with_result (a_session session_id)
          (λ id. Setters.set_joint_tracker_cartesian_gains H N id gains)))

  unfoldable pub handle_tracker_set_posture_stiffness : Handler
  unfolding required with_key text_key
  handle_tracker_set_posture_stiffness p = required p "session_id" (λ session_id d.
      with_key d "posture_stiffness" (λ posture_stiffness.
        with_result (a_session session_id)
          (λ id. Setters.set_tracker_posture_stiffness H id posture_stiffness)))

  -- The manager builds the gains before it looks the session up.
  unfoldable pub handle_tracker_set_nullspace_gains : Handler
  unfolding required with_key text_key
  handle_tracker_set_nullspace_gains p = required p "session_id" (λ session_id d.
      with_key d "gains" (λ gains. with_result (franky_nullspace_gains H.franky gains) (λ _.
        with_result (a_session session_id)
          (λ id. Setters.set_cartesian_tracker_nullspace_gains H id gains))))

  unfoldable pub handle_tracker_set_torque : Handler
  unfolding required with_key text_key
  handle_tracker_set_torque p = required p "session_id" (λ session_id d.
      with_key d "torque" (λ torque.
        with_result (a_session session_id) (λ id. Setters.set_session_torque H id torque)))

  unfoldable pub handle_tracker_get_torque : Handler
  unfolding required text_key
  handle_tracker_get_torque p =
      required p "session_id"
        (λ session_id d. with_result (a_session session_id) (λ id. Setters.get_session_torque H id))
