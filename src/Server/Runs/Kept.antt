-- ===== src/Server/Runs/Kept.antt =====
-- The manager's operations as the handlers call them (zmq_server.py).
use zero_franky.Base.{String, Bool, Option}
use zero_franky.Python.Values.{
  Value, null, bool, int, float, str, bytes, list, dict, object, method,
}
use zero_franky.Python.Attributes.{FloatOps}
use zero_franky.Python.Exec.{Exec}
use zero_franky.Python.Exec.Keeps.{Moves}
use zero_franky.Session.Hardware.{Hardware}
use zero_franky.Session.Merge.{Numpy}
use zero_franky.Manager.State.{ManagerState, tracker_status}
use zero_franky.Manager.Trackers as Trackers
use zero_franky.Manager.Setters as Setters
use zero_franky.Manager.Trackers.{Tracker, joint_tracker, cartesian_tracker}
use zero_franky.Manager.Runs.{step_on, creates, moves, starts, starts_torque, stops}
use zero_franky.Server.Handlers.{
  a_session, as_dict, as_text, status_of, start_handler, stop_by_key, set_cartesian_by_key,
}
use zero_franky.Builders.Parts.{franky_affine, franky_twist_acceleration}
use zero_franky.Server.Runs.Same as S
use zero_franky.Server.Runs.Follows.{
  Follows, Kept, Same-Follows, same, unchanged, kept_then, kept_result, kept_required,
}

module _ ⦃ops : FloatOps⦄ (N : Numpy) (H : Hardware) where
  pub kept_text : (m : Exec (ManagerState H) String) → Moves (Follows H) m → Kept H (as_text N H m)
  unfolding as_text
  kept_text m h = kept_then H m str h

  pub kept_status : (id : String) → Kept H (status_of N H id)
  unfolding status_of
  kept_status id =
      kept_then H (tracker_status H id) as_dict
        (λ x. Same-Follows H x (tracker_status H id x).1 (S.tracker_status-Same H id x))

  pub kept_create : (id : String) (a : Value) → Kept H (as_text N H (Trackers.create_robot H id a))
  kept_create id a =
      kept_text (Trackers.create_robot H id a) (λ x run. step_on x _ run (creates id a x))

  pub kept_move : (id : String) (a : Value) (b : Bool) → Kept H (Trackers.move H id a b)
  kept_move id a b = record { keeps = λ x run. step_on x _ run (moves id a b x) }

  pub kept_torque :
      (id : String) (a : Value) → Kept H (as_text N H (Trackers.start_torque_tracker H id a))
  kept_torque id a =
      kept_text (Trackers.start_torque_tracker H id a)
        (λ x run. step_on x _ run (starts_torque id a x))

  pub kept_tracker :
      (tracker : Tracker) (id : String) (policy : Option Value) (a period : Value) (b : Bool)
      → Kept H (as_text N H (Trackers.start_tracker H tracker id policy a period b))
  kept_tracker tracker id policy a period b =
      kept_text (Trackers.start_tracker H tracker id policy a period b)
        (λ x run. step_on x _ run (starts tracker id policy a period b x))

  pub kept_recover_from_errors : (id : String) → Kept H (Trackers.recover_from_errors H id)
  kept_recover_from_errors id = same H (S.recover_from_errors-Same H id)

  pub kept_join_motion : (id : String) (a : Value) → Kept H (Trackers.join_motion H id a)
  kept_join_motion id a = same H (S.join_motion-Same H id a)

  pub kept_poll_motion : (id : String) → Kept H (Trackers.poll_motion H id)
  kept_poll_motion id = same H (S.poll_motion-Same H id)

  pub kept_stop : (id : String) → Kept H (Trackers.stop H id)
  kept_stop id = same H (S.stop-Same H id)

  pub kept_get_last_teleop_state : (id : String) → Kept H (Trackers.get_last_teleop_state H id)
  kept_get_last_teleop_state id = same H (S.get_last_teleop_state-Same H id)

  pub kept_set_joint_tracker_reference :
      (id : String) (a b c : Value) → Kept H (Setters.set_joint_tracker_reference H id a b c)
  kept_set_joint_tracker_reference id a b c = same H (S.set_joint_tracker_reference-Same H id a b c)

  pub kept_set_cartesian_tracker_reference :
      (id : String) (a b c : Value) → Kept H (Setters.set_cartesian_tracker_reference H id a b c)
  kept_set_cartesian_tracker_reference id a b c =
      same H (S.set_cartesian_tracker_reference-Same H id a b c)

  pub kept_set_joint_tracker_gains :
      (id : String) (a b : Value) → Kept H (Setters.set_joint_tracker_gains H id a b)
  kept_set_joint_tracker_gains id a b = same H (S.set_joint_tracker_gains-Same H id a b)

  pub kept_set_tracker_posture_stiffness :
      (id : String) (a : Value) → Kept H (Setters.set_tracker_posture_stiffness H id a)
  kept_set_tracker_posture_stiffness id a = same H (S.set_tracker_posture_stiffness-Same H id a)

  pub kept_set_cartesian_tracker_nullspace_gains :
      (id : String) (a : Value) → Kept H (Setters.set_cartesian_tracker_nullspace_gains H id a)
  kept_set_cartesian_tracker_nullspace_gains id a =
      same H (S.set_cartesian_tracker_nullspace_gains-Same H id a)

  pub kept_set_session_torque :
      (id : String) (a : Value) → Kept H (Setters.set_session_torque H id a)
  kept_set_session_torque id a = same H (S.set_session_torque-Same H id a)

  pub kept_get_session_torque : (id : String) → Kept H (Setters.get_session_torque H id)
  kept_get_session_torque id = same H (S.get_session_torque-Same H id)

  pub kept_set_cartesian_tracker_gains :
      (id : String) (a : Value) → Kept H (Setters.set_cartesian_tracker_gains H N id a)
  kept_set_cartesian_tracker_gains id a = same H (S.set_cartesian_tracker_gains-Same H N id a)

  pub kept_set_joint_tracker_cartesian_gains :
      (id : String) (a : Value) → Kept H (Setters.set_joint_tracker_cartesian_gains H N id a)
  kept_set_joint_tracker_cartesian_gains id a =
      same H (S.set_joint_tracker_cartesian_gains-Same H N id a)

  pub kept_start : (tracker : Tracker) (p : Value) → Kept H (start_handler N H tracker p)
  unfolding start_handler
  kept_start tracker p =
      kept_required H p _ _ (λ v d. kept_result H _ _ (λ id. kept_tracker tracker id _ _ _ _))

  pub kept_stop_by_key : (v t : Value) (q : Option Value) → Kept H (stop_by_key N H v t q)
  unfolding stop_by_key
  kept_stop_by_key (str id) t q = kept_then H _ _ (λ x run. step_on x _ run (stops id t q x))
  kept_stop_by_key null t q = unchanged H _
  kept_stop_by_key (bool b) t q = unchanged H _
  kept_stop_by_key (int n) t q = unchanged H _
  kept_stop_by_key (float x) t q = unchanged H _
  kept_stop_by_key (bytes b) t q = unchanged H _
  kept_stop_by_key (list xs) t q = unchanged H _
  kept_stop_by_key (dict d) t q = unchanged H _
  kept_stop_by_key (object c attrs) t q = unchanged H _
  kept_stop_by_key (method v) t q = unchanged H _

  pub kept_cartesian : (v a b c : Value) → Kept H (set_cartesian_by_key N H v a b c)
  unfolding set_cartesian_by_key
  kept_cartesian v a b c = kept_result H (franky_affine H.franky a) _ (λ target.
      kept_result H (Setters.robot_velocity_or_none H b) _ (λ twist.
        kept_result H (franky_twist_acceleration H.franky c) _ (λ acceleration.
          kept_result H (a_session v) _ (λ id. kept_set_cartesian_tracker_reference id a b c))))
