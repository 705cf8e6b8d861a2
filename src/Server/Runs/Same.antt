-- ===== src/Server/Runs/Same.antt =====
-- The requests that leave the manager as it is: they read it, and drive a robot or a session.
use zero_franky.Base.{String, ◌≡◌, arith}
use zero_franky.Python.Values.{Value}
use zero_franky.Python.Attributes.{FloatOps}
use zero_franky.Python.Exec.{Exec}
use zero_franky.Python.Exec.Keeps.{Moves}
use zero_franky.Session.Hardware.{Hardware}
use zero_franky.Session.State.{Session}
use zero_franky.Session.Merge.{Numpy}
use zero_franky.Manager.State.{ManagerState, robot, tracker_session, tracker_status}
use zero_franky.Manager.Trackers.{
  recover_from_errors, join_motion, poll_motion, stop, get_last_teleop_state,
}
use zero_franky.Manager.Setters.{
  on_session, told_session, set_joint_tracker_reference, set_cartesian_tracker_reference,
  set_joint_tracker_gains, set_cartesian_tracker_gains, set_joint_tracker_cartesian_gains,
  set_tracker_posture_stiffness, set_cartesian_tracker_nullspace_gains, set_session_torque,
  get_session_torque,
}

module _ (H : Hardware) where
  open H use {World}

  abbrev pub Same : ManagerState H → ManagerState H → Type 0
  Same x y = y.0 ≡ x.0

  pub recover_from_errors-Same : (id : String) → Moves Same (recover_from_errors H id)
  unfolding recover_from_errors robot
  recover_from_errors-Same id (m, w) = ground arith

  pub join_motion-Same : (id : String) (timeout : Value) → Moves Same (join_motion H id timeout)
  unfolding join_motion robot
  join_motion-Same id timeout (m, w) = ground arith

  pub poll_motion-Same : (id : String) → Moves Same (poll_motion H id)
  unfolding poll_motion robot
  poll_motion-Same id (m, w) = ground arith

  pub stop-Same : (id : String) → Moves Same (stop H id)
  unfolding stop robot
  stop-Same id (m, w) = ground arith

  pub get_last_teleop_state-Same : (id : String) → Moves Same (get_last_teleop_state H id)
  unfolding get_last_teleop_state
  get_last_teleop_state-Same id (m, w) = ground arith

  pub tracker_status-Same : (id : String) → Moves Same (tracker_status H id)
  unfolding tracker_status
  tracker_status-Same id (m, w) = ground arith

  on_session-Same :
      (id : String) (method : Session → Exec World Value) → Moves Same (on_session H id method)
  unfolding on_session tracker_session
  on_session-Same id method (m, w) = ground arith

  told_session-Same :
      (id : String) (method : Session → Exec World Value) → Moves Same (told_session H id method)
  unfolding told_session on_session tracker_session
  told_session-Same id method (m, w) = ground arith

  pub set_joint_tracker_reference-Same :
      (id : String) (a b c : Value) → Moves Same (set_joint_tracker_reference H id a b c)
  unfolding set_joint_tracker_reference
  set_joint_tracker_reference-Same id a b c = told_session-Same id _

  pub set_cartesian_tracker_reference-Same :
      (id : String) (a b c : Value) → Moves Same (set_cartesian_tracker_reference H id a b c)
  unfolding set_cartesian_tracker_reference told_session on_session tracker_session
  set_cartesian_tracker_reference-Same id a b c (m, w) = ground arith

  pub set_joint_tracker_gains-Same :
      (id : String) (a b : Value) → Moves Same (set_joint_tracker_gains H id a b)
  unfolding set_joint_tracker_gains
  set_joint_tracker_gains-Same id a b = told_session-Same id _

  pub set_tracker_posture_stiffness-Same :
      (id : String) (a : Value) → Moves Same (set_tracker_posture_stiffness H id a)
  unfolding set_tracker_posture_stiffness
  set_tracker_posture_stiffness-Same id a = told_session-Same id _

  pub set_cartesian_tracker_nullspace_gains-Same :
      (id : String) (a : Value) → Moves Same (set_cartesian_tracker_nullspace_gains H id a)
  unfolding set_cartesian_tracker_nullspace_gains told_session on_session tracker_session
  set_cartesian_tracker_nullspace_gains-Same id a (m, w) = ground arith

  pub set_session_torque-Same : (id : String) (a : Value) → Moves Same (set_session_torque H id a)
  unfolding set_session_torque
  set_session_torque-Same id a = told_session-Same id _

  module _ ⦃ops : FloatOps⦄ where
    pub set_cartesian_tracker_gains-Same :
        (N : Numpy) (id : String) (a : Value) → Moves Same (set_cartesian_tracker_gains H N id a)
    unfolding set_cartesian_tracker_gains
    set_cartesian_tracker_gains-Same N id a = told_session-Same id _

    pub set_joint_tracker_cartesian_gains-Same :
        (N : Numpy) (id : String) (a : Value)
        → Moves Same (set_joint_tracker_cartesian_gains H N id a)
    unfolding set_joint_tracker_cartesian_gains
    set_joint_tracker_cartesian_gains-Same N id a = told_session-Same id _

    pub get_session_torque-Same : (id : String) → Moves Same (get_session_torque H id)
    unfolding get_session_torque on_session tracker_session
    get_session_torque-Same id (m, w) = ground arith
