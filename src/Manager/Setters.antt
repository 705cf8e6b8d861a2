-- ===== src/Manager/Setters.antt =====
-- The requests that the manager forwards to a session (zmq_server.py).
use zero_franky.Base.{String, ◌≡◌, refl, true, false, ◌==◌, some, if◌then◌else◌}
use zero_franky.Base.Dict.{lookup}
use zero_franky.Python.Errors.{runtime_error, Result, ok, error}
use zero_franky.Python.Values.{Value, null, bool}
use zero_franky.Python.Attributes.{FloatOps, truthy}
use zero_franky.Python.Exec.{Exec, pure, lift, ◌>>=◌, ◌>>◌}
use zero_franky.Protocol.RpcValue.{encode_rpc_value}
use zero_franky.Builders.Parts.{franky_affine, franky_robot_velocity, franky_twist_acceleration}
use zero_franky.Builders.Gains.{franky_nullspace_gains}
use zero_franky.Session.Hardware.{Hardware}
use zero_franky.Session.State.{Session}
use zero_franky.Session.Setters.{
  set_joint_reference, set_cartesian_reference, set_joint_gains, set_nullspace_gains,
  set_posture_stiffness, set_torque, get_torque,
}
use zero_franky.Session.Merge.{Numpy}
use zero_franky.Session.CartesianGains.{set_cartesian_gains, set_hybrid_cartesian_gains}
use zero_franky.Manager.State.{Manager, ManagerState, on_world, tracker_session, found}

module _ (H : Hardware) where
  open H use {World}

  -- `self._tracker_session(session_id).method(...)`
  unfoldable pub on_session : String → (Session → Exec World Value) → Exec (ManagerState H) Value
  unfolding tracker_session
  on_session session_id method = do s ← tracker_session H session_id; on_world H (method s)

  -- The same, answering True
  unfoldable pub told_session : String → (Session → Exec World Value) → Exec (ManagerState H) Value
  unfolding on_session
  told_session session_id method = on_session session_id method >> pure (bool true)

  unfoldable pub set_joint_tracker_reference :
      String → Value → Value → Value → Exec (ManagerState H) Value
  unfolding told_session
  set_joint_tracker_reference session_id position velocity torque_feedforward =
      told_session session_id (λ s. set_joint_reference H s position velocity torque_feedforward)

  unfoldable pub robot_velocity_or_none : Value → Result Value
  unfolding truthy
  robot_velocity_or_none payload =
      if truthy payload then franky_robot_velocity H.franky payload else ok null

  unfoldable pub set_cartesian_tracker_reference :
      String → Value → Value → Value → Exec (ManagerState H) Value
  unfolding told_session robot_velocity_or_none
  set_cartesian_tracker_reference session_id target_payload twist_payload acceleration_payload = do
    target ← lift (franky_affine H.franky target_payload)
    target_twist ← lift (robot_velocity_or_none twist_payload)
    target_acceleration ← lift (franky_twist_acceleration H.franky acceleration_payload)
    told_session session_id
        (λ s. set_cartesian_reference H s target target_twist target_acceleration)

  unfoldable pub set_joint_tracker_gains : String → Value → Value → Exec (ManagerState H) Value
  unfolding told_session
  set_joint_tracker_gains session_id stiffness damping =
      told_session session_id (λ s. set_joint_gains H s stiffness damping)

  unfoldable pub set_cartesian_tracker_gains :
      ⦃ops : FloatOps⦄ → Numpy → String → Value → Exec (ManagerState H) Value
  unfolding told_session
  set_cartesian_tracker_gains N session_id gains_payload =
      told_session session_id (λ s. set_cartesian_gains N H s gains_payload)

  unfoldable pub set_joint_tracker_cartesian_gains :
      ⦃ops : FloatOps⦄ → Numpy → String → Value → Exec (ManagerState H) Value
  unfolding told_session
  set_joint_tracker_cartesian_gains N session_id gains_payload =
      told_session session_id (λ s. set_hybrid_cartesian_gains N H s gains_payload)

  unfoldable pub set_tracker_posture_stiffness : String → Value → Exec (ManagerState H) Value
  unfolding told_session
  set_tracker_posture_stiffness session_id posture_stiffness =
      told_session session_id (λ s. set_posture_stiffness H s posture_stiffness)

  unfoldable pub set_cartesian_tracker_nullspace_gains :
      String → Value → Exec (ManagerState H) Value
  unfolding told_session
  set_cartesian_tracker_nullspace_gains session_id gains_payload = do
    gains ← lift (franky_nullspace_gains H.franky gains_payload)
    told_session session_id (λ s. set_nullspace_gains H s gains)

  unfoldable pub set_session_torque : String → Value → Exec (ManagerState H) Value
  unfolding told_session
  set_session_torque session_id torque = told_session session_id (λ s. set_torque H s torque)

  unfoldable pub get_session_torque : ⦃ops : FloatOps⦄ → String → Exec (ManagerState H) Value
  unfolding on_session
  get_session_torque session_id = do
    torque ← on_session session_id (λ s. get_torque H s)
    lift (encode_rpc_value torque)

  -- On a session that is not a torque session, setting and reading the torque both raise, and neither
  -- the manager nor the world changes.
  pub session_torque_refused :
      ⦃ops : FloatOps⦄ (id : String) (torque : Value) (m : Manager) (w : World) (s : Session)
      → lookup id m.tracker_sessions ≡ some s
      → (s.kind == "torque") ≡ false
      → (set_session_torque id torque (m, w)
          ≡ (error runtime_error "set_torque is only valid for torque sessions", (m, w)))
        × (get_session_torque id (m, w)
            ≡ (error runtime_error "get_torque is only valid for torque sessions", (m, w)))
  unfolding set_session_torque get_session_torque told_session on_session tracker_session found
      set_torque get_torque
  session_torque_refused id torque m w s h kind = (rw h (rw kind refl), rw h (rw kind refl))
