-- ===== src/Session/Setters.antt =====
-- The references, gains and torques of a running session (tracker_session.py). Each is a call on the
-- session's motion; the session itself stays as it is.
use zero_franky.Base.{not, ◌&&◌, ◌==◌, [], ◌∷◌, if◌then◌else◌}
use zero_franky.Python.Errors.{runtime_error, ok, error}
use zero_franky.Python.Values.{Value, null}
use zero_franky.Python.Attributes.{attr, is_none}
use zero_franky.Python.Exec.{Exec, lift, ◌>>=◌}
use zero_franky.Protocol.Scalars.{decode_damping}
use zero_franky.Builders.Gains.{franky_joint_reference, franky_cartesian_reference}
use zero_franky.Session.Hardware.{Hardware}
use zero_franky.Session.State.{Session}

module _ (H : Hardware) where
  open H use {World}

  unfoldable pub set_joint_reference : Session → Value → Value → Value → Exec World Value
  set_joint_reference s position velocity torque_feedforward = do
    reference ← lift (franky_joint_reference H.franky position velocity torque_feedforward)
    H.set_reference s.motion reference

  unfoldable pub set_cartesian_reference : Session → Value → Value → Value → Exec World Value
  set_cartesian_reference s target target_twist target_acceleration = do
    reference ← lift (franky_cartesian_reference H.franky target target_twist target_acceleration)
    H.set_reference s.motion reference

  -- The stiffness given, or that of the motion's current gains
  unfoldable pub stiffness_or_current : Session → Value → Exec World Value
  unfolding is_none attr
  stiffness_or_current s stiffness w =
      if is_none stiffness
      then (H.motion_call s.motion "get_gains" [] >>= λ gains. lift (attr gains "stiffness")) w
      else (ok stiffness, w)

  unfoldable pub set_joint_gains : Session → Value → Value → Exec World Value
  unfolding is_none stiffness_or_current
  set_joint_gains s stiffness damping w =
      if is_none stiffness && is_none damping
      then (ok null, w)
      else (do
        k ← stiffness_or_current s stiffness
        d ← lift (decode_damping damping)
        gains ← lift (H.franky.construct "JointImpedanceGains" (k ∷ d ∷ []) [])
        H.motion_call s.motion "set_gains" (gains ∷ []))
          w

  unfoldable pub set_nullspace_gains : Session → Value → Exec World Value
  set_nullspace_gains s gains = H.motion_call s.motion "set_nullspace_gains" (gains ∷ [])

  unfoldable pub set_posture_stiffness : Session → Value → Exec World Value
  set_posture_stiffness s posture_stiffness = do
    gains ← H.motion_call s.motion "get_nullspace_gains" []
    gains' ← lift (H.franky.assign gains "posture_stiffness" posture_stiffness)
    H.motion_call s.motion "set_nullspace_gains" (gains' ∷ [])

  unfoldable pub set_torque : Session → Value → Exec World Value
  set_torque s torque w =
      if not (s.kind == "torque")
      then (error runtime_error "set_torque is only valid for torque sessions", w)
      else H.motion_call s.motion "set_torque" (torque ∷ []) w

  unfoldable pub get_torque : Session → Exec World Value
  get_torque s w =
      if not (s.kind == "torque")
      then (error runtime_error "get_torque is only valid for torque sessions", w)
      else H.motion_call s.motion "get_torque" [] w
