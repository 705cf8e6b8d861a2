-- ===== src/Session/Handle.antt =====
-- The handles that a policy gets for its own session (_TrackerHandle of tracker_session.py).
use zero_franky.Base.{Bool, not, ◌&&◌, ◌||◌, Option, none, some, [], ◌∷◌, if◌then◌else◌}
use zero_franky.Python.Errors.{Result, ok, error, value_error, ◌>>=◌}
use zero_franky.Python.Values.{Value, null, dict_of}
use zero_franky.Python.Attributes.{FloatOps, attr, is_none}
use zero_franky.Python.Exec as Exec
use zero_franky.Protocol.RpcValue.{encode_rpc_value}
use zero_franky.Session.Hardware.{Hardware}
use zero_franky.Session.Merge.{Numpy}
use zero_franky.Session.State.{Session, SessionState, status}
use zero_franky.Session.Setters.{
  set_joint_reference, set_cartesian_reference, set_joint_gains, set_nullspace_gains,
  set_posture_stiffness,
}
use zero_franky.Session.CartesianGains.{set_cartesian_gains, set_hybrid_cartesian_gains}

module _ ⦃ops : FloatOps⦄ where
  -- A gains object replaces all blocks, so that its payload carries the stiffness.
  unfoldable pub full_payload : Value → Result (Option Value)
  unfolding attr
  full_payload gains = do
    stiffness ← attr gains "stiffness"
    damping ← attr gains "damping"
    ok (some (dict_of (("stiffness", stiffness) ∷ ("damping", damping) ∷ [])))

  unfoldable pub blocks_payload : Value → Value → Value → Result (Option Value)
  unfolding encode_rpc_value
  blocks_payload translational_stiffness rotational_stiffness damping = do
    d ← encode_rpc_value damping
    ok (
        some (
          dict_of (
            ("stiffness", null)
            ∷ ("translational_stiffness", translational_stiffness)
            ∷ ("rotational_stiffness", rotational_stiffness)
            ∷ ("damping", d)
            ∷ [])))

  -- `_cartesian_gains_payload`; `none` changes nothing.
  unfoldable pub cartesian_gains_payload : Value → Value → Value → Value → Result (Option Value)
  unfolding is_none full_payload blocks_payload
  cartesian_gains_payload gains translational_stiffness rotational_stiffness damping =
      let stiffness_given : Bool =
        not (is_none translational_stiffness) || not (is_none rotational_stiffness) in
      if not (is_none gains)
      then (if stiffness_given || not (is_none damping)
          then error value_error "Pass either gains or the isotropic keywords, not both"
          else full_payload gains)
      else if not stiffness_given && is_none damping
      then ok none
      else blocks_payload translational_stiffness rotational_stiffness damping

module _ ⦃ops : FloatOps⦄ (N : Numpy) (H : Hardware) where
  open H use {World}

  -- `is_running`
  unfoldable pub handle_is_running : SessionState H → Bool
  unfolding status
  handle_is_running x = (status H x).running

  -- A call of the session's method that returns nothing
  abbrev on_session : (Session → Exec.Exec World Value) → Exec.Exec (SessionState H) Unit
  on_session f (s, w) = let (r, v) = Exec.◌>>◌ (f s) (Exec.pure tt) w in (r, (s, v))

  -- `if payload is not None: set(payload)`
  abbrev on_payload :
      (Session → Value → Exec.Exec World Value) → Option Value → Exec.Exec (SessionState H) Unit
  on_payload f none = Exec.pure tt
  on_payload f (some payload) = on_session (λ s. f s payload)

  -- `_JointTrackerHandle`
  unfoldable pub handle_set_joint_target : Value → Value → Value → Exec.Exec (SessionState H) Unit
  unfolding set_joint_reference
  handle_set_joint_target q dq tau_ff = on_session (λ s. set_joint_reference H s q dq tau_ff)

  unfoldable pub handle_set_joint_gains : Value → Value → Exec.Exec (SessionState H) Unit
  unfolding set_joint_gains encode_rpc_value
  handle_set_joint_gains stiffness damping =
      Exec.◌>>=◌ (Exec.lift (encode_rpc_value damping))
        (λ d. on_session (λ s. set_joint_gains H s stiffness d))

  unfoldable pub handle_set_hybrid_gains :
      Value → Value → Value → Value → Exec.Exec (SessionState H) Unit
  unfolding cartesian_gains_payload set_hybrid_cartesian_gains
  handle_set_hybrid_gains gains translational_stiffness rotational_stiffness damping =
      Exec.◌>>=◌
        (Exec.lift
          (cartesian_gains_payload gains translational_stiffness rotational_stiffness damping))
        (on_payload (set_hybrid_cartesian_gains N H))

  -- `_CartesianTrackerHandle`
  unfoldable pub handle_set_cartesian_target :
      Value → Value → Value → Exec.Exec (SessionState H) Unit
  unfolding set_cartesian_reference
  handle_set_cartesian_target pose twist acceleration =
      on_session (λ s. set_cartesian_reference H s pose twist acceleration)

  unfoldable pub set_nullspace : Value → Value → Exec.Exec (SessionState H) Unit
  unfolding is_none set_nullspace_gains set_posture_stiffness
  set_nullspace nullspace_gains posture_stiffness x =
      if not (is_none nullspace_gains)
      then on_session (λ s. set_nullspace_gains H s nullspace_gains) x
      else if not (is_none posture_stiffness)
      then on_session (λ s. set_posture_stiffness H s posture_stiffness) x
      else (ok tt, x)

  unfoldable pub handle_set_cartesian_gains :
      Value → Value → Value → Value → Value → Value → Exec.Exec (SessionState H) Unit
  unfolding is_none cartesian_gains_payload set_cartesian_gains set_nullspace
  handle_set_cartesian_gains gains translational_stiffness rotational_stiffness damping
        posture_stiffness nullspace_gains x =
      if not (is_none nullspace_gains) && not (is_none posture_stiffness)
      then (error value_error "Pass either nullspace_gains or posture_stiffness, not both", x)
      else Exec.◌>>◌
          (Exec.◌>>=◌
            (Exec.lift
              (cartesian_gains_payload gains translational_stiffness rotational_stiffness damping))
            (on_payload (set_cartesian_gains N H)))
          (set_nullspace nullspace_gains posture_stiffness) x

  unfoldable pub handle_set_nullspace_gains : Value → Exec.Exec (SessionState H) Unit
  unfolding set_nullspace_gains
  handle_set_nullspace_gains gains = on_session (λ s. set_nullspace_gains H s gains)
