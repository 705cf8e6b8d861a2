-- ===== src/Builders/Gains.antt =====
-- The gains and the references of a tracker (zmq_server_franky.py).
use zero_franky.Base.{String, [], ◌∷◌, if◌then◌else◌}
use zero_franky.Python.Errors.{Result, ◌>>=◌}
use zero_franky.Python.Values.{Value, null, float}
use zero_franky.Python.Attributes.{get, is_none}
use zero_franky.Protocol.Scalars.{decode_damping}
use zero_franky.Types.Gains.{translational_default, rotational_default}
use zero_franky.Builders.Franky.{Franky}

unfoldable pub or_default : Value → Value → Value
unfolding is_none
or_default v d = if is_none v then d else v

module _ (franky : Franky) where
  open franky use {construct, assign, has_isotropic}

  -- `gains.name = payload.get(name, default)`
  unfoldable pub assign_from : Value → Value → String → Value → Result Value
  unfolding get
  assign_from payload gains name default = do v ← get payload name default; assign gains name v

  unfoldable pub franky_nullspace_gains : Value → Result Value
  unfolding assign_from
  franky_nullspace_gains payload = do
    gains ← construct "NullspaceGains" [] []
    gains1 ← assign_from payload gains "posture_stiffness" (float (record { bits = 0 }))
    gains2 ← assign_from payload gains1 "posture_damping" null
    gains3 ← assign_from payload gains2 "posture_max_torque" null
    gains4 ← assign_from payload gains3 "manipulability_gain" (float (record { bits = 0 }))
    gains5 ← assign_from payload gains4 "manipulability_damping" (float (record { bits = 0 }))
    assign_from payload gains5 "manipulability_max_torque" null

  -- Gains with a stiffness matrix of their own
  unfoldable pub full_cartesian_gains : Value → Value → Result Value
  unfolding get
  full_cartesian_gains payload stiffness = do
    gains ← construct "CartesianImpedanceGains" [] []
    gains1 ← assign gains "stiffness" stiffness
    damping ← get payload "damping" null
    damping' ← decode_damping damping
    assign gains1 "damping" damping'

  -- Gains from the two scalar stiffnesses, where franky has `isotropic` and where it has not
  unfoldable pub isotropic_gains : Value → Value → Value → Value → Result Value
  isotropic_gains kt kr translational_damping rotational_damping =
      if has_isotropic
      then construct "CartesianImpedanceGains.isotropic"
          (kt ∷ kr ∷ translational_damping ∷ rotational_damping ∷ []) []
      else construct "CartesianImpedanceGains" []
          (("translational_stiffness", kt) ∷ ("rotational_stiffness", kr) ∷ [])

  unfoldable pub franky_cartesian_gains : Value → Result Value
  unfolding get is_none or_default full_cartesian_gains isotropic_gains
  franky_cartesian_gains payload = do
    stiffness ← get payload "stiffness" null
    translational ← get payload "translational_stiffness" null
    rotational ← get payload "rotational_stiffness" null
    translational_damping ← get payload "translational_damping" null
    rotational_damping ← get payload "rotational_damping" null
    if is_none stiffness
        then isotropic_gains (or_default translational translational_default)
            (or_default rotational rotational_default) translational_damping rotational_damping
        else full_cartesian_gains payload stiffness

  unfoldable pub franky_joint_reference : Value → Value → Value → Result Value
  franky_joint_reference position velocity torque_feedforward =
      construct "JointReference" (position ∷ velocity ∷ torque_feedforward ∷ []) []

  unfoldable pub franky_cartesian_reference : Value → Value → Value → Result Value
  franky_cartesian_reference target target_twist target_acceleration =
      construct "CartesianReference" (target ∷ target_twist ∷ target_acceleration ∷ []) []
